-- ===== src/Txn/Calm.antt =====
-- The outermost `logdb_txn_commit` when no call fails and nobody else is at work: it succeeds, and
-- leaves a connection on which the next commit can do the same.
pub mod Extends
pub mod Write
use logdb.Prelude.{
  ℕ, suc, ◌+◌, ◌-◌, ◌≤◌, ◌<◌, ◌≡◌, ◌≢◌, refl, sym, ap, subst, ◌∙◌, ◌⊎◌, inl, inr, ℤ, pos, succeeded,
  failed, is_failed, is_zero, not, true, false, Bool, Bool-cases, Option, none, some, List, [], ◌∷◌,
  ◌++◌, ◌==◌, if◌then◌else◌, arith, u16, length,
}
use mathlib.Core.Path.{ap₂}
use logdb.Disk.{is_db_header}
use logdb.Log.Header.{is_log_header}
use logdb.File.{File, read_at, write_at}
use logdb.Io.{Fd, outcome, spend}
use logdb.Io.Quiet.{io_pwrite-quiet}
use logdb.Log.Layout.{section_size, log_offset, connection_offset, encode16}
use logdb.Log.Lock.{LockNode, lock_write, inproc_unlock}
use logdb.Log.Lock.Free.{AllFree, held-AllFree, FreeAgain, lock-FreeAgain}
use logdb.Log.Entry.{entry_at, log_write_entry}
use logdb.Connection.{Conn}
use logdb.Connection.Locking.{log_unlock, conn_inproc_unlock, rdunlock}
use logdb.Heap.{Ptr, null, Heap, Result, answered}
use logdb.Sections.{HasShorts, stored}
use logdb.Lease.{Lease, lease_release}
use logdb.Lease.Choose.{IsLog}
use logdb.Txn.{publish, sys_fsync}

-- The log has `n` entries, of data that are in the database file. No entry is locked, and no call
-- fails.
pub record IsCalm (n : ℕ) (c : Conn) : Type 0 where
  pub log : IsLog n c.log
  pub shorts : HasShorts c.log.file
  pub inside :
      (j len : ℕ) → entry_at c.log.file j ≡ some len → connection_offset j + len ≤ c.db.file.size
  pub db : c.db.script ≡ []
  pub header : is_db_header (read_at 0 6 c.db.file) ≡ true
  pub valid : is_log_header (read_at 0 6 c.log.file) ≡ true
  pub readers : c.readers < c.max_readers
  pub memory : c.memory ≡ true
  pub free : AllFree c.locks

log_write_entry-whole :
    (len index : ℕ) (fd : Fd)
    → fd.script ≡ []
    → log_write_entry len index fd
      ≡ (succeeded, record fd { file = write_at (log_offset index) (encode16 len) fd.file })
unfolding log_write_entry
log_write_entry-whole len index fd quiet =
    ground (arith, io_pwrite-quiet (encode16 len) (log_offset index) fd quiet)

sys_fsync-quiet :
    (fd : Fd)
    → fd.script ≡ []
    → ((sys_fsync fd).0 ≡ succeeded)
      × ((sys_fsync fd).1.file ≡ fd.file)
      × ((sys_fsync fd).1.script ≡ [])
unfolding sys_fsync
sys_fsync-quiet fd quiet = ground (arith, quiet)

-- What is left of a connection: the files, the locks, and the rest.
pub record LeftWith (db log : File) (table : List LockNode) (readers max_readers : ℕ)
    (memory nosync : Bool) (c' : Conn) : Type 0 where
  pub db_file : c'.db.file ≡ db
  pub db_script : c'.db.script ≡ []
  pub log_file : c'.log.file ≡ log
  pub log_script : c'.log.script ≡ []
  pub locks : c'.locks ≡ table
  pub readers_left : c'.readers ≡ readers - 1
  pub room : c'.max_readers ≡ max_readers
  pub has_memory : c'.memory ≡ memory
  pub same_flag : c'.nosync ≡ nosync

abbrev pub Left : File → File → List LockNode → Conn → Conn → Type 0
Left db log table c c' = LeftWith db log table c.readers c.max_readers c.memory c.nosync c'

release-Left :
    (lease : Lease) (c : Conn) (table : List LockNode)
    → lease.type ≡ lock_write
    → c.db.script ≡ []
    → c.log.script ≡ []
    → inproc_unlock lock_write lease.index c.locks ≡ some table
    → Left c.db.file c.log.file table c (lease_release lease c)
unfolding lease_release log_unlock conn_inproc_unlock rdunlock
release-Left lease c table write db log found = ground (arith, write, db, log, found)

module _ (lease : Lease) (c : Conn) (table : List LockNode) (write : lease.type ≡ lock_write)
    (db : c.db.script ≡ []) (log : c.log.script ≡ [])
    (found : inproc_unlock lock_write lease.index c.locks ≡ some table) where
  -- The log with the new entry.
  abbrev entered : Fd
  entered = record c.log {
    file = write_at (log_offset lease.index) (encode16 (u16 lease.offset)) c.log.file;
  }

  publish-fast :
      c.nosync ≡ true
      → publish lease c ≡ (succeeded, lease_release lease (record c { log = entered }))
  unfolding publish
  publish-fast fast =
      ground (arith, fast, log_write_entry-whole (u16 lease.offset) lease.index c.log log)

  publish-durable :
      c.nosync ≡ false
      → publish lease c ≡ (
        succeeded,
        lease_release lease (record c { db = (sys_fsync c.db).1; log = (sys_fsync entered).1 }),
      )
  unfolding publish
  publish-durable durable = ground (
    arith,
    durable,
    log_write_entry-whole (u16 lease.offset) lease.index c.log log,
    (sys_fsync-quiet c.db db).0,
  )

  pub publish-Left :
      (n : ℤ × Conn)
      → n ≡ publish lease c
      → (n.0 ≡ succeeded)
        × Left c.db.file
            (write_at (log_offset lease.index) (encode16 (u16 lease.offset)) c.log.file)
            table
            c
            n.1
  publish-Left n e = elim (Bool-cases c.nosync) [
    | inl fast ↦
        subst (λ (r : ℤ × Conn). (r.0 ≡ succeeded) × Left c.db.file entered.file table c r.1)
          (sym (e ∙ publish-fast fast))
          (refl, release-Left lease (record c { log = entered }) table write db log found)
    | inr durable ↦
        let d = sys_fsync-quiet c.db db in
        let l = sys_fsync-quiet entered log in
        let r =
          release-Left lease (record c { db = (sys_fsync c.db).1; log = (sys_fsync entered).1 })
            table write d.2 l.2 found in
        subst (λ (r : ℤ × Conn). (r.0 ≡ succeeded) × Left c.db.file entered.file table c r.1)
          (sym (e ∙ publish-durable durable))
          (
            refl,
            record {
              db_file = r.db_file ∙ d.1;
              db_script = r.db_script;
              log_file = r.log_file ∙ l.1;
              log_script = r.log_script;
              locks = r.locks;
              readers_left = r.readers_left;
              room = r.room;
              has_memory = r.has_memory;
              same_flag = r.same_flag;
            },
          )
  ]

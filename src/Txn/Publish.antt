-- ===== src/Txn/Publish.antt =====
-- The end of `logdb_txn_commit`: syncs, the new entry, the release.
use logdb.Prelude.{
  ◌%◌, ◌≡◌, ◌⊎◌, ℤ, succeeded, failed, is_failed, false, not, [], ◌∷◌, if◌then◌else◌, arith, u16,
  true,
}
use logdb.File.{write_at}
use logdb.Io.{Fd}
use logdb.Log.Layout.{log_offset, encode16}
use logdb.Log.Entry.{log_write_entry}
use logdb.Log.Entry.Laws.{log_write_entry-file, log_write_entry-quiet}
use logdb.Connection.{Conn}
use logdb.Connection.Locking.{log_unlock, conn_inproc_unlock, rdunlock}
use logdb.Lease.{Lease, lease_release}
use logdb.Txn.{publish, sys_fsync}

-- The files are left alone.
pub record SameFiles (c c' : Conn) : Type 0 where
  pub db : c'.db ≡ c.db
  pub log : c'.log.file ≡ c.log.file
  pub log_synced : c'.log.synced ≡ c.log.synced

file-sys_fsync : (fd : Fd) → (sys_fsync fd).1.file ≡ fd.file
unfolding sys_fsync
file-sys_fsync fd = ground arith

pub lease_release-SameFiles : (lease : Lease) (c : Conn) → SameFiles c (lease_release lease c)
unfolding lease_release log_unlock conn_inproc_unlock rdunlock
lease_release-SameFiles lease c = ground arith

-- What is left behind. The entry is touched only after the data is durable, if it is to be.
pub record Published (lease : Lease) (c : Conn) (code : ℤ) (c' : Conn) : Type 0 where
  pub db : c'.db.file ≡ c.db.file
  pub outcome :
      (code ≡ succeeded)
        × (c'.log.file ≡ write_at (log_offset lease.index) (encode16 (u16 lease.offset)) c.log.file)
        × ((c.nosync ≡ true) ⊎ (c'.db.synced ≡ c.db.file))
      ⊎ (code ≡ failed) × (c'.log.file ≡ c.log.file)
      ⊎ (code ≡ failed)
        × (c'.log.file ≡ write_at (log_offset lease.index) (u16 lease.offset % 256 ∷ []) c.log.file)
        × ((c.nosync ≡ true) ⊎ (c'.db.synced ≡ c.db.file))

-- The state behind the first `fsync`.
record Synced (c : Conn) (code : ℤ) (db : Fd) : Type 0 where
  file : db.file ≡ c.db.file
  durable : is_failed code ≡ false → c.nosync ≡ false → db.synced ≡ c.db.file

synced :
    (c : Conn)
    → let (code, db) = if not c.nosync then sys_fsync c.db else (succeeded, c.db) in
      Synced c code db
unfolding sys_fsync
synced c = ground arith

-- Whatever the system calls do, 0 means that the entry was replaced by the end of the lease,
-- after the data were durable (or the connection is without syncs). With -1 the log is as before,
-- or the first byte of the entry was replaced, again after the sync. The bytes of the database
-- file stay.
pub publish-Published :
    (lease : Lease) (c : Conn) → let (code, c') = publish lease c in Published lease c code c'
unfolding publish
publish-Published lease c =
    let s = synced c in
    let (code, db) = if not c.nosync then sys_fsync c.db else (succeeded, c.db) in
    let c1 = record c { db = db } in
    let e = log_write_entry-file (u16 lease.offset) lease.index c.log in
    let (written, log) = log_write_entry (u16 lease.offset) lease.index c.log in
    let c2 = record c1 { log = log } in
    let k1 = lease_release-SameFiles lease c1 in
    let k2 = lease_release-SameFiles lease c2 in
    let k3 = lease_release-SameFiles lease (record c2 { log = (sys_fsync log).1 }) in
    ground (arith, s, e, k1.db, k1.log, k2.db, k2.log, k3.db, k3.log, file-sys_fsync log)

-- If no call on the log fails, -1 means that the log is as before.
pub publish-quiet :
    (lease : Lease) (c : Conn)
    → c.log.script ≡ []
    → let (code, c') = publish lease c in (code ≡ succeeded) ⊎ (c'.log.file ≡ c.log.file)
unfolding publish
publish-quiet lease c quiet =
    let (synced, db) = if not c.nosync then sys_fsync c.db else (succeeded, c.db) in
    ground (
      arith,
      log_write_entry-quiet (u16 lease.offset) lease.index c.log quiet,
      (lease_release-SameFiles lease (record c { db = db })).log,
    )

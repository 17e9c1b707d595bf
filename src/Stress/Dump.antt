-- ===== src/Stress/Dump.antt =====
-- `main` of stress/dump.c, with the records in place of what is printed.
use logdb.Prelude.{
  ℕ, suc, ◌+◌, ◌≤◌, ◌<◌, ◌≡◌, refl, ◌∙◌, ℤ, pos, Bool, false, not, Option, none, some, List, [],
  arith, length, ◌==◌, if◌then◌else◌,
}
use logdb.Connection.{Conn}
use logdb.Heap.{Heap, Result, Command, answered, pure, ◌>>=◌}
use logdb.Disk.{Disk}
use logdb.Database.{connected, not_opened, lost, logdb_open, logdb_close}
use logdb.Iter.{Iter, iter_all, iter_free, new_iter}
use logdb.Iter.Dump.{dump_loop}
use logdb.Iter.Loop.{Dumps}
use logdb.Iter.Visit.{Owns, dispose_old-Disposed}
use logdb.Iter.Records.{Rec}
use logdb.Iter.Sections.{HasRecords, records_from}
use logdb.Buffer.Holds.{not_null}
use logdb.Stress.Creation.{malloc-fresh}
use logdb.Iter.Whole.{dump_all}

-- How `main` ends: the records that are shown, the result (none after an access outside of a
-- block), and the disk.
pub record DumpExit : Type 0 where
  pub shown : List Rec
  pub code : Option ℤ
  pub disk : Disk

abbrev pub dump_exit : ℕ → List Rec → Disk → DumpExit
dump_exit code rs disk = record { shown = rs; code = some (pos code); disk = disk }

-- From the opened database on. The results 9 and 10 of the loop leave it open.
unfoldable pub dump_on : Bool → ℕ → ℕ → Conn → Disk → Command DumpExit
dump_on debug rounds fuel conn disk = do
  created ← iter_all
  elim created [
    | none ↦ pure (dump_exit 8 [] disk)
    | some iter ↦ do
      ((rs, code), iter1, conn1) ← dump_loop rounds debug fuel iter conn
      if code == 0
          then (do
            conn2 ← iter_free fuel iter1 conn1
            let (closed, disk') = logdb_close conn2 disk
            pure (record { shown = rs; code = closed; disk = disk' }))
          else pure (dump_exit code rs disk)
  ]

unfoldable pub dump_main : Bool → ℕ → ℕ → ℕ → Disk → Command DumpExit
dump_main debug rounds fuel arguments disk =
    if not (arguments == 2)
    then pure (dump_exit 1 [] disk)
    else (let (out, disk1) = logdb_open (record { create = false; nosync = false }) disk in
        elim out [
          | not_opened ↦ pure (dump_exit 2 [] disk1)
          | lost ↦ pure (record { shown = []; code = none; disk = disk1 })
          | connected conn ↦ dump_on debug rounds fuel conn disk1
        ])

-- The program shows these records, and ends with the close of a connection to the same files.
pub record Shows (rs : List Rec) (conn : Conn) (disk : Disk) (res : Result DumpExit) : Type 0 where
  pub last : Conn
  pub after : Heap
  pub returns :
      res
      ≡ answered
          (record {
            shown = rs;
            code = (logdb_close last disk).0;
            disk = (logdb_close last disk).1;
          })
          after
  pub kept : (last.db ≡ conn.db) × (last.log.file ≡ conn.log.file)

freed_iter :
    (fuel : ℕ) (iter : Iter) (conn : Conn) (h : Heap)
    → Owns h iter
    → iter.leasing ≡ false
    → (after : Heap) × (iter_free (suc fuel) iter conn h ≡ answered conn after)
unfolding iter_free
freed_iter fuel iter conn h owns idle =
    let d = dispose_old-Disposed fuel iter h owns in (d.after, rw (d.returns, idle) refl)

new_one :
    (h : Heap)
    → h.mallocs ≡ []
    → 0 < h.fresh
    → iter_all h ≡ answered (some new_iter) (record h { fresh = h.fresh + 1 })
unfolding iter_all
new_one h memory some_address =
    rw (malloc-fresh h memory, not_null h.fresh (λ e. omega (arith, e, some_address))) refl

begins_dump :
    (debug : Bool) (rounds fuel : ℕ) (conn : Conn) (disk disk1 : Disk) (h : Heap)
    → logdb_open (record { create = false; nosync = false }) disk ≡ (connected conn, disk1)
    → dump_main debug rounds fuel 2 disk h ≡ dump_on debug rounds fuel conn disk1 h
unfolding dump_main
begins_dump debug rounds fuel conn disk disk1 h opens = ground (arith, opens)

module _ (debug : Bool) (fuel n rounds : ℕ) (rs : ℕ → List Rec) (conn : Conn) (disk disk1 : Disk)
    (h : Heap)
    (opens : logdb_open (record { create = false; nosync = false }) disk ≡ (connected conn, disk1))
    (has : HasRecords n rs conn) (enough : n ≤ fuel) (memory : h.mallocs ≡ [])
    (some_address : 0 < h.fresh) (more : length (records_from rs 0 n) < rounds) where
  h1 : Heap
  h1 = record h { fresh = h.fresh + 1 }

  d : Dumps conn debug (suc fuel) conn new_iter h1 (records_from rs 0 n)
  unfolding h1
  d =
      dump_all debug fuel n rs conn has enough (record h { fresh = h.fresh + 1 }) memory
        (omega arith)

  -- When the database can be opened and its sections hold whole records, no call fails and there is
  -- memory, `main` of stress/dump.c ends, shows these records in their order, and returns what the
  -- close of a connection to the same files returns.
  pub dump_main-Shows :
      Shows (records_from rs 0 n) conn disk1 (dump_main debug rounds (suc fuel) 2 disk h)
  unfolding dump_on h1
  dump_main-Shows =
      let (after, freed) = freed_iter fuel d.last_iter d.last_conn d.last_heap d.owns d.idle in
      record {
        last = d.last_conn;
        after = after;
        returns =
            begins_dump debug rounds (suc fuel) conn disk disk1 h opens
            ∙ rw (new_one h memory some_address, d.returns rounds more, freed) refl;
        kept = d.kept;
      }

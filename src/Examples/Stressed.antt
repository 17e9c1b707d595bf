-- ===== src/Examples/Stressed.antt =====
-- Two threads that put records into a database, and the programs of stress/ and system_checks/.
use logdb.Prelude.{
  ℕ, zero, suc, ◌+◌, ◌≡◌, ◌<◌, ◌≤◌, refl, true, false, none, some, List, [], ◌∷◌, arith,
}
use logdb.File.{empty_file, read_at, write_at}
use logdb.Log.Layout.{log_offset, connection_offset, decode16}
use logdb.Log.Header.{is_log_header}
use logdb.Log.Entry.{entry_at}
use logdb.Heap.{Block, Heap}
use logdb.Sections.{stored}
use logdb.Sections.Growth.{stored-none}
use logdb.Disk.{is_db_header}
use logdb.Database.Fresh.{empty_disk}
use logdb.Iter.Records.{encode_records}
use logdb.Txn.{txn_write, put}
use logdb.Txn.Calm.{IsCalm}
use logdb.Txn.Calm.Write.{Writes, txn_write-Extends}
use logdb.Txn.Put.Refines.{Represents, Stored, put-Stored}
use logdb.Stress.{run, Shared}
use logdb.Stress.Runs.{Ran, run-Ran, times}
use logdb.Stress.Ends.{all_starting}
use logdb.Stress.Whole.{Stressed, run-Stressed}
use logdb.Stress.Main.{Plan, stress_main}
use logdb.Stress.Program.{Dumped, stress_main-Dumped}
use logdb.SystemCheck.{Platform, check_main, check_main_tells}
use logdb.Examples.{heap, heap-Holds, one_not_null}
use logdb.Examples.Iters.{records}
use logdb.Examples.Puts.{two_buffers, given, careful}
use logdb.Examples.Reopened.{data_file, entries_file, writer, holds_records, full_records}

-- The database of two records, with its connection.
writer-IsCalm : IsCalm 1 writer
unfolding log_offset connection_offset entry_at read_at decode16 is_log_header is_db_header
writer-IsCalm = record {
  log = record { size = refl; few = omega arith; quiet = refl };
  shorts = record { short = short };
  inside = inside;
  db = refl;
  header = refl;
  valid = refl;
  readers = omega arith;
  memory = refl;
  free = tt;
}
  where
    short : (index len : ℕ) → entry_at entries_file index ≡ some len → len < 65536
    short zero len e = ground arith
    short (suc index) len e = ground arith

    inside :
        (index len : ℕ)
        → entry_at entries_file index ≡ some len
        → connection_offset index + len ≤ data_file.size
    inside zero len e = ground arith
    inside (suc index) len e = ground arith

eight : entries_file.size ≡ log_offset 1
unfolding log_offset
eight = refl

holds_all : (j : ℕ) → stored data_file entries_file j ≡ encode_records (records j)
holds_all zero = holds_records 0 (omega arith)
holds_all (suc j) = stored-none data_file entries_file 1 (suc j) eight (omega arith)

writer-Represents : Represents 1 records writer
writer-Represents = record { calm = writer-IsCalm; encoded = holds_all; full = full_records }

txn_write-Extends_example :
    Writes 1 (4 ∷ 5 ∷ []) writer heap (txn_write (record careful { fuel = 2 }) 1 2 writer heap)
txn_write-Extends_example =
    txn_write-Extends (record careful { fuel = 2 }) 0 1 writer refl refl heap-Holds one_not_null
      (omega arith) (omega arith) writer-IsCalm (omega arith)

put-Stored_example :
    Stored 1 records
      (4 ∷ 5 ∷ [], 6 ∷ [])
      two_buffers
      writer
      (put careful 1 2 (record { conn = writer; txns = [] }) two_buffers)
put-Stored_example =
    put-Stored careful 0 0 1 records 1 2 two_buffers writer given refl refl refl (omega arith)
      (omega arith) (omega arith) writer-Represents (omega arith)

-- Two threads with a round each, one after the other in each turn.
abbrev two_keys : List Block
two_keys =
    record { address = 1; bytes = 107 ∷ 0 ∷ [] } ∷ record { address = 2; bytes = 108 ∷ 0 ∷ [] } ∷ []

abbrev order : List ℕ
order = 0 ∷ 1 ∷ 1 ∷ 0 ∷ 0 ∷ 1 ∷ []

abbrev no_buffers : Heap
no_buffers = record { cell = λ _. none; fresh = 3; mallocs = []; disposed = [] }

abbrev shared : Shared
shared = record { conn = writer; printed = [] }

enough_turns : (j : ℕ) → j < 2 → 3 ≤ times j order
enough_turns zero below = omega arith
enough_turns (suc zero) below = omega arith
enough_turns (suc (suc j)) below = absurd (omega (arith, below))

run-Ran_example :
    Ran 1 1 records order
      (all_starting two_keys)
      shared
      (run careful 1 order (all_starting two_keys) shared no_buffers)
run-Ran_example =
    run-Ran careful 0 0 1 refl refl refl order 1 records (all_starting two_keys) shared no_buffers
      writer-Represents (omega arith) refl (omega arith)
      (((omega arith, omega arith), tt, ((omega arith, omega arith), tt, tt)))

run-Stressed_example :
    Stressed false 65536 5 1 1 records two_keys
      (run careful 1 order (all_starting two_keys) shared no_buffers)
run-Stressed_example =
    run-Stressed careful 0 0 65536 5 1 1 false records two_keys order writer no_buffers refl refl
      refl writer-Represents (omega arith) refl (omega arith)
      ((omega arith, omega arith), ((omega arith, omega arith), tt)) enough_turns (omega arith)
      (omega arith)

abbrev plan : Plan
plan = record {
  arguments = 5;
  threads = 2;
  count = 1;
  name = λ k. 107 ∷ (48 + k) ∷ 0 ∷ [];
  creates = λ _. true;
  joins = true;
  turns = order;
}

stress_main-Dumped_example :
    Dumped plan 8 65536 3 false no_buffers heap (stress_main careful plan (empty_disk 8) no_buffers)
stress_main-Dumped_example =
    stress_main-Dumped careful 0 0 65536 3 8 false plan no_buffers heap refl refl refl (omega arith)
      refl (omega arith) (λ k. (omega arith, omega arith)) enough_turns (omega arith) refl
      (omega arith) (omega arith) (λ _. refl) refl (omega arith) refl (omega arith) (omega arith)

-- A platform with the defect that the program looks for.
abbrev appending : Platform
appending = record {
  open_new = some empty_file;
  write = λ xs f. some (write_at f.size xs f);
  pwrite = λ xs off f. some (write_at f.size xs f);
  fsync = λ f. f;
  pread = λ n off f. some (read_at off n f);
}

check_main_tells_example : check_main appending ≡ (3, false)
check_main_tells_example =
    check_main_tells true appending refl (λ xs f. refl) (λ f. refl) (λ n off f. refl)
      (λ xs off f. refl)

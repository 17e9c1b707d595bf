-- ===== src/Examples/Reopened.antt =====
-- A database of two records that is closed, opened and listed.
use logdb.Prelude.{ℕ, zero, suc, ◌<◌, ◌≡◌, refl, pos, true, false, some, [], ◌++◌, arith, get_or}
use logdb.File.{File, read_at}
use logdb.Log.Layout.{log_offset, connection_offset, decode16, encode16}
use logdb.Log.Entry.{entry_at}
use logdb.Log.Header.{is_log_header, log_header}
use logdb.Connection.{Conn}
use logdb.Sections.{stored}
use logdb.Disk.{Disk, is_db_header, db_header}
use logdb.Database.Reopen.{IsClosable}
use logdb.Database.Records.{Relists, dump_loop-Relists}
use logdb.Iter.Records.{encode_records, AreFull}
use logdb.Examples.{conn, open_file, heap}
use logdb.Examples.Iters.{two_records, records}

abbrev pub data_file : File
data_file = record { size = 27; at = λ i. get_or (db_header ++ encode_records two_records) i 0 }

abbrev pub entries_file : File
entries_file = record { size = 8; at = λ i. get_or (log_header ++ encode16 21) i 0 }

abbrev pub writer : Conn
writer = record conn { db = open_file data_file; log = open_file entries_file }

abbrev disk : Disk
disk = record {
  db = some data_file;
  script = [];
  junk = pos 0;
  calls = [];
  dir = record {
    log = some entries_file;
    calls = [];
    script = [];
    junk = pos 0;
    memory = λ _. true;
  };
  max_readers = 1;
  memory = true;
}

writer-IsClosable : IsClosable 1 writer disk
unfolding log_offset entry_at read_at decode16 is_log_header is_db_header
writer-IsClosable = record {
  files = record {
    log = record { size = refl; few = omega arith; quiet = refl };
    few = omega arith;
    valid = refl;
    shorts = record { short = short };
    db = refl;
    calls = refl;
    path = entries_file;
    there = refl;
    memory = λ k. refl;
  };
  log_script = refl;
  script = refl;
  calls = refl;
  header = refl;
}
  where
    short : (index len : ℕ) → entry_at entries_file index ≡ some len → len < 65536
    short zero len e = ground arith
    short (suc index) len e = ground arith

pub holds_records : (j : ℕ) → j < 1 → stored data_file entries_file j ≡ encode_records (records j)
unfolding log_offset connection_offset entry_at read_at decode16 stored
holds_records zero below = refl
holds_records (suc j) below = absurd (omega (arith, below))

pub full_records : (j : ℕ) → AreFull (records j)
full_records zero = (omega arith, omega arith, (omega arith, omega arith, tt))
full_records (suc j) = tt

dump_loop-Relists_example : Relists two_records 3 1 true false writer disk heap
dump_loop-Relists_example =
    dump_loop-Relists 1 false writer disk writer-IsClosable records holds_records full_records
      (omega arith) true 1 3 heap (omega arith) refl (omega arith) (omega arith)

-- ===== src/Examples/Logs.antt =====
-- The theorems on the reading, creation and merge of logs, and on the loops that these use.
use logdb.Prelude.{
  ℕ, zero, suc, ◌<◌, ◌≡◌, refl, pos, true, false, some, none, [], ◌∷◌, ◌++◌, ◌==◌, arith, get_or,
  if◌then◌else◌,
}
use logdb.File.{File, read_at}
use logdb.Io.{Fd, part, error, io_pread, io_pwrite}
use logdb.Io.Streams.{io_write, io_read}
use logdb.Io.Streams.Equal.{written_at, got_at, io_write-io_pwrite, io_read-io_pread}
use logdb.Log.Layout.{log_offset, decode16, decode32, encode16}
use logdb.Log.Entry.{entry_at}
use logdb.Log.Header.{is_log_header, log_header}
use logdb.Log.Create.{Dir, strayed, log_create}
use logdb.Log.Create.Faults.{HasNoLog, log_create-strays}
use logdb.Log.Merge.{Files, log_close_merge}
use logdb.Log.Merge.Quiet.{IsQuiet}
use logdb.Log.RoundTrip.{Reopened, log_close_merge-Reopened}
use logdb.Examples.{conn, db_file, open_file}
use logdb.Connection.{Conn}
use logdb.Disk.{Disk, is_db_header, db_header}
use logdb.Database.{logdb_close}
use logdb.Database.Reopen.{IsClosable, ReopenedAs, logdb_close-ReopenedAs}

-- A log with a header and one entry, of 3 bytes.
abbrev valid_log : File
valid_log = record { size = 8; at = λ i. get_or (log_header ++ encode16 3) i 0 }

abbrev closing : Files
closing = record {
  db = open_file db_file;
  log = open_file valid_log;
  dir = record { log = some valid_log; calls = []; script = []; junk = pos 0; memory = λ _. true };
}

closing-IsQuiet : IsQuiet 1 closing
unfolding log_offset entry_at read_at decode16 is_log_header
closing-IsQuiet = record {
  log = record { size = refl; few = omega arith; quiet = refl };
  few = omega arith;
  valid = refl;
  shorts = record { short = short };
  db = refl;
  calls = refl;
  path = valid_log;
  there = refl;
  memory = λ k. refl;
}
  where
    short : (index len : ℕ) → entry_at valid_log index ≡ some len → len < 65536
    short zero len e = ground arith
    short (suc index) len e = ground arith

log_close_merge-Reopened_example : Reopened 1 closing (log_close_merge closing)
log_close_merge-Reopened_example = log_close_merge-Reopened 1 closing closing-IsQuiet refl

-- The last bytes of a section, taken for a trailer that tells 11 bytes.
abbrev no_log : Fd
no_log = open_file (record { size = 16; at = λ i. if i == 12 then 11 else 0 })

no_log-HasNoLog : HasNoLog no_log
unfolding read_at decode32 is_log_header
no_log-HasNoLog = record {
  start = 5;
  back = 11;
  size = refl;
  far = omega arith;
  near = omega arith;
  long = omega arith;
  trailer = refl;
  invalid = refl;
  quiet = refl;
}

abbrev no_log_beside : Dir
no_log_beside = record { log = none; calls = []; script = []; junk = pos 0; memory = λ _. true }

log_create-strays_example : (log_create no_log no_log_beside).0 ≡ strayed
log_create-strays_example =
    log_create-strays no_log no_log_beside no_log-HasNoLog
      (record { log = refl; calls = refl; script = refl; memory = λ k. refl })

-- A call that moves one byte, and one that fails.
abbrev slow : Fd
slow = record (open_file db_file) { pos = 7; script = part 1 ∷ error ∷ [] }

io_write-io_pwrite_example :
    io_write (1 ∷ 2 ∷ []) slow ≡ written_at 7 (1 ∷ 2 ∷ []) (io_pwrite (1 ∷ 2 ∷ []) 7 slow)
io_write-io_pwrite_example = io_write-io_pwrite (1 ∷ 2 ∷ []) slow

io_read-io_pread_example : io_read 2 slow ≡ got_at 7 (io_pread 2 7 slow)
io_read-io_pread_example = io_read-io_pread 2 slow

-- A connection of the last process on a database with 3 bytes in its section.
abbrev last_conn : Conn
last_conn = record conn {
  db = open_file (record { size = 9; at = λ i. get_or (db_header ++ 7 ∷ 7 ∷ 7 ∷ []) i 0 });
  log = open_file valid_log;
}

abbrev last_disk : Disk
last_disk = record {
  db = some db_file;
  script = [];
  junk = pos 0;
  calls = [];
  dir = closing.dir;
  max_readers = 8;
  memory = true;
}

last-IsClosable : IsClosable 1 last_conn last_disk
unfolding is_db_header read_at decode16
last-IsClosable = record {
  files = record {
    log = closing-IsQuiet.log;
    few = closing-IsQuiet.few;
    valid = closing-IsQuiet.valid;
    shorts = closing-IsQuiet.shorts;
    db = refl;
    calls = refl;
    path = valid_log;
    there = refl;
    memory = closing-IsQuiet.memory;
  };
  log_script = refl;
  script = refl;
  calls = refl;
  header = refl;
}

logdb_close-ReopenedAs_example :
    ReopenedAs 1 false last_conn last_disk (logdb_close last_conn last_disk)
logdb_close-ReopenedAs_example = logdb_close-ReopenedAs 1 false last_conn last_disk last-IsClosable

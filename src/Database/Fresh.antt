-- ===== src/Database/Fresh.antt =====
-- `logdb_open` with `LOGDB_OPEN_CREATE` where there is no file yet.
use logdb.Prelude.{ℕ, ◌<◌, ◌≡◌, refl, pos, true, false, none, some, List, [], arith}
use logdb.File.{empty_file, read_at, write_at}
use logdb.Io.{Fd, io_pwrite}
use logdb.Io.Streams.{io_write}
use logdb.Log.Layout.{log_offset, decode16}
use logdb.Log.Header.{is_log_header, log_header}
use logdb.Log.Entry.{entry_at}
use logdb.Log.Create.{log_create, write_found, write_log, log_new}
use logdb.Connection.{Conn}
use logdb.Sections.{stored}
use logdb.Disk.{Disk, db_header, check_header, is_db_header}
use logdb.Database.{
  connected, logdb_open, open_on, get_log, attempt, set_up_log, share_log, create_or_open, connect,
}
use logdb.Txn.Put.Refines.{Represents}

-- No files, and no call that fails.
abbrev pub empty_disk : ℕ → Disk
empty_disk max_readers = record {
  db = none;
  script = [];
  junk = pos 0;
  calls = [];
  dir = record { log = none; calls = []; script = []; junk = pos 0; memory = λ _. true };
  max_readers = max_readers;
  memory = true;
}

-- The two paths behind the call; the files themselves belong to the connection.
abbrev pub made_disk : ℕ → Disk
made_disk max_readers = record (empty_disk max_readers) {
  db = some empty_file;
  dir = record { log = some empty_file; calls = []; script = []; junk = pos 0; memory = λ _. true };
}

abbrev pub written_fd : ℕ → List ℕ → Fd
written_fd at bytes = record {
  file = write_at 0 bytes empty_file;
  synced = empty_file;
  pos = at;
  script = [];
  junk = pos 0;
}

abbrev pub made_conn : ℕ → Conn
made_conn max_readers = record {
  db = written_fd 6 db_header;
  log = written_fd 0 log_header;
  locks = [];
  readers = 0;
  max_readers = max_readers;
  memory = true;
  nosync = false;
  aborted = false;
}

pub logdb_open-fresh :
    (max_readers : ℕ)
    → logdb_open (record { create = true; nosync = false }) (empty_disk max_readers)
      ≡ (connected (made_conn max_readers), made_disk max_readers)
unfolding logdb_open open_on check_header io_write get_log attempt set_up_log create_or_open
    log_create write_at write_found write_log io_pwrite log_new share_log connect
logdb_open-fresh max_readers = refl

no_entries : (j : ℕ) → entry_at (write_at 0 log_header empty_file) j ≡ none
unfolding entry_at log_offset write_at
no_entries j = ground arith

not_there : (j len : ℕ) → ¬ (entry_at (write_at 0 log_header empty_file) j ≡ some len)
not_there j len e = ground (arith, e, no_entries j)

nothing_stored :
    (max_readers j : ℕ)
    → stored (made_conn max_readers).db.file (made_conn max_readers).log.file j ≡ []
unfolding stored
nothing_stored max_readers j = ground (arith, no_entries j)

-- It is calm, and has no records.
pub made_conn-Represents :
    (max_readers : ℕ) → 0 < max_readers → Represents 0 (λ _. []) (made_conn max_readers)
unfolding log_offset write_at read_at decode16 is_log_header is_db_header
made_conn-Represents max_readers some_readers = record {
  calm = record {
    log = record { size = refl; few = omega arith; quiet = refl };
    shorts = record { short = λ j len e. absurd (not_there j len e) };
    inside = λ j len e. absurd (not_there j len e);
    db = refl;
    header = refl;
    valid = refl;
    readers = some_readers;
    memory = refl;
    free = tt;
  };
  encoded = nothing_stored max_readers;
  full = λ j. tt;
}

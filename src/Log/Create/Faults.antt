-- ===== src/Log/Create/Faults.antt =====
-- `logdb_log_create` when the last bytes of the database file are no trailer.
use logdb.Prelude.{ℕ, ◌+◌, ◌-◌, ◌≤◌, ◌<◌, ◌≡◌, false, [], arith}
use logdb.File.{read_at}
use logdb.Io.{Fd}
use logdb.Io.Streams.Equal.{at}
use logdb.Io.Streams.Quiet.{io_read-quiet}
use logdb.Log.Layout.{decode32}
use logdb.Log.Header.{Memory, unreadable, is_log_header, read_has_trailer, log_read}
use logdb.Log.Create.{Dir, found, strayed, log_at, log_in_db, write_log, write_found, log_create}
use logdb.Log.Create.Quiet.{IsFree, seek_back-quiet}

-- The last 4 bytes tell an offset from the end of at least 11 bytes, where no log starts.
pub record HasNoLog (db : Fd) : Type 0 where
  pub start : ℕ
  pub back : ℕ
  pub size : db.file.size ≡ start + back
  pub far : 10 < back
  pub near : back < 4294967296
  pub long : 16 ≤ db.file.size
  pub trailer : decode32 (read_at (db.file.size - 4) 4 db.file) ≡ back
  pub invalid : is_log_header (read_at start 6 db.file) ≡ false
  pub quiet : db.script ≡ []

module _ (db : Fd) (is : HasNoLog db) (memory : Memory) where
  log_read-invalid :
      log_read memory read_has_trailer (at is.start db) ≡ (unreadable, at (is.start + 6) db)
  unfolding log_read
  log_read-invalid = ground (
    arith,
    is.invalid,
    io_read-quiet 6 (at is.start db) is.quiet (omega arith) (omega (arith, is.size, is.far)),
  )

  log_in_db-invalid :
      log_in_db memory (at db.file.size db) ≡ (found unreadable (is.back - 4), at (is.start + 6) db)
  unfolding log_in_db log_at
  log_in_db-invalid =
      let end = at db.file.size db in
      let before = db.file.size - 4 in
      ground (
        arith,
        is.trailer,
        is.far,
        is.near,
        log_read-invalid,
        seek_back-quiet 4 before end is.quiet (omega (arith, is.long)),
        io_read-quiet 4 (at before end) is.quiet (omega arith) (omega (arith, is.long)),
        seek_back-quiet is.back is.start (at (before + 4) end) is.quiet is.size,
      )

-- If no log file is at the path, and a database file of at least 16 bytes ends with 4 bytes that,
-- read as a trailer, tell an offset from the end of more than 10 bytes that lies in the file, but
-- no log header stands there, then `logdb_log_create`, with memory and no call failing, reads
-- behind the end of the block of the new header: the size that the trailer told is not reset.
pub log_create-strays :
    (db : Fd) (dir : Dir) → HasNoLog db → IsFree dir → (log_create db dir).0 ≡ strayed
unfolding log_create write_found write_log
log_create-strays db dir is free = ground (
  arith,
  is.quiet,
  is.long,
  is.far,
  free.log,
  free.calls,
  free.memory 6,
  log_in_db-invalid db is dir.memory,
)

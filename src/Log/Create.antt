-- ===== src/Log/Create.antt =====
-- `logdb_log_open`, `logdb_log_create` and `logdb_log_close` of src/logdb_log.c.
pub mod Faults
pub mod Quiet
use logdb.Prelude.{
  ℕ, zero, suc, ◌+◌, ◌-◌, ◌%◌, ℤ, pos, is_positive, Bool, true, false, not, ◌||◌, Option, none,
  some, List, [], ◌∷◌, ◌++◌, ltb, leb, ◌==◌, if◌then◌else◌, length, take, drop, is_some, ◌&&◌,
}
use logdb.File.{File, empty_file}
use logdb.Io.{Fd, Outcome, io_pwrite}
use logdb.Io.Streams.{io_read, seek_end, seek_back}
use logdb.Log.Layout.{log_header_size, header_size, trailer_size, decode32}
use logdb.Log.Header.{
  Memory, LogRead, unreadable, validated, wild, content, validate_only, read_has_trailer,
  log_header, log_read,
}

-- What the process meets at the path of the log: the file there, if there is one, the outcomes of
-- the coming calls of `open` and `unlink` (after the end of the list they work), what system calls
-- on the next descriptor of the log do, what the variable `bytes` of the loops then holds before
-- it is assigned, and which sizes `malloc` grants.
pub record Dir : Type 0 where
  pub log : Option File
  pub calls : List Bool
  pub script : List Outcome
  pub junk : ℤ
  pub memory : Memory

abbrev pub works : Dir → Bool
works dir = elim dir.calls [ [] ↦ true | b ∷ bs ↦ b ]

abbrev pub spend_call : Dir → Dir
spend_call dir = record dir { calls = elim dir.calls [ [] ↦ [] | b ∷ bs ↦ bs ] }

-- A descriptor that was just opened.
abbrev pub opened : File → Dir → Fd
opened f dir = record { file = f; synced = f; pos = 0; script = dir.script; junk = dir.junk }

-- `sizeof (logdb_log_t)`
abbrev pub log_struct_size : ℕ
log_struct_size = 24

-- `logdb_log_new`, of which the descriptor is what the model keeps. `none` is `NULL`.
unfoldable pub log_new : Memory → Fd → Option Fd
log_new memory fd = if memory log_struct_size then some fd else none

-- `close` leaves the content of the file at its path, if the path still has it.
abbrev pub leave : Fd → Dir → Dir
leave fd dir = elim dir.log [ none ↦ dir | some f ↦ record dir { log = some fd.file } ]

-- `unlink (path)`
abbrev pub sys_unlink : Dir → Bool × Dir
sys_unlink dir =
    if works dir && is_some dir.log
    then (true, record (spend_call dir) { log = none })
    else (false, spend_call dir)

-- `logdb_log_open`
unfoldable pub log_open : Dir → Option Fd × Dir
log_open dir =
    let dir' = spend_call dir in
    if not (works dir) then (none, dir') else elim dir.log [
      | none ↦ (none, dir')
      | some f ↦
          let (header, fd) = log_read dir.memory validate_only (opened f dir) in
          elim header [ validated ↦ (log_new dir.memory fd, dir') | _ ↦ (none, dir') ]
    ]

-- `LOGDB_MIN_SIZE`
abbrev pub min_size : ℕ
min_size = header_size + log_header_size + trailer_size

-- What `logdb_log_create` finds at the end of the database file: a failed call, or the result of
-- `logdb_log_read` with the size that the trailer tells.
pub data Found : Type 0 where
  not_found : Found
  found : LogRead → ℕ → Found

-- The log behind the data, at the offset from the end that the trailer holds.
unfoldable pub log_at : Memory → ℕ → Fd → Found × Fd
log_at memory log_offset_from_end db =
    let (sought, db1) = seek_back log_offset_from_end db in
    elim sought [
      | none ↦ (not_found, db1)
      | some _ ↦
          let (header, db2) = log_read memory read_has_trailer db1 in
          (
            found header (
                (log_offset_from_end + (18446744073709551616 - trailer_size))
                % 18446744073709551616),
            db2,
          )
    ]

-- The trailer is the last 4 bytes, so the read of it does not meet the end of the file before.
unfoldable pub log_in_db : Memory → Fd → Found × Fd
log_in_db memory db =
    let (sought, db1) = seek_back trailer_size db in
    elim sought [
      | none ↦ (not_found, db1)
      | some _ ↦
          let (ret, trailer, db2) = io_read trailer_size db1 in
          if is_positive ret then (not_found, db2) else log_at memory (decode32 trailer) db2
    ]

-- How `logdb_log_create` ends: with a log, with `NULL`, or with a read or write outside of a block.
pub data Created : Type 0 where
  created : Fd → Created
  not_created strayed : Created

-- The label `logwritefail`.
abbrev pub write_failed : Dir → Created × Dir
write_failed dir = (not_created, (sys_unlink dir).1)

-- From the `open` of the new file on: the entries first, the header last.
unfoldable pub write_log : List ℕ → ℕ → Dir → Created × Dir
write_log header logsz dir =
    let dir1 = spend_call dir in
    if not (works dir) || is_some dir.log
    then (not_created, dir1)
    else (let logfd = opened empty_file dir in
        let dir2 = record dir1 { log = some empty_file } in
        let entries = drop log_header_size header in
        if ltb (length header) logsz
        then (strayed, dir2)
        else (let (left, logfd1) =
              if ltb log_header_size logsz
              then io_pwrite (take (logsz - log_header_size) entries) log_header_size logfd
              else (0, logfd) in
            if not (left == 0)
            then write_failed (leave logfd1 dir2)
            else (let (left', logfd2) = io_pwrite (take log_header_size header) 0 logfd1 in
                if not (left' == 0)
                then write_failed (leave logfd2 dir2)
                else elim (log_new dir.memory logfd2) [
                  | none ↦ (not_created, leave logfd2 dir2)
                  | some log ↦ (created log, dir2)
                ])))

-- The header that is written: the one that was found, or a new one. `logsz` is not reset with it.
unfoldable pub write_found : LogRead → ℕ → Dir → Created × Dir
write_found (content header) logsz dir = write_log header logsz dir
write_found wild logsz dir = (strayed, dir)
write_found _ logsz dir =
    if dir.memory log_header_size then write_log log_header logsz dir else (not_created, dir)

-- `logdb_log_create`
unfoldable pub log_create : Fd → Dir → Created × Fd × Dir
log_create db dir =
    let (end, db1) = seek_end db in
    elim end [
      | none ↦ (not_created, db1, dir)
      | some dbsz ↦
          if leb min_size dbsz
          then (let (there, db2) = log_in_db dir.memory db1 in
              elim there [
                | not_found ↦ (not_created, db2, dir)
                | found header logsz ↦
                    let (out, dir') = write_found header logsz dir in (out, db2, dir')
              ])
          else (let (out, dir') = write_found unreadable log_header_size dir in (out, db1, dir'))
    ]

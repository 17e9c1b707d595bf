-- ===== src/Database.antt =====
-- `logdb_open` and `logdb_close` of src/logdb_connection.c.
pub mod Fresh
pub mod Records
pub mod Reopen
use logdb.Prelude.{
  ℕ, ◌+◌, ℤ, pos, succeeded, failed, is_positive, is_failed, Bool, true, false, not, ◌&&◌, ◌||◌,
  Option, none, some, List, [], ◌∷◌, ◌++◌, ltb, ◌==◌, if◌then◌else◌, take, drop, is_some,
}
use logdb.File.{File, empty_file}
use logdb.Io.{Fd, Outcome}
use logdb.Io.Streams.{io_read, io_write}
use logdb.Log.Layout.{header_size, encode16, decode16}
use logdb.Log.Header.{logdb_version, same_bytes}
use logdb.Log.Create.{Dir, sys_unlink, leave, created, not_created, strayed, log_create, log_open}
use logdb.Log.Merge.{Files, closed, not_closed, log_close_merge}
use logdb.Connection.{Conn}
use logdb.Disk.{
  Flags, Disk, sys, db_magic, db_header, is_db_header, opened_db, open_db, check_header, close_db,
}

-- A log, or none, or an access outside of a block in `logdb_log_create`.
pub data LogSetup : Type 0 where
  have : Fd → LogSetup
  lack astray : LogSetup

-- `logdb_log_create`, and `logdb_log_open` if it fails.
unfoldable pub create_or_open : Fd → Dir → LogSetup × Fd × Dir
create_or_open db dir =
    let (out, db1, dir1) = log_create db dir in
    elim out [
      | created log ↦ (have log, db1, dir1)
      | strayed ↦ (astray, db1, dir1)
      | not_created ↦
          let (log, dir2) = log_open dir1 in
          (elim log [ none ↦ lack | some fd ↦ have fd ], db1, dir2)
    ]

-- The label `retry_create_locked`: the log is removed once, if `retry` is set.
unfoldable pub set_up_log : Bool → Fd → Dir → LogSetup × Fd × Dir
set_up_log retry db dir =
    let (log, db1, dir1) = create_or_open db dir in
    let (gone, dir2) = sys_unlink dir1 in
    elim log [
      | have fd ↦ (have fd, db1, dir1)
      | astray ↦ (astray, db1, dir1)
      | lack ↦
          if not retry
          then (lack, db1, dir1)
          else if gone
          then create_or_open db1 dir2
          else (lack, db1, dir2)
    ]

-- How an attempt to get the log ends: with the log, with a jump to `retry_create`, with `NULL`, or
-- with an access outside of a block.
pub data Attempt : Type 0 where
  ready : Fd → Attempt
  again refused wandered : Attempt

-- From the shared lock on. A log that is not closed stays at its path.
unfoldable pub share_log : Bool → Bool → LogSetup → Disk → Attempt × Disk
share_log retry nosync log disk =
    let (works, disk1) = sys disk in
    let shared = nosync || works in
    let disk2 : Disk = if nosync then disk else disk1 in
    elim log [
      | astray ↦ (wandered, disk)
      | have fd ↦
          if shared then (ready fd, disk2) else (refused, record disk2 { dir = leave fd disk2.dir })
      | lack ↦
          if not shared
          then (refused, disk2)
          else (let (opened_log, dir) = log_open disk2.dir in
              (
                elim opened_log [ some fd ↦ ready fd | none ↦ if retry then again else refused ],
                record disk2 { dir = dir },
              ))
    ]

-- From the label `retry_create` on.
unfoldable pub attempt : Bool → Bool → Fd → Disk → Attempt × Fd × Disk
attempt retry nosync db disk =
    let (exclusive, disk1) = sys disk in
    if exclusive
    then (let (log, db1, dir) = set_up_log retry db disk1.dir in
        let disk2 = record disk1 { dir = dir } in
        elim log [
          | lack ↦ (refused, db1, disk2)
          | astray ↦ (wandered, db1, disk2)
          | have fd ↦ let (out, disk3) = share_log retry nosync (have fd) disk2 in (out, db1, disk3)
        ])
    else if nosync
    then (refused, db, disk1)
    else (let (out, disk2) = share_log retry nosync lack disk1 in (out, db, disk2))

-- The log, with one jump at most.
unfoldable pub get_log : Bool → Fd → Disk → Attempt × Fd × Disk
get_log nosync db disk =
    let (out, db1, disk1) = attempt true nosync db disk in
    elim out [
      | again ↦ attempt false nosync db1 disk1
      | ready fd ↦ (ready fd, db1, disk1)
      | refused ↦ (refused, db1, disk1)
      | wandered ↦ (wandered, db1, disk1)
    ]

-- What `logdb_open` returns: a connection, `NULL`, or nothing.
pub data Opened : Type 0 where
  connected : Conn → Opened
  not_opened lost : Opened

-- The label `logclosefail`.
abbrev pub close_both : Fd → Fd → Disk → Opened × Disk
close_both log db disk = (not_opened, close_db db (record disk { dir = leave log disk.dir }))

-- The fields of a new connection.
abbrev pub new_conn : Bool → Fd → Fd → Disk → Conn
new_conn nosync log db disk = record {
  db = db;
  log = log;
  locks = [];
  readers = 0;
  max_readers = disk.max_readers;
  memory = disk.memory;
  nosync = nosync;
  aborted = false;
}

-- `calloc`, `pthread_rwlock_init` and `pthread_key_create`, and the new connection.
unfoldable pub connect : Bool → Fd → Fd → Disk → Opened × Disk
connect nosync log db disk =
    let (allocated, disk1) = sys disk in
    let (locked, disk2) = sys disk1 in
    let (keyed, disk3) = sys disk2 in
    if not allocated
    then close_both log db disk1
    else if not locked
    then close_both log db disk2
    else if not keyed
    then close_both log db disk3
    else (connected (new_conn nosync log db disk), disk3)

-- From the opened file on.
unfoldable pub open_on : Flags → Fd → Disk → Opened × Disk
open_on flags db disk =
    let (valid, db1) = check_header flags.create db in
    if not valid
    then (not_opened, close_db db1 disk)
    else (let (out, db2, disk2) = get_log flags.nosync db1 disk in
        elim out [
          | ready log ↦ connect flags.nosync log db2 disk2
          | wandered ↦ (lost, close_db db2 disk2)
          | _ ↦ (not_opened, close_db db2 disk2)
        ])

-- `logdb_open`
unfoldable pub logdb_open : Flags → Disk → Opened × Disk
logdb_open flags disk =
    let (allocated, disk1) = sys disk in
    if not allocated
    then (not_opened, disk1)
    else (let (file, disk2) = open_db flags.create disk1 in
        elim file [ none ↦ (not_opened, disk2) | some db ↦ open_on flags db disk2 ])

-- The end of the log at a close: merged by the last process, else closed. The result is the
-- database file, or none after an access outside of a block.
abbrev pub closed_log : Bool → Conn → Disk → Option Fd × Disk
closed_log exclusive conn disk =
    if exclusive
    then (let (out, fs) =
          log_close_merge (record { db = conn.db; log = conn.log; dir = disk.dir }) in
        elim out [
          | closed ↦ (some fs.db, record disk { dir = fs.dir })
          | not_closed ↦ (some fs.db, record disk { dir = leave fs.log fs.dir })
          | _ ↦ (none, record disk { dir = fs.dir })
        ])
    else (some conn.db, record disk { dir = leave conn.log disk.dir })

-- `logdb_close`, whose call of `logdb_txn_rollback_all` acts on the heap only (`txn_destruct`).
-- `none` is an access outside of a block.
unfoldable pub logdb_close : Conn → Disk → Option ℤ × Disk
logdb_close conn disk =
    let (locked, disk1) = sys disk in
    let (exclusive, disk2) = sys disk1 in
    if not locked
    then (some failed, disk1)
    else (let (db, disk3) = closed_log exclusive conn disk2 in
        elim db [ none ↦ (none, disk3) | some fd ↦ (some succeeded, close_db fd disk3) ])

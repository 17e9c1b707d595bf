-- ===== src/Log/Merge.antt =====
-- `logdb_log_close_merge` of src/logdb_log.c: the log goes to the end of the database file.
pub mod Quiet
pub mod Trim
use logdb.Prelude.{
  ℕ, zero, suc, ◌+◌, ◌-◌, ◌*◌, ◌%◌, ℤ, pos, is_failed, Bool, true, false, not, Option, none, some,
  List, [], ◌∷◌, ◌++◌, ltb, ◌==◌, if◌then◌else◌, length, take, drop,
}
use logdb.File.{File}
use logdb.Io.{Fd}
use logdb.Io.Streams.{io_write, seek_end, seek_set, sys_truncate}
use logdb.Log.Layout.{
  log_header_size, log_entry_size, trailer_size, section_size, connection_offset, index_from_offset,
  encode32, decode16,
}
use logdb.Log.Header.{
  Memory, LogRead, unreadable, validated, wild, content, read_no_trailer, log_read,
}
use logdb.Log.Create.{Dir, sys_unlink, leave}
use logdb.Connection.Locking.{sys_call}

-- `entries [index]`, of a block that starts with the header
abbrev pub entry_in : List ℕ → ℕ → ℕ
entry_in block index = decode16 (drop (log_header_size + index * log_entry_size) block)

-- `minsz -= LOGDB_SECTION_SIZE - entry.len`, with an `off_t` as its 64 bits.
abbrev pub shrink : ℕ → ℕ → ℕ
shrink len minsz = (minsz + (18446744073709551616 - (section_size - len))) % 18446744073709551616

-- The loop over the entries from the last one on: what is left of `minsz` and `logsz`.
unfoldable pub trim : ℕ → List ℕ → ℕ → ℕ → ℕ × ℕ
trim zero block minsz logsz = (minsz, logsz)
trim (suc index) block minsz logsz =
    let len = entry_in block index in
    elim (len == 0) [
      | true ↦ trim index block (shrink len minsz) (logsz - log_entry_size)
      | false ↦ (shrink len minsz, logsz)
    ]

-- How `logdb_log_close_merge` ends: the log is closed; -1; or a write outside of a block.
pub data Closed : Type 0 where
  closed not_closed strayed : Closed

-- The database file, the log, and what is at its path.
pub record Files : Type 0 where
  pub db : Fd
  pub log : Fd
  pub dir : Dir

-- The label `failunlock`
abbrev pub fail_unlock : Files → Closed × Files
fail_unlock fs = (not_closed, record fs { log = (sys_call fs.log).1 })

-- `unlink` and `logdb_log_close`
unfoldable pub finish : Files → Closed × Files
finish fs = let dir = (sys_unlink fs.dir).1 in (closed, record fs { dir = leave fs.log dir })

-- The two writes behind the data.
unfoldable pub append_log : List ℕ → ℕ → Files → Closed × Files
append_log block logsz fs =
    let (left, db1) = io_write (take logsz block) fs.db in
    if not (left == 0)
    then fail_unlock (record fs { db = db1 })
    else (let (left', db2) = io_write (encode32 (logsz + trailer_size)) db1 in
        if not (left' == 0)
        then fail_unlock (record fs { db = db2 })
        else finish (record fs { db = db2 }))

-- From the loop over the entries on.
unfoldable pub merge_block : List ℕ → ℕ → Files → Closed × Files
merge_block block logsz fs =
    let sections = index_from_offset logsz in
    let (minsz, logsz') = trim sections block (connection_offset sections) logsz in
    let (cut, db1) = sys_truncate minsz fs.db in
    let (end, db2) = seek_end db1 in
    elim cut [
      | none ↦ fail_unlock (record fs { db = db1 })
      | some _ ↦ elim end [
        | none ↦ fail_unlock (record fs { db = db2 })
        | some _ ↦ append_log block logsz' (record fs { db = db2 })
      ]
    ]

-- From `logdb_log_read` on, at the start of the log.
unfoldable pub merge_read : Files → Closed × Files
merge_read fs =
    let (header, log1) = log_read fs.dir.memory read_no_trailer fs.log in
    elim header [
      | content block ↦
          let (logsz, log2) = seek_end log1 in
          elim logsz [
            | none ↦ fail_unlock (record fs { log = log2 })
            | some n ↦ merge_block block n (record fs { log = log2 })
          ]
      | wild ↦ (strayed, record fs { log = log1 })
      | _ ↦ fail_unlock (record fs { log = log1 })
    ]

-- `logdb_log_close_merge`
unfoldable pub log_close_merge : Files → Closed × Files
log_close_merge fs =
    let (locked, log1) = sys_call fs.log in
    if is_failed locked
    then (not_closed, record fs { log = log1 })
    else (let (sought, log2) = seek_set 0 log1 in
        elim sought [
          | none ↦ fail_unlock (record fs { log = log2 })
          | some _ ↦ merge_read (record fs { log = log2 })
        ])

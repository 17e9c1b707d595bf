-- ===== src/Log/Entry.antt =====
-- The entries of the log file: `logdb_log_read_entry` and `logdb_log_write_entry` of
-- src/logdb_log.c.
pub mod Laws
use logdb.Prelude.{
  ℕ, zero, suc, ◌+◌, ◌-◌, ◌*◌, ◌/◌, ℤ, succeeded, failed, is_positive, is_failed, Bool, Option,
  none, some, List, [], ◌∷◌, ltb, leb, if◌then◌else◌,
}
use logdb.File.{File, read_at}
use logdb.Io.{Fd, io_pread, io_pwrite}
use logdb.Log.Layout.{log_header_size, log_entry_size, log_offset, encode16, decode16}

-- `none` is -1; else the entry that was read. The callers use the returned offset for this test
-- only.
unfoldable pub log_read_entry : ℕ → Fd → Option ℕ × Fd
log_read_entry index fd =
    let (result, got, fd') = io_pread log_entry_size (log_offset index) fd in
    (
      if is_positive result then none else if is_failed result then none else some (decode16 got),
      fd',
    )

unfoldable pub log_write_entry : ℕ → ℕ → Fd → ℤ × Fd
log_write_entry len index fd =
    let (left, fd') = io_pwrite (encode16 len) (log_offset index) fd in
    (if ltb 0 left then failed else succeeded, fd')

-- What the log says of a section: the number of its bytes that are valid.
unfoldable pub entry_at : File → ℕ → Option ℕ
entry_at f index =
    if leb (log_offset index + log_entry_size) f.size
    then some (decode16 (read_at (log_offset index) log_entry_size f))
    else none

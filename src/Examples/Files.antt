-- ===== src/Examples/Files.antt =====
-- The theorems on src/logdb_io.c, the layout, the entries and the sections, on small files.
use logdb.Prelude.{◌+◌, ◌≡◌, refl, some, [], ◌∷◌, ◌==◌, if◌then◌else◌, arith, ◌≤◌}
use logdb.File.{read_at, write_at}
use logdb.Io.{Fd, part, error, io_pwrite, io_pwrite_loop, io_pread}
use logdb.Io.Writes.{Written, io_pwrite-Written, io_pwrite_rounds}
use logdb.Log.Layout.{log_offset, connection_offset, sections_wrap, decode16, encode16}
use logdb.Log.Entry.{entry_at, log_read_entry, log_write_entry}
use logdb.Log.Entry.Laws.{
  EntryWritten, log_read_entry_sound, log_write_entry-file, entry_at-write_at,
}
use logdb.Sections.{stored}
use logdb.Sections.Laws.{stored-data}
use logdb.Examples.{log_file, db_file, open_file, log_file-entry, log_file-HasShorts}

-- Two bytes in the first call, then an error.
abbrev failing : Fd
failing = record (open_file db_file) { script = part 2 ∷ error ∷ [] }

io_pwrite-Written_example :
    let (left, fd') = io_pwrite (1 ∷ 2 ∷ 3 ∷ []) 9 failing in
    Written (1 ∷ 2 ∷ 3 ∷ []) 9 failing left fd'
io_pwrite-Written_example = io_pwrite-Written (1 ∷ 2 ∷ 3 ∷ []) 9 failing

io_pwrite_rounds_example :
    io_pwrite_loop 9 (1 ∷ 2 ∷ 3 ∷ []) 9 failing ≡ io_pwrite_loop 3 (1 ∷ 2 ∷ 3 ∷ []) 9 failing
io_pwrite_rounds_example =
    io_pwrite_rounds 9 3 (1 ∷ 2 ∷ 3 ∷ []) 9 failing (omega arith) (omega arith)

read_of_entry : (log_read_entry 0 (open_file log_file)).0 ≡ some 3
unfolding log_read_entry io_pread log_offset decode16 read_at
read_of_entry = refl

log_read_entry_sound_example : entry_at log_file 0 ≡ some 3
log_read_entry_sound_example = log_read_entry_sound 0 3 (open_file log_file) read_of_entry

log_write_entry-file_example : EntryWritten 5 0 log_file (log_write_entry 5 0 (open_file log_file))
log_write_entry-file_example = log_write_entry-file 5 0 (open_file log_file)

entry_there : log_offset 0 + 2 ≤ log_file.size
unfolding log_offset
entry_there = omega arith

entry_at-write_at_example :
    entry_at (write_at (log_offset 0) (encode16 5) log_file) 0
    ≡ (if 0 == 0 then some 5 else entry_at log_file 0)
entry_at-write_at_example = entry_at-write_at log_file 0 0 5 entry_there

sections_wrap_example : connection_offset (2 + 65536) ≡ connection_offset 2
sections_wrap_example = sections_wrap 2

stored-data_example :
    stored (write_at (connection_offset 0 + 3) (4 ∷ 5 ∷ []) db_file) log_file 0
    ≡ stored db_file log_file 0
stored-data_example =
    stored-data 0 3 (4 ∷ 5 ∷ []) db_file log_file log_file-HasShorts log_file-entry (omega arith)
      (omega arith) 0 (omega arith)

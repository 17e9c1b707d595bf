-- ===== src/Io/Streams/Quiet.antt =====
-- The loops at the position of a descriptor, when no call fails.
use logdb.Prelude.{ℕ, ◌+◌, ◌-◌, ◌≤◌, ◌<◌, ◌≡◌, ap, ◌∙◌, pos, List, [], arith, length}
use logdb.File.{write_at, read_at}
use logdb.File.Laws.{length-read_at}
use logdb.Io.{Fd}
use logdb.Io.Quiet.{io_pwrite-quiet, io_pread-quiet}
use logdb.Io.Streams.{io_write, io_read}
use logdb.Io.Streams.Equal.{at, written_at, got_at, io_write-io_pwrite, io_read-io_pread}

pub io_write-quiet :
    (bytes : List ℕ) (fd : Fd)
    → fd.script ≡ []
    → io_write bytes fd
      ≡ (0, record fd { file = write_at fd.pos bytes fd.file; pos = fd.pos + length bytes })
io_write-quiet bytes fd quiet =
    io_write-io_pwrite bytes fd
    ∙ ap (written_at fd.pos bytes) (io_pwrite-quiet bytes fd.pos fd quiet)
    ∙ ap (λ n. (0, record fd { file = write_at fd.pos bytes fd.file; pos = fd.pos + n }))
        (all (length bytes))
  where
    all : (n : ℕ) → n - 0 ≡ n
    all n = omega arith

pub io_read-quiet :
    (sz : ℕ) (fd : Fd)
    → fd.script ≡ []
    → 0 < sz
    → fd.pos + sz ≤ fd.file.size
    → io_read sz fd ≡ (pos 0, read_at fd.pos sz fd.file, record fd { pos = fd.pos + sz })
io_read-quiet sz fd quiet some_wanted in_file =
    io_read-io_pread sz fd
    ∙ ap (got_at fd.pos) (io_pread-quiet sz fd.pos fd quiet some_wanted in_file)
    ∙ ap (λ n. (pos 0, read_at fd.pos sz fd.file, at (fd.pos + n) fd))
        (length-read_at fd.pos sz fd.file)

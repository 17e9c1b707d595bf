-- ===== src/Io/Streams/Equal.antt =====
-- The loops at the position of a descriptor do what the loops with an offset do, and move it.
use logdb.Prelude.{
  ℕ, zero, suc, ◌+◌, ◌-◌, ◌≤◌, ◌≡◌, ap, ℤ, is_positive, to_size, List, [], arith, length, drop,
  length-append, length-drop, if◌then◌else◌, min,
}
use logdb.File.Laws.{length-read_at}
use logdb.Io.{
  Fd, sys_pwrite, sys_pread, io_pwrite_loop, io_pwrite, io_pread_loop, io_pread, fetched, outcome,
  read_code,
}
use logdb.Io.Streams.{sys_write, sys_read, io_write_loop, io_write, io_read_loop, io_read}

-- A descriptor at another position.
abbrev pub at : ℕ → Fd → Fd
at p fd = record fd { pos = p }

abbrev pub written_at : ℕ → List ℕ → ℕ × Fd → ℕ × Fd
written_at p bytes (left, fd) = (left, at (p + (length bytes - left)) fd)

abbrev pub got_at : ℕ → ℤ × List ℕ × Fd → ℤ × List ℕ × Fd
got_at p (ret, got, fd) = (ret, got, at (p + length got) fd)

-- How far a call moves the position.
abbrev step : ℤ → ℕ
step ret = if is_positive ret then to_size ret else 0

sys_write-at :
    (p : ℕ) (bytes : List ℕ) (fd : Fd)
    → sys_write bytes (at p fd)
      ≡ (let (ret, fd') = sys_pwrite bytes p fd in (ret, at (p + step ret) fd'))
unfolding sys_write sys_pwrite
sys_write-at p bytes fd = ground arith

sys_read-at :
    (p sz : ℕ) (fd : Fd)
    → sys_read sz (at p fd)
      ≡ (let (ret, got, fd') = sys_pread sz p fd in (ret, got, at (p + step ret) fd'))
unfolding sys_read sys_pread
sys_read-at p sz fd = ground arith

length_got : (p sz : ℕ) (fd : Fd) → length (sys_pread sz p fd).1 ≡ step (sys_pread sz p fd).0
unfolding sys_pread
length_got p sz fd =
    ground (arith, length-read_at p (fetched (outcome fd) (min sz (fd.file.size - p))) fd.file)

-- The outcome of one call of `write` is positive for a part of the bytes only.
step-le : (p : ℕ) (bytes : List ℕ) (fd : Fd) → step (sys_pwrite bytes p fd).0 ≤ length bytes
unfolding sys_pwrite
step-le p bytes fd = ground arith

io_pwrite_loop-le :
    (m p : ℕ) (bytes : List ℕ) (fd : Fd) → (io_pwrite_loop m bytes p fd).0 ≤ length bytes
unfolding io_pwrite_loop
io_pwrite_loop-le zero p bytes fd = omega arith
io_pwrite_loop-le (suc m) p bytes fd =
    let (ret, next) = sys_pwrite bytes p fd in
    ground (
      arith,
      io_pwrite_loop-le m (p + to_size ret) (drop (to_size ret) bytes) next,
      length-drop (to_size ret) bytes,
    )

-- The two positions after a round that goes on.
regroup :
    (p n total rest left : ℕ)
    → n ≤ total
    → rest ≡ total - n
    → left ≤ rest
    → p + n + (rest - left) ≡ p + (total - left)
regroup p n total rest left h e k = omega arith

io_write_loop-at :
    (m p : ℕ) (bytes : List ℕ) (fd : Fd)
    → io_write_loop m bytes (at p fd) ≡ written_at p bytes (io_pwrite_loop m bytes p fd)
unfolding io_write_loop io_pwrite_loop
io_write_loop-at zero p bytes fd = ap (λ q. (length bytes, at q fd)) (omega arith)
io_write_loop-at (suc m) p bytes fd =
    let (ret, next) = sys_pwrite bytes p fd in
    let n = to_size ret in
    let rest = io_pwrite_loop m (drop n bytes) (p + n) next in
    ground (
      arith,
      sys_write-at p bytes fd,
      io_write_loop-at m (p + n) (drop n bytes) next,
      step-le p bytes fd,
      length-drop n bytes,
      io_pwrite_loop-le m (p + n) (drop n bytes) next,
      regroup p n (length bytes) (length (drop n bytes)) rest.0,
    )

io_read_loop-at :
    (m : ℕ) (last : ℤ) (sz p : ℕ) (fd : Fd)
    → io_read_loop m last sz (at p fd) ≡ got_at p (io_pread_loop m last sz p fd)
unfolding io_read_loop io_pread_loop
io_read_loop-at zero last sz p fd = ap (λ q. (read_code last sz, [], at q fd)) (omega arith)
io_read_loop-at (suc m) last sz p fd =
    let (ret, got, next) = sys_pread sz p fd in
    let n = to_size ret in
    let more = io_pread_loop m ret (sz - n) (p + n) next in
    ground (
      arith,
      sys_read-at p sz fd,
      io_read_loop-at m ret (sz - n) (p + n) next,
      length_got p sz fd,
      length-append got more.1,
    )

-- Whatever the calls do, `logdb_io_write` does what `logdb_io_pwrite` does at the position of the
-- descriptor, and moves the position behind the bytes that were written.
pub io_write-io_pwrite :
    (bytes : List ℕ) (fd : Fd)
    → io_write bytes fd ≡ written_at fd.pos bytes (io_pwrite bytes fd.pos fd)
unfolding io_write io_pwrite
io_write-io_pwrite bytes fd = io_write_loop-at (length bytes) fd.pos bytes fd

-- Whatever the calls do, `logdb_io_read` does what `logdb_io_pread` does at the position of the
-- descriptor, and moves the position behind the bytes that were read.
pub io_read-io_pread : (sz : ℕ) (fd : Fd) → io_read sz fd ≡ got_at fd.pos (io_pread sz fd.pos fd)
unfolding io_read io_pread
io_read-io_pread sz fd = io_read_loop-at sz fd.junk sz fd.pos fd

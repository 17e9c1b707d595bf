-- ===== src/Io/Streams.antt =====
-- `logdb_io_read` and `logdb_io_write`, which move bytes at the position of the descriptor, and the
-- system calls that set the position or the size.
pub mod Equal
pub mod Quiet
use logdb.Prelude.{
  ℕ, zero, suc, ◌+◌, ◌-◌, min, ℤ, pos, is_positive, to_size, true, false, Option, none, some, List,
  [], ◌++◌, ltb, leb, if◌then◌else◌, length, take, drop,
}
use logdb.File.{write_at, read_at, truncate}
use logdb.Io.{Fd, error, outcome, spend, moved, fetched, code_of, read_code}

-- `write` on a file that was not opened with `O_APPEND`
pub sys_write : List ℕ → Fd → ℤ × Fd
sys_write bytes fd =
    let n = moved (outcome fd) (length bytes) in
    (
      code_of (outcome fd) n,
      record (spend fd) { file = write_at fd.pos (take n bytes) fd.file; pos = fd.pos + n },
    )

io_write_loop : ℕ → List ℕ → Fd → ℕ × Fd
io_write_loop zero bytes fd = (length bytes, fd)
io_write_loop (suc rounds) bytes fd = elim (ltb 0 (length bytes)) [
  | false ↦ (length bytes, fd)
  | true ↦
      let (ret, fd') = sys_write bytes fd in
      elim (is_positive ret) [
        | true ↦ io_write_loop rounds (drop (to_size ret) bytes) fd'
        | false ↦ (length bytes, fd')
      ]
]

-- `logdb_io_write`: the number of bytes left, and the descriptor afterwards.
unfoldable pub io_write : List ℕ → Fd → ℕ × Fd
unfolding io_write_loop sys_write
io_write bytes fd = io_write_loop (length bytes) bytes fd

pub sys_read : ℕ → Fd → ℤ × List ℕ × Fd
sys_read sz fd =
    let n = fetched (outcome fd) (min sz (fd.file.size - fd.pos)) in
    (code_of (outcome fd) n, read_at fd.pos n fd.file, record (spend fd) { pos = fd.pos + n })

io_read_loop : ℕ → ℤ → ℕ → Fd → ℤ × List ℕ × Fd
io_read_loop zero last sz fd = (read_code last sz, [], fd)
io_read_loop (suc rounds) last sz fd = elim (ltb 0 sz) [
  | false ↦ (read_code last sz, [], fd)
  | true ↦
      let (ret, got, fd') = sys_read sz fd in
      elim (is_positive ret) [
        | true ↦
            let (code, more, fd'') = io_read_loop rounds ret (sz - to_size ret) fd' in
            (code, got ++ more, fd'')
        | false ↦ (read_code ret sz, [], fd')
      ]
]

-- `logdb_io_read`: the result, what has been stored in the buffer, and the descriptor.
unfoldable pub io_read : ℕ → Fd → ℤ × List ℕ × Fd
unfolding io_read_loop sys_read
io_read sz fd = io_read_loop sz fd.junk sz fd

-- `lseek (fd, 0, SEEK_END)`, `lseek (fd, 0, SEEK_CUR)`, `lseek (fd, p, SEEK_SET)` and
-- `lseek (fd, -back, SEEK_END)`, which fails before the start of the file.
abbrev pub seek_end : Fd → Option ℕ × Fd
seek_end fd = elim (outcome fd) [
  | error ↦ (none, spend fd)
  | _ ↦ (some fd.file.size, record (spend fd) { pos = fd.file.size })
]

abbrev pub seek_current : Fd → Option ℕ × Fd
seek_current fd = elim (outcome fd) [ error ↦ (none, spend fd) | _ ↦ (some fd.pos, spend fd) ]

abbrev pub seek_set : ℕ → Fd → Option ℕ × Fd
seek_set p fd = elim (outcome fd) [
  | error ↦ (none, spend fd)
  | _ ↦ (some p, record (spend fd) { pos = p })
]

abbrev pub seek_back : ℕ → Fd → Option ℕ × Fd
seek_back back fd =
    if leb back fd.file.size then seek_set (fd.file.size - back) fd else (none, spend fd)

-- `ftruncate`, which refuses a size that is negative as an `off_t`.
abbrev pub sys_truncate : ℕ → Fd → Option ℕ × Fd
sys_truncate size fd = elim (outcome fd) [
  | error ↦ (none, spend fd)
  | _ ↦
      if ltb size 9223372036854775808
      then (some 0, record (spend fd) { file = truncate size fd.file })
      else (none, spend fd)
]

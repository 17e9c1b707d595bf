-- ===== src/Io.antt =====
-- src/logdb_io.c: the four loops that repeat a system call until all bytes are moved, those with an
-- offset here and those at the current position in Streams.
-- The system calls `read`, `write`, `pread` and `pwrite` act on a descriptor whose script gives the
-- outcome of each coming call: everything moved, a part of it, or an error. After the end of the
-- script every call moves everything. A loop is given as many rounds as there are bytes to move,
-- since a round that goes on has moved at least one.
pub mod Quiet
pub mod Reads
pub mod Streams
pub mod Writes
use logdb.Prelude.{
  ℕ, zero, suc, ◌+◌, ◌-◌, min, ℤ, pos, failed, is_positive, to_size, is_zero, Bool, true, false,
  List, [], ◌∷◌, ◌++◌, ltb, if◌then◌else◌, length, take, drop,
}
use logdb.File.{File, write_at, read_at}

pub data Outcome : Type 0 where
  full : Outcome
  part : ℕ → Outcome
  error : Outcome

pub record Fd : Type 0 where
  pub file : File
  -- what `fsync` has made durable
  pub synced : File
  pub pos : ℕ
  pub script : List Outcome
  -- what the loops' local variable `bytes` holds before a value is assigned to it
  pub junk : ℤ

abbrev pub outcome : Fd → Outcome
outcome fd = elim fd.script [ [] ↦ full | o ∷ os ↦ o ]

abbrev pub spend : Fd → Fd
spend fd = record fd { script = elim fd.script [ [] ↦ [] | o ∷ os ↦ os ] }

-- How many of `n` bytes a call moves, if it does not fail.
abbrev pub moved : Outcome → ℕ → ℕ
moved full n = n
moved (part k) n = min k n
moved error n = 0

abbrev pub code_of : Outcome → ℕ → ℤ
code_of full n = pos n
code_of (part k) n = pos n
code_of error n = failed

pub sys_pwrite : List ℕ → ℕ → Fd → ℤ × Fd
sys_pwrite bytes offs fd =
    let n = moved (outcome fd) (length bytes) in
    (code_of (outcome fd) n, record (spend fd) { file = write_at offs (take n bytes) fd.file })

pub io_pwrite_loop : ℕ → List ℕ → ℕ → Fd → ℕ × Fd
io_pwrite_loop zero bytes offs fd = (length bytes, fd)
io_pwrite_loop (suc rounds) bytes offs fd = elim (ltb 0 (length bytes)) [
  | false ↦ (length bytes, fd)
  | true ↦
      let (ret, fd') = sys_pwrite bytes offs fd in
      elim (is_positive ret) [
        | true ↦ io_pwrite_loop rounds (drop (to_size ret) bytes) (offs + to_size ret) fd'
        | false ↦ (length bytes, fd')
      ]
]

-- `logdb_io_pwrite`: the number of bytes left, and the descriptor afterwards.
unfoldable pub io_pwrite : List ℕ → ℕ → Fd → ℕ × Fd
unfolding io_pwrite_loop sys_pwrite
io_pwrite bytes offs fd = io_pwrite_loop (length bytes) bytes offs fd

-- A read that does not fail moves something, unless the end of the file is reached.
abbrev pub fetched : Outcome → ℕ → ℕ
fetched full n = n
fetched (part k) n = min (suc k) n
fetched error n = 0

pub sys_pread : ℕ → ℕ → Fd → ℤ × List ℕ × Fd
sys_pread sz offs fd =
    let n = fetched (outcome fd) (min sz (fd.file.size - offs)) in
    (code_of (outcome fd) n, read_at offs n fd.file, spend fd)

-- `(bytes == 0)? -1 : sz`
abbrev pub read_code : ℤ → ℕ → ℤ
read_code bytes sz = if is_zero bytes then failed else pos sz

-- `last` is what `bytes` holds.
pub io_pread_loop : ℕ → ℤ → ℕ → ℕ → Fd → ℤ × List ℕ × Fd
io_pread_loop zero last sz offs fd = (read_code last sz, [], fd)
io_pread_loop (suc rounds) last sz offs fd = elim (ltb 0 sz) [
  | false ↦ (read_code last sz, [], fd)
  | true ↦
      let (ret, got, fd') = sys_pread sz offs fd in
      elim (is_positive ret) [
        | true ↦
            let (code, more, fd'') =
              io_pread_loop rounds ret (sz - to_size ret) (offs + to_size ret) fd' in
            (code, got ++ more, fd'')
        | false ↦ (read_code ret sz, [], fd')
      ]
]

-- `logdb_io_pread`: the result, what has been stored in the buffer, and the descriptor.
unfoldable pub io_pread : ℕ → ℕ → Fd → ℤ × List ℕ × Fd
unfolding io_pread_loop sys_pread
io_pread sz offs fd = io_pread_loop sz fd.junk sz offs fd

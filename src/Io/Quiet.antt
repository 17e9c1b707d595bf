-- ===== src/Io/Quiet.antt =====
-- Writes, and reads of bytes that are in the file, when no call fails.
use logdb.Io.Writes.{io_pwrite_loop-go, io_pwrite_loop-empty}
use logdb.Io.Reads.{io_pread_loop-go, io_pread_loop-none, io_pread_loop-stop}
use logdb.Prelude.{
  ℕ, zero, suc, ◌+◌, ◌-◌, ◌≤◌, ◌<◌, min, ◌≡◌, ap, ◌∙◌, ℤ, pos, is_positive, failed, to_size, true,
  false, Bool-cases, inl, inr, List, [], ◌++◌, arith, lt→ltb, append-nil, length, drop, take-length,
  ◌∷◌, refl,
}
use logdb.File.{read_at, write_at}
use logdb.Io.{
  Fd, sys_pread, read_code, io_pread_loop, io_pread, sys_pwrite, io_pwrite, io_pwrite_loop,
}

-- On an empty script a call moves all that is wanted, if the file has it.
quiet_call :
    (sz offs : ℕ) (fd : Fd)
    → fd.script ≡ []
    → offs + sz ≤ fd.file.size
    → sys_pread sz offs fd ≡ (pos sz, read_at offs sz fd.file, fd)
unfolding sys_pread
quiet_call sz offs fd quiet in_file = rw (quiet, all)
  where
    all : min sz (fd.file.size - offs) ≡ sz
    all = omega arith

quiet_loop :
    (k : ℕ) (last : ℤ) (offs : ℕ) (fd : Fd)
    → fd.script ≡ []
    → offs + suc k ≤ fd.file.size
    → io_pread_loop (suc k) last (suc k) offs fd ≡ (pos 0, read_at offs (suc k) fd.file, fd)
quiet_loop k last offs fd quiet in_file =
    let e = quiet_call (suc k) offs fd quiet in_file in
    io_pread_loop-go (suc k) offs fd k last
      (ap (λ (r : ℤ × List ℕ × Fd). is_positive r.0) e ∙ lt→ltb 0 (suc k) (omega arith))
      (omega arith)
    ∙ ap rest e
    ∙ rw (none_left, io_pread_loop-none, append-nil)
  where
    rest : ℤ × List ℕ × Fd → ℤ × List ℕ × Fd
    rest r =
        let (code, more, fd') =
          io_pread_loop k r.0 (suc k - to_size r.0) (offs + to_size r.0) r.2 in
        (code, r.1 ++ more, fd')

    none_left : suc k - suc k ≡ 0
    none_left = omega arith

-- Without errors, and with the bytes in the file, a read of at least one byte stores all of them
-- and returns 0.
pub io_pread-quiet :
    (sz offs : ℕ) (fd : Fd)
    → fd.script ≡ []
    → 0 < sz
    → offs + sz ≤ fd.file.size
    → io_pread sz offs fd ≡ (pos 0, read_at offs sz fd.file, fd)
unfolding io_pread
io_pread-quiet zero offs fd quiet some_wanted in_file = absurd (omega arith)
io_pread-quiet (suc k) offs fd quiet some_wanted in_file =
    quiet_loop k fd.junk offs fd quiet in_file

-- A call on an empty script moves what the file has.
module _ (sz offs : ℕ) (fd : Fd) (quiet : fd.script ≡ []) where
  call_short :
      fd.file.size < offs + sz
      → is_positive (sys_pread sz offs fd).0 ≡ true
      → let n = to_size (sys_pread sz offs fd).0 in
        (n < sz) × (0 < n) × ((sys_pread sz offs fd).2.script ≡ [])
  unfolding sys_pread
  call_short ends go = ground (arith, quiet)

  call_end :
      0 < sz
      → is_positive (sys_pread sz offs fd).0 ≡ false
      → read_code (sys_pread sz offs fd).0 sz ≡ failed
  unfolding sys_pread
  call_end some_wanted stop = ground (arith, quiet)

loop-eof :
    (m : ℕ) (last : ℤ) (sz offs : ℕ) (fd : Fd)
    → fd.script ≡ []
    → sz ≤ m
    → 0 < sz
    → fd.file.size < offs + sz
    → (io_pread_loop m last sz offs fd).0 ≡ failed
loop-eof zero last sz offs fd quiet le some_wanted ends = absurd (omega arith)
loop-eof (suc m) last sz offs fd quiet le some_wanted ends =
    elim (Bool-cases (is_positive (sys_pread sz offs fd).0)) [
      | inl go ↦
          let (less, moved, still) = call_short sz offs fd quiet ends go in
          let n = to_size (sys_pread sz offs fd).0 in
          rw (io_pread_loop-go sz offs fd m last go some_wanted) (
            loop-eof m _ (sz - n) (offs + n) (sys_pread sz offs fd).2 still (omega (arith, moved))
              (omega (arith, less)) (unfold sys_pread in omega (arith, less)))
      | inr stop ↦
          rw (io_pread_loop-stop sz offs fd m last stop some_wanted)
            (call_end sz offs fd quiet some_wanted stop)
    ]

-- Without errors, a read of at least one byte beyond the end of the file returns -1.
pub io_pread-eof :
    (sz offs : ℕ) (fd : Fd)
    → fd.script ≡ []
    → 0 < sz
    → fd.file.size < offs + sz
    → (io_pread sz offs fd).0 ≡ failed
unfolding io_pread
io_pread-eof sz offs fd quiet some_wanted ends =
    loop-eof sz fd.junk sz offs fd quiet (omega arith) some_wanted ends

drop-length : (xs : List ℕ) → drop (length xs) xs ≡ []
drop-length [] = refl
drop-length (x ∷ xs) = drop-length xs

quiet_write :
    (bytes : List ℕ) (offs : ℕ) (fd : Fd)
    → fd.script ≡ []
    → sys_pwrite bytes offs fd
      ≡ (pos (length bytes), record fd { file = write_at offs bytes fd.file })
unfolding sys_pwrite
quiet_write bytes offs fd quiet = rw quiet (
    ap (λ l. (pos (length bytes), record fd { file = write_at offs l fd.file; script = [] }))
      (take-length bytes))

-- Without errors a write is complete.
pub io_pwrite-quiet :
    (bytes : List ℕ) (offs : ℕ) (fd : Fd)
    → fd.script ≡ []
    → io_pwrite bytes offs fd ≡ (0, record fd { file = write_at offs bytes fd.file })
unfolding io_pwrite
io_pwrite-quiet [] offs fd quiet = io_pwrite_loop-empty 0 offs fd ∙ (unfold write_at in refl)
io_pwrite-quiet (x ∷ xs) offs fd quiet =
    let e = quiet_write (x ∷ xs) offs fd quiet in
    io_pwrite_loop-go (length xs) (x ∷ xs) offs fd
      (ap (λ (r : ℤ × Fd). is_positive r.0) e ∙ lt→ltb 0 (suc (length xs)) (omega arith))
      (omega arith)
    ∙ ap rest e
    ∙ ap
        (λ l.
          io_pwrite_loop (length xs) l (offs + suc (length xs))
            (record fd { file = write_at offs (x ∷ xs) fd.file }))
        (drop-length xs)
    ∙ io_pwrite_loop-empty (length xs) _ _
  where
    rest : ℤ × Fd → ℕ × Fd
    rest r = io_pwrite_loop (length xs) (drop (to_size r.0) (x ∷ xs)) (offs + to_size r.0) r.1

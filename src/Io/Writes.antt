-- ===== src/Io/Writes.antt =====
-- What the writing loops leave in the file, whatever the system calls do.
use logdb.Prelude.{
  ℕ, zero, suc, ◌+◌, ◌-◌, ◌≤◌, ◌<◌, ◌≡◌, refl, sym, ap, ◌∙◌, inl, inr, is_positive, to_size, true,
  false, List, [], ◌∷◌, arith, Bool-cases, ltb, length, take, drop, length-take, length-drop,
  take-add,
}
use logdb.File.{File, write_at}
use logdb.File.Laws.{write_at-append}
use logdb.Io.{Fd, outcome, moved, sys_pwrite, io_pwrite_loop, io_pwrite}

-- All but the file and the script of a descriptor stays.
pub record Written (bytes : List ℕ) (offs : ℕ) (fd : Fd) (left : ℕ) (fd' : Fd) : Type 0 where
  pub within : left ≤ length bytes
  pub file : fd'.file ≡ write_at offs (take (length bytes - left) bytes) fd.file
  pub synced : fd'.synced ≡ fd.synced
  pub pos : fd'.pos ≡ fd.pos
  pub junk : fd'.junk ≡ fd.junk

-- One call: `n` bytes are written, and `n` is the result if it is positive.
record Call (bytes : List ℕ) (offs : ℕ) (fd : Fd) (n : ℕ) : Type 0 where
  fits : n ≤ length bytes
  file : (sys_pwrite bytes offs fd).1.file ≡ write_at offs (take n bytes) fd.file
  synced : (sys_pwrite bytes offs fd).1.synced ≡ fd.synced
  pos : (sys_pwrite bytes offs fd).1.pos ≡ fd.pos
  junk : (sys_pwrite bytes offs fd).1.junk ≡ fd.junk
  goes_on : is_positive (sys_pwrite bytes offs fd).0 ≡ ltb 0 n
  result :
      is_positive (sys_pwrite bytes offs fd).0 ≡ true → to_size (sys_pwrite bytes offs fd).0 ≡ n

call :
    (bytes : List ℕ) (offs : ℕ) (fd : Fd) → Call bytes offs fd (moved (outcome fd) (length bytes))
unfolding sys_pwrite
call bytes offs fd = record {
  fits = ground arith;
  file = refl;
  synced = refl;
  pos = refl;
  junk = refl;
  goes_on = ground arith;
  result = ground arith;
}

-- Any two numbers of rounds that are at least the number of the bytes give the same result: the
-- rounds that the model gives to the loop are enough, whatever the calls do.
pub io_pwrite_rounds :
    (m n : ℕ) (bytes : List ℕ) (offs : ℕ) (fd : Fd)
    → length bytes ≤ m
    → length bytes ≤ n
    → io_pwrite_loop m bytes offs fd ≡ io_pwrite_loop n bytes offs fd
unfolding io_pwrite_loop
io_pwrite_rounds zero zero bytes offs fd p q = refl
io_pwrite_rounds zero (suc n) bytes offs fd p q = ground arith
io_pwrite_rounds (suc m) zero bytes offs fd p q = ground arith
io_pwrite_rounds (suc m) (suc n) bytes offs fd p q =
    let c = call bytes offs fd in
    let r = (sys_pwrite bytes offs fd).0 in
    ground (
      arith,
      c.goes_on,
      c.result,
      length-drop (to_size r) bytes,
      io_pwrite_rounds m n (drop (to_size r) bytes) (offs + to_size r) (sys_pwrite bytes offs fd).1,
    )

write_at_none :
    (n offs : ℕ) (bytes : List ℕ) (f : File) → n ≡ 0 → write_at offs (take n bytes) f ≡ f
unfolding write_at
write_at_none n offs bytes f h = rw h

Written-stop :
    (bytes : List ℕ) (offs : ℕ) {fd fd' : Fd}
    → fd'.file ≡ fd.file
    → fd'.synced ≡ fd.synced
    → fd'.pos ≡ fd.pos
    → fd'.junk ≡ fd.junk
    → Written bytes offs fd (length bytes) fd'
unfolding write_at
Written-stop bytes offs same_file same_synced same_pos same_junk = record {
  within = omega arith;
  file = rw none_left (rw same_file);
  synced = same_synced;
  pos = same_pos;
  junk = same_junk;
}
  where
    none_left : length bytes - length bytes ≡ 0
    none_left = omega arith

-- A call that moved something, and the rest.
Written-step :
    (bytes : List ℕ) (offs left : ℕ) (fd : Fd) {fd' : Fd}
    → is_positive (sys_pwrite bytes offs fd).0 ≡ true
    → let (ret, next) = sys_pwrite bytes offs fd in
      let n = to_size ret in
      Written (drop n bytes) (offs + n) next left fd' → Written bytes offs fd left fd'
Written-step bytes offs left fd {fd'} go w = record {
  within = omega (arith, w.within, length-drop n bytes);
  file =
      w.file
      ∙ ap (write_at (offs + n) (take k (drop n bytes))) (rw (c.result go) c.file)
      ∙ ap (λ m. write_at (offs + m) (take k (drop n bytes)) (write_at offs (take n bytes) fd.file))
          counted
      ∙ write_at-append offs (take n bytes) (take k (drop n bytes)) fd.file
      ∙ ap (λ l. write_at offs l fd.file) (sym (take-add n k bytes) ∙ ap (λ m. take m bytes) sum);
  synced = w.synced ∙ c.synced;
  pos = w.pos ∙ c.pos;
  junk = w.junk ∙ c.junk;
}
  where
    c : Call bytes offs fd (moved (outcome fd) (length bytes))
    c = call bytes offs fd

    n : ℕ
    n = to_size (sys_pwrite bytes offs fd).0

    k : ℕ
    k = length (drop n bytes) - left

    fits : n ≤ length bytes
    fits = rw (c.result go) c.fits

    counted : n ≡ length (take n bytes)
    counted = omega (arith, length-take n bytes, fits)

    sum : n + k ≡ length bytes - left
    sum = omega (arith, fits, w.within, length-drop n bytes)

-- The loop's test, its exit and its next round.
module _ (m : ℕ) (bytes : List ℕ) (offs : ℕ) (fd : Fd) where
  pub io_pwrite_loop-go :
      is_positive (sys_pwrite bytes offs fd).0 ≡ true
      → 0 < length bytes
      → let (ret, next) = sys_pwrite bytes offs fd in
        let n = to_size ret in
        io_pwrite_loop (suc m) bytes offs fd ≡ io_pwrite_loop m (drop n bytes) (offs + n) next
  unfolding io_pwrite_loop
  io_pwrite_loop-go go some_left = ground arith

  io_pwrite_loop-stop :
      is_positive (sys_pwrite bytes offs fd).0 ≡ false
      → 0 < length bytes
      → io_pwrite_loop (suc m) bytes offs fd ≡ (length bytes, (sys_pwrite bytes offs fd).1)
  unfolding io_pwrite_loop
  io_pwrite_loop-stop stop some_left = ground arith

pub io_pwrite_loop-empty : (m : ℕ) (offs : ℕ) (fd : Fd) → io_pwrite_loop m [] offs fd ≡ (0, fd)
unfolding io_pwrite_loop
io_pwrite_loop-empty zero offs fd = refl
io_pwrite_loop-empty (suc m) offs fd = refl

abbrev Outcomes : List ℕ → ℕ → Fd → ℕ × Fd → Type 0
Outcomes bytes offs fd (left, fd') = Written bytes offs fd left fd'

io_pwrite_loop-Written :
    (m : ℕ) (bytes : List ℕ) (offs : ℕ) (fd : Fd)
    → length bytes ≤ m
    → Outcomes bytes offs fd (io_pwrite_loop m bytes offs fd)
io_pwrite_loop-Written m [] offs fd p =
    rw (io_pwrite_loop-empty m offs fd) (Written-stop [] offs refl refl refl refl)
io_pwrite_loop-Written zero (x ∷ xs) offs fd p = absurd (omega arith)
io_pwrite_loop-Written (suc m) (x ∷ xs) offs fd p =
    let c = call (x ∷ xs) offs fd in
    let n = to_size (sys_pwrite (x ∷ xs) offs fd).0 in
    elim (Bool-cases (is_positive (sys_pwrite (x ∷ xs) offs fd).0)) [
      | inl go ↦
          let positive : 0 < n = ground (arith, c.goes_on, c.result) in
          rw (io_pwrite_loop-go m (x ∷ xs) offs fd go (omega arith)) (
            Written-step (x ∷ xs) offs _ fd go (
              io_pwrite_loop-Written m (drop n (x ∷ xs)) (offs + n) _
                (omega (arith, length-drop n (x ∷ xs)))))
      | inr stop ↦
          rw (io_pwrite_loop-stop m (x ∷ xs) offs fd stop (omega arith))
            (Written-stop (x ∷ xs) offs (nothing stop) c.synced c.pos c.junk)
    ]
  where
    nothing :
        is_positive (sys_pwrite (x ∷ xs) offs fd).0 ≡ false
        → (sys_pwrite (x ∷ xs) offs fd).1.file ≡ fd.file
    nothing stop =
        let c = call (x ∷ xs) offs fd in
        c.file ∙ write_at_none _ offs _ fd.file (ground (arith, c.goes_on))

-- Whatever the calls do, `logdb_io_pwrite` has written a prefix of the bytes at the offset,
-- nothing else, and returns the number of bytes that are missing.
pub io_pwrite-Written :
    (bytes : List ℕ) (offs : ℕ) (fd : Fd)
    → let (left, fd') = io_pwrite bytes offs fd in Written bytes offs fd left fd'
unfolding io_pwrite
io_pwrite-Written bytes offs fd = io_pwrite_loop-Written (length bytes) bytes offs fd (omega arith)

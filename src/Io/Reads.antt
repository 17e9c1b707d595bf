-- ===== src/Io/Reads.antt =====
-- What the reading loops deliver, whatever the system calls do.
use logdb.Prelude.{
  ℕ, zero, suc, ◌+◌, ◌-◌, ◌≤◌, ◌<◌, ◌≡◌, refl, sym, ap, ◌∙◌, ◌⊎◌, inl, inr, ℤ, pos, failed,
  is_positive, is_failed, to_size, true, false, List, [], ◌++◌, arith, Bool-cases, length,
  length-append,
}
use mathlib.Core.Path.{ap₂}
use logdb.File.{File, read_at}
use logdb.File.Laws.{length-read_at, read_at-add}
use logdb.Io.{Fd, sys_pread, read_code, io_pread_loop, io_pread}

-- The two ways in which a read ends: by an error with some bytes missing (none missing is
-- success), or at the end of the file.
pub record Fetched (sz offs : ℕ) (fd : Fd) (ret : ℤ) (got : List ℕ) (fd' : Fd) : Type 0 where
  pub within : length got ≤ sz
  pub bytes : got ≡ read_at offs (length got) fd.file
  pub in_file : (length got ≡ 0) ⊎ (offs + length got ≤ fd.file.size)
  pub code :
      (ret ≡ pos (sz - length got))
      ⊎ ((ret ≡ failed) × (length got < sz) × (fd.file.size ≤ offs + length got))
  pub file : fd'.file ≡ fd.file
  pub synced : fd'.synced ≡ fd.synced
  pub pos : fd'.pos ≡ fd.pos
  pub junk : fd'.junk ≡ fd.junk

abbrev Reply : ℕ → ℕ → Fd → ℤ × List ℕ × Fd → Type 0
Reply sz offs fd (code, got, fd') = Fetched sz offs fd code got fd'

module _ (sz offs : ℕ) (fd : Fd) where
  abbrev answer : ℤ
  answer = (sys_pread sz offs fd).0

  abbrev chunk : List ℕ
  chunk = (sys_pread sz offs fd).1

  abbrev next : Fd
  next = (sys_pread sz offs fd).2

  -- One call that moved something.
  record Call : Type 0 where
    positive : 0 < to_size answer
    fits : to_size answer ≤ sz
    in_file : offs + to_size answer ≤ fd.file.size
    chunk : chunk ≡ read_at offs (to_size answer) fd.file

  call : is_positive answer ≡ true → Call
  unfolding sys_pread
  call go = record {
    positive = ground arith;
    fits = ground arith;
    in_file = ground arith;
    chunk = ground arith;
  }

  same_file :
      (next.file ≡ fd.file)
      × (next.synced ≡ fd.synced)
      × (next.pos ≡ fd.pos)
      × (next.junk ≡ fd.junk)
  unfolding sys_pread
  same_file = (refl, refl, refl, refl)

  -- One call that moved nothing: an error, or the end of the file.
  call_stop :
      is_positive answer ≡ false
      → 0 < sz
      → (read_code answer sz ≡ pos sz) ⊎ ((read_code answer sz ≡ failed) × (fd.file.size ≤ offs))
  unfolding sys_pread
  call_stop stop some_left = ground arith

  pub io_pread_loop-go :
      (m : ℕ) (last : ℤ)
      → is_positive answer ≡ true
      → 0 < sz
      → io_pread_loop (suc m) last sz offs fd ≡ (
          let (code, more, fd'') =
            io_pread_loop m answer (sz - to_size answer) (offs + to_size answer) next in
          (code, chunk ++ more, fd''))
  unfolding io_pread_loop
  io_pread_loop-go m last go some_left = ground arith

  pub io_pread_loop-stop :
      (m : ℕ) (last : ℤ)
      → is_positive answer ≡ false
      → 0 < sz
      → io_pread_loop (suc m) last sz offs fd ≡ (read_code answer sz, [], next)
  unfolding io_pread_loop
  io_pread_loop-stop m last stop some_left = ground arith

module _ (sz offs : ℕ) (fd : Fd) where
  Fetched-stop :
      0 < sz
      → is_positive (answer sz offs fd) ≡ false
      → Fetched sz offs fd (read_code (answer sz offs fd) sz) [] (next sz offs fd)
  unfolding read_at
  Fetched-stop some_left stop =
      let same = same_file sz offs fd in
      record {
        within = omega arith;
        bytes = refl;
        in_file = omega arith;
        code = ground (arith, call_stop sz offs fd stop some_left);
        file = same.0;
        synced = same.1;
        pos = same.2;
        junk = same.3;
      }

  Fetched-step :
      (code : ℤ) (more : List ℕ) {fd' : Fd}
      → is_positive (answer sz offs fd) ≡ true
      → let n = to_size (answer sz offs fd) in
        Fetched (sz - n) (offs + n) (next sz offs fd) code more fd'
        → Fetched sz offs fd code (chunk sz offs fd ++ more) fd'
  Fetched-step code more go f = record {
    within = omega (arith, total, f.within, c.fits);
    bytes =
        ap₂ ◌++◌ c.chunk (f.bytes ∙ ap (read_at (offs + n) (length more)) same.0)
        ∙ sym (read_at-add offs n (length more) fd.file)
        ∙ ap (λ m. read_at offs m fd.file) (sym total);
    in_file = ground (arith, total, f.in_file, sizes, c.in_file);
    code = ground (arith, total, sizes, c.fits, c.in_file, c.positive, f.code);
    file = f.file ∙ same.0;
    synced = f.synced ∙ same.1;
    pos = f.pos ∙ same.2;
    junk = f.junk ∙ same.3;
  }
    where
      same :
          ((next sz offs fd).file ≡ fd.file)
          × ((next sz offs fd).synced ≡ fd.synced)
          × ((next sz offs fd).pos ≡ fd.pos)
          × ((next sz offs fd).junk ≡ fd.junk)
      same = same_file sz offs fd

      c : Call sz offs fd
      c = call sz offs fd go

      n : ℕ
      n = to_size (answer sz offs fd)

      sizes : (next sz offs fd).file.size ≡ fd.file.size
      sizes = ap (λ (g : File). g.size) same.0

      total : length (chunk sz offs fd ++ more) ≡ n + length more
      total =
          length-append (chunk sz offs fd) more
          ∙ ap (λ m. m + length more) (ap length c.chunk ∙ length-read_at offs n fd.file)

pub io_pread_loop-none :
    (m : ℕ) (last : ℤ) (offs : ℕ) (fd : Fd)
    → io_pread_loop m last 0 offs fd ≡ (read_code last 0, [], fd)
unfolding io_pread_loop
io_pread_loop-none zero last offs fd = refl
io_pread_loop-none (suc m) last offs fd = refl

Fetched-none :
    (last : ℤ) (offs : ℕ) (fd : Fd)
    → is_positive last ≡ true
    → Fetched 0 offs fd (read_code last 0) [] fd
unfolding read_at
Fetched-none last offs fd h = record {
  within = omega arith;
  bytes = refl;
  in_file = omega arith;
  code = ground arith;
  file = refl;
  synced = refl;
  pos = refl;
  junk = refl;
}

io_pread_loop-Fetched :
    (m : ℕ) (last : ℤ) (sz offs : ℕ) (fd : Fd)
    → sz ≤ m
    → 0 < sz ⊎ (is_positive last ≡ true)
    → Reply sz offs fd (io_pread_loop m last sz offs fd)
io_pread_loop-Fetched m last zero offs fd p q =
    rw (io_pread_loop-none m last offs fd) (Fetched-none last offs fd (ground arith))
io_pread_loop-Fetched zero last (suc sz) offs fd p q = absurd (omega arith)
io_pread_loop-Fetched (suc m) last (suc sz) offs fd p q =
    elim (Bool-cases (is_positive (answer (suc sz) offs fd))) [
      | inl go ↦
          let n = to_size (answer (suc sz) offs fd) in
          let c = call (suc sz) offs fd go in
          rw (io_pread_loop-go (suc sz) offs fd m last go (omega arith)) (
            Fetched-step (suc sz) offs fd _ _ go (
              io_pread_loop-Fetched m _ (suc sz - n) (offs + n) _ (omega (arith, c.positive))
                (inr go)))
      | inr stop ↦
          rw (io_pread_loop-stop (suc sz) offs fd m last stop (omega arith))
            (Fetched-stop (suc sz) offs fd (omega arith) stop)
    ]

pub io_pread-Fetched :
    (sz offs : ℕ) (fd : Fd)
    → 0 < sz
    → let (ret, got, fd') = io_pread sz offs fd in Fetched sz offs fd ret got fd'
unfolding io_pread
io_pread-Fetched sz offs fd some_wanted =
    io_pread_loop-Fetched sz fd.junk sz offs fd (omega arith) (inl some_wanted)

-- A result that is neither positive nor -1 is a read of everything that was wanted.
pub Fetched-complete :
    {sz offs : ℕ} {fd : Fd} {ret : ℤ} {got : List ℕ} {fd' : Fd}
    → Fetched sz offs fd ret got fd'
    → is_positive ret ≡ false
    → is_failed ret ≡ false
    → 0 < sz
    → (got ≡ read_at offs sz fd.file) × (offs + sz ≤ fd.file.size)
Fetched-complete {sz} {offs} {fd} {ret} {got} f not_positive not_failed some_wanted =
    (f.bytes ∙ ap (λ n. read_at offs n fd.file) all, ground (arith, all, f.in_file))
  where
    all : length got ≡ sz
    all = ground (arith, f.code, f.within)

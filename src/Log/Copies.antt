-- ===== src/Log/Copies.antt =====
-- The copies of a log: behind the data in the database file, and in a new log file.
use logdb.Prelude.{
  ℕ, zero, suc, ◌+◌, ◌-◌, ◌*◌, ◌≤◌, ◌<◌, ◌≡◌, sym, ap, ◌∙◌, none, List, ◌++◌, arith, length, take,
  drop, get_or, get_or-take, length-take, length-drop, ltb, if◌then◌else◌, inl, get_or-drop,
  get_or-past, length-append,
}
use native.Mathlib.Decide.{dec_lt}
use logdb.File.{File, byte, read_at, write_at, truncate, empty_file}
use logdb.File.Laws.{
  byte-write_at, byte-write_at_out, size-write_at, read_at-ext, read_at-write_at, write_at-append,
  length-read_at, get_or-read_at,
}
use logdb.Log.Layout.{section_size, log_offset, connection_offset, encode32, decode16}
use logdb.Log.Create.Quiet.{new_log, write_at-empty}
use logdb.Log.Entry.{entry_at}
use logdb.Log.Merge.{entry_in}
use logdb.Log.Merge.Trim.{data_end}

-- The new log file has the bytes it was written from.
pub byte-new_log : (xs : List ℕ) (i : ℕ) → 6 ≤ length xs → byte (new_log xs) i ≡ get_or xs i 0
byte-new_log xs i long =
    byte-write_at 0 (take 6 xs) (write_at 6 (drop 6 xs) empty_file) i
    ∙ ground (
      arith,
      byte-write_at 6 (drop 6 xs) empty_file i,
      length-take 6 xs,
      length-drop 6 xs,
      get_or-take 6 i xs 0,
      get_or-drop 6 (i - 6) xs 0,
      get_or-past i xs 0,
    )

pub size-new_log : (xs : List ℕ) → 6 ≤ length xs → (new_log xs).size ≡ length xs
size-new_log xs long = elim (dec_lt 6 (length xs)) [
  | yes more ↦
      size-write_at 0 (take 6 xs) (write_at 6 (drop 6 xs) empty_file)
        (omega (arith, length-take 6 xs))
      ∙ omega (
        arith,
        length-take 6 xs,
        length-drop 6 xs,
        size-write_at 6 (drop 6 xs) empty_file (omega (arith, length-drop 6 xs)),
      )
  | no short ↦
      size-write_at 0 (take 6 xs) (write_at 6 (drop 6 xs) empty_file)
        (omega (arith, length-take 6 xs))
      ∙ omega (
        arith,
        length-take 6 xs,
        ap (λ (f : File). f.size) (write_at-empty 6 (drop 6 xs) (omega (arith, length-drop 6 xs))),
      )
]

-- The entries of a log file that keeps the first `k` of another one.
pub entry_at-new_log :
    (f : File) (k j : ℕ)
    → log_offset k ≤ f.size
    → entry_at (new_log (read_at 0 (log_offset k) f)) j ≡ (if ltb j k then entry_at f j else none)
unfolding entry_at decode16 log_offset read_at
entry_at-new_log f k j there =
    let xs = read_at 0 (6 + k * 2) f in
    let long : 6 ≤ length xs = omega (arith, length-read_at 0 (6 + k * 2) f) in
    let o = 6 + j * 2 in
    ground (
      arith,
      size-new_log xs long,
      length-read_at 0 (6 + k * 2) f,
      byte-new_log xs o long,
      byte-new_log xs (o + 1) long,
      get_or-read_at o (6 + k * 2) 0 f,
      get_or-read_at (o + 1) (6 + k * 2) 0 f,
    )

-- A file with a log of `6 + e` bytes and its trailer behind the first `m` bytes of data.
module _ (m e : ℕ) (log : List ℕ) (old : File) (whole : length log ≡ 6 + e) where
  abbrev pub merged : File
  merged = write_at m (log ++ encode32 (6 + e + 4)) (truncate m old)

  pub merged_two :
      merged ≡ write_at (m + length log) (encode32 (6 + e + 4)) (write_at m log (truncate m old))
  merged_two = sym (write_at-append m log (encode32 (6 + e + 4)) (truncate m old))

  pub size-merged : merged.size ≡ m + (6 + e) + 4
  unfolding truncate
  size-merged =
      size-write_at m (log ++ encode32 (6 + e + 4)) (truncate m old)
        (omega (arith, whole, length-append log (encode32 (6 + e + 4))))
      ∙ omega (arith, whole, length-append log (encode32 (6 + e + 4)))

  pub read_at-trailer : read_at (m + (6 + e)) 4 merged ≡ encode32 (6 + e + 4)
  read_at-trailer =
      ap (λ n. read_at (m + n) 4 merged) (sym whole)
      ∙ ap (read_at (m + length log) 4) merged_two
      ∙ read_at-write_at (m + length log) (encode32 (6 + e + 4)) (write_at m log (truncate m old))

  pub read_at-log : read_at m (6 + e) merged ≡ log
  read_at-log =
      ap (λ n. read_at m n merged) (sym whole)
      ∙ ap (read_at m (length log)) merged_two
      ∙ read_at-ext m (length log) _ (write_at m log (truncate m old))
          (λ i p q. byte-write_at_out (m + length log) i (encode32 (6 + e + 4)) _ (inl q))
      ∙ read_at-write_at m log (truncate m old)

  cut : (i : ℕ) → i < m → byte (truncate m old) i ≡ byte old i
  unfolding truncate
  cut i h = ground arith

  -- Data before the log are as before.
  pub read_at-data : (off n : ℕ) → off + n ≤ m → read_at off n merged ≡ read_at off n old
  read_at-data off n h = read_at-ext off n merged old (λ i p q.
      byte-write_at_out m i (log ++ encode32 (6 + e + 4)) (truncate m old) (inl (omega arith))
      ∙ cut i (omega arith))

-- The bytes of a section whose entry is kept lie before the log.
pub data_end-le :
    (block : List ℕ) (k j : ℕ)
    → j < k
    → k < 65536
    → ((i : ℕ) → i < k → entry_in block i < section_size)
    → connection_offset j + entry_in block j ≤ data_end block k
unfolding connection_offset
data_end-le block zero j h few short = absurd (omega arith)
data_end-le block (suc i) j h few short = elim (dec_lt j i) [
  | yes below ↦ omega (arith, short j (omega arith))
  | no last ↦ same j last h
]
  where
    same :
        (j : ℕ)
        → ¬ (j < i)
        → j < suc i
        → connection_offset j + entry_in block j ≤ connection_offset i + entry_in block i
    same j p q = let e : j ≡ i = omega arith in rw e (omega arith)

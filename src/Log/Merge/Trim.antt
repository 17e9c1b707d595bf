-- ===== src/Log/Merge/Trim.antt =====
-- The loop of `logdb_log_close_merge` that cuts off the empty sections at the end.
use logdb.File.Laws.{drop-read_at}
use mathlib.Core.Path.{ap₂}
use logdb.Prelude.{
  ℕ, zero, suc, ◌+◌, ◌-◌, ◌*◌, ◌≤◌, ◌<◌, ◌≡◌, refl, sym, ap, ◌∙◌, true, false, some, List, arith,
  le→leb, ◌==◌, inl, inr, Bool-cases,
}
use native.Mathlib.Decide.{dec_lt}
use logdb.File.{File, read_at}
use logdb.Log.Layout.{section_size, log_offset, connection_offset, decode16, log_offset-suc}
use logdb.Log.Entry.{entry_at}
use logdb.Log.Merge.{entry_in, shrink, trim}

decode16-read_at :
    (off r : ℕ) (f : File) → decode16 (read_at off (suc (suc r)) f) ≡ decode16 (read_at off 2 f)
unfolding decode16 read_at
decode16-read_at off r f = refl

-- An entry of the block that was read is the one in the file.
pub entry_in-entry_at :
    (f : File) (n i : ℕ)
    → i < n
    → log_offset n ≤ f.size
    → entry_at f i ≡ some (entry_in (read_at 0 (log_offset n) f) i)
unfolding entry_at log_offset
entry_in-entry_at f n i h there =
    let r = n * 2 - (i * 2 + 2) in
    rw (le→leb (6 + i * 2 + 2) f.size (omega arith)) (
      ap some (
        sym (
          ap decode16 (
            drop-read_at (6 + i * 2) (suc (suc r)) (6 + n * 2) 0 f (omega arith)
            ∙ ap (λ o. read_at o (suc (suc r)) f) (from_start (6 + i * 2)))
          ∙ decode16-read_at (6 + i * 2) r f)))
  where
    from_start : (o : ℕ) → 0 + o ≡ o
    from_start o = omega arith

-- Where the valid bytes of the first `k` sections end.
abbrev pub data_end : List ℕ → ℕ → ℕ
data_end block zero = connection_offset 0
data_end block (suc i) = connection_offset i + entry_in block i

-- The first `kept` entries are left, and those behind them are 0.
pub record Trimmed (block : List ℕ) (n : ℕ) (out : ℕ × ℕ) : Type 0 where
  pub kept : ℕ
  pub within : kept ≤ n
  pub result : out ≡ (data_end block kept, log_offset kept)
  pub zeros : (j : ℕ) → kept ≤ j → j < n → entry_in block j ≡ 0

trim-stop :
    (block : List ℕ) (i minsz logsz : ℕ)
    → (entry_in block i == 0) ≡ false
    → trim (suc i) block minsz logsz ≡ (shrink (entry_in block i) minsz, logsz)
unfolding trim
trim-stop block i minsz logsz e = ground (arith, e)

trim-go :
    (block : List ℕ) (i minsz logsz : ℕ)
    → (entry_in block i == 0) ≡ true
    → trim (suc i) block minsz logsz ≡ trim i block (shrink (entry_in block i) minsz) (logsz - 2)
unfolding trim
trim-go block i minsz logsz e = ground (arith, e)

-- One section less.
shrink-offset :
    (i len : ℕ)
    → i < 65535
    → len < section_size
    → shrink len (connection_offset (suc i)) ≡ connection_offset i + len
unfolding connection_offset
shrink-offset i len h k = omega arith

pub trim-Trimmed :
    (block : List ℕ) (n : ℕ)
    → n < 65536
    → ((j : ℕ) → j < n → entry_in block j < section_size)
    → Trimmed block n (trim n block (connection_offset n) (log_offset n))
trim-Trimmed block zero few short = record {
  kept = 0;
  within = omega arith;
  result = unfold trim in refl;
  zeros = λ j p q. absurd (omega arith);
}
trim-Trimmed block (suc i) few short = elim (Bool-cases (entry_in block i == 0)) [
  | inr full ↦ record {
    kept = suc i;
    within = omega arith;
    result =
        trim-stop block i _ _ full
        ∙ ap (λ m. (m, log_offset (suc i)))
            (shrink-offset i (entry_in block i) (omega arith) (short i (omega arith)));
    zeros = λ j p q. absurd (omega arith);
  }
  | inl empty ↦
      let t = trim-Trimmed block i (omega arith) (λ j p. short j (omega arith)) in
      record {
        kept = t.kept;
        within = omega (arith, t.within);
        result =
            trim-go block i _ _ empty
            ∙ ap₂ (trim i block) (one_less empty) (omega (arith, log_offset-suc i))
            ∙ t.result;
        zeros = λ j p q. elim (dec_lt j i) [
          | yes below ↦ t.zeros j p below
          | no last ↦ last_is j last q ∙ is_empty empty
        ];
      }
]
  where
    is_empty : (entry_in block i == 0) ≡ true → entry_in block i ≡ 0
    is_empty e = ground (arith, e)

    last_is : (j : ℕ) → ¬ (j < i) → j < suc i → entry_in block j ≡ entry_in block i
    last_is j p q = let e : j ≡ i = omega arith in ap (entry_in block) e

    one_less :
        (entry_in block i == 0) ≡ true
        → shrink (entry_in block i) (connection_offset (suc i)) ≡ connection_offset i
    one_less e =
        shrink-offset i (entry_in block i) (omega arith) (short i (omega arith))
        ∙ omega (arith, is_empty e)

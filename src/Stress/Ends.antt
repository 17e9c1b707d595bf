-- ===== src/Stress/Ends.antt =====
-- The threads of stress/stress.c before their first and behind their last turn.
use mathlib.Core.List.{Perm, Permᴰ}
use mathlib.Core.Logic.{∥∥₁_elim}
use native.Mathlib.Nat.{ℕ_set}
use logdb.Prelude.{ℕ, zero, suc, ◌+◌, ◌≤◌, ◌≡◌, refl, ap, ◌∙◌, List, [], ◌∷◌, ◌++◌, arith, length}
use logdb.Heap.{Heap, Block}
use logdb.Iter.Records.{Rec}
use logdb.Stress.{Worker, starting, working, ended}
use logdb.Stress.Turns.{IsKey, rounds_of, left_of, key_of}
use logdb.Stress.Threads.{AllAt, all_written, left_at, keys_of}

length-Permᴰ : {a b : List Rec} → Permᴰ a b → length a ≡ length b
length-Permᴰ Permᴰ.nil = refl
length-Permᴰ (Permᴰ.cons e p) = ap (λ k. suc k) (length-Permᴰ p)
length-Permᴰ (Permᴰ.swap e f) = refl
length-Permᴰ (Permᴰ.trans p q) = length-Permᴰ p ∙ length-Permᴰ q

pub length-Perm : {a b : List Rec} → Perm a b → length a ≡ length b
length-Perm {a} {b} p = ∥∥₁_elim p (ℕ_set (length a) (length b)) length-Permᴰ

-- Nothing has begun, and all has ended.
abbrev pub all_starting : List Block → List Worker
all_starting [] = []
all_starting (key ∷ keys) = starting key ∷ all_starting keys

abbrev pub all_ended : List Block → List Worker
all_ended [] = []
all_ended (key ∷ keys) = ended key ∷ all_ended keys

-- What the threads with these keys are to write.
abbrev pub all_rounds : ℕ → List Block → List Rec
all_rounds rounds [] = []
all_rounds rounds (key ∷ keys) = rounds_of key rounds ++ all_rounds rounds keys

abbrev pub AreKeys : List Block → Type 0
AreKeys [] = Unit {0}
AreKeys (key ∷ keys) = IsKey key × AreKeys keys

pub starting-AllAt :
    (rounds : ℕ) (h : Heap) (keys : List Block) → AreKeys keys → AllAt rounds h (all_starting keys)
starting-AllAt rounds h [] are = tt
starting-AllAt rounds h (key ∷ keys) (is_key, are) = (is_key, tt, starting-AllAt rounds h keys are)

pub starting_keys : (keys : List Block) → keys_of (all_starting keys) ≡ keys
starting_keys [] = refl
starting_keys (key ∷ keys) = ap (λ l. key ∷ l) (starting_keys keys)

pub starting_written :
    (rounds : ℕ) (keys : List Block) → all_written rounds (all_starting keys) ≡ []
starting_written rounds [] = refl
starting_written rounds (key ∷ keys) = starting_written rounds keys

pub ended_written :
    (rounds : ℕ) (keys : List Block) → all_written rounds (all_ended keys) ≡ all_rounds rounds keys
ended_written rounds [] = refl
ended_written rounds (key ∷ keys) = ap (λ l. rounds_of key rounds ++ l) (ended_written rounds keys)

pub starting_left :
    (rounds j : ℕ) (keys : List Block) → left_at rounds j (all_starting keys) ≤ rounds + 2
starting_left rounds j [] = omega arith
starting_left rounds zero (key ∷ keys) = omega arith
starting_left rounds (suc j) (key ∷ keys) = starting_left rounds j keys

pub starting_outside :
    (rounds j : ℕ) (keys : List Block) → length keys ≤ j → left_at rounds j (all_starting keys) ≡ 0
starting_outside rounds j [] outside = refl
starting_outside rounds zero (key ∷ keys) outside = absurd (omega (arith, outside))
starting_outside rounds (suc j) (key ∷ keys) outside =
    starting_outside rounds j keys (omega (arith, outside))

is_ended : (rounds : ℕ) (w : Worker) → left_of rounds w ≡ 0 → w ≡ ended (key_of w)
is_ended rounds (starting key) none_left = absurd (omega (arith, none_left))
is_ended rounds (working t) none_left = absurd (omega (arith, none_left))
is_ended rounds (ended key) none_left = refl

pub are_ended :
    (rounds : ℕ) (ws : List Worker)
    → ((j : ℕ) → left_at rounds j ws ≡ 0)
    → ws ≡ all_ended (keys_of ws)
are_ended rounds [] none_left = refl
are_ended rounds (w ∷ ws) none_left =
    λ i. is_ended rounds w (none_left 0) i ∷ are_ended rounds ws (λ j. none_left (suc j)) i

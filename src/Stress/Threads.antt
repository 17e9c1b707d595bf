-- ===== src/Stress/Threads.antt =====
-- The threads of stress/stress.c in a list: their keys stand in buffers apart from each other.
use native.Mathlib.Decide.{ℕ_discrete, dec_lt}
use logdb.Prelude.{
  ℕ, zero, suc, ◌-◌, ◌≤◌, ◌<◌, ◌≡◌, ◌≢◌, refl, sym, subst, List, [], ◌∷◌, ◌++◌, arith, ◌==◌,
  if◌then◌else◌,
}
use logdb.Heap.{Ptr, Block, Heap}
use logdb.Iter.Records.{Rec}
use logdb.Stress.{Worker, starting, working, ended}
use logdb.Stress.Iteration.{moved}
use logdb.Stress.Turns.{Threads, written, left_of, IsAt, Misses, key_of}

abbrev pub AllMiss : Ptr → List Worker → Type 0
AllMiss p [] = Unit {0}
AllMiss p (w ∷ ws) = Misses p w × AllMiss p ws

-- No other thread has the buffer of its key.
abbrev pub IsAlone : Worker → List Worker → Type 0
IsAlone (starting key) ws = Unit {0}
IsAlone (working t) ws = AllMiss t.keybuf ws
IsAlone (ended key) ws = Unit {0}

abbrev pub AllAt : ℕ → Heap → List Worker → Type 0
AllAt count h [] = Unit {0}
AllAt count h (w ∷ ws) = IsAt count h w × IsAlone w ws × AllAt count h ws

abbrev pub all_written : ℕ → List Worker → List Rec
all_written count [] = []
all_written count (w ∷ ws) = written count w ++ all_written count ws

-- The turns that this thread needs; 0 if there is none.
abbrev pub left_at : ℕ → ℕ → List Worker → ℕ
left_at count j [] = 0
left_at count zero (w ∷ ws) = left_of count w
left_at count (suc j) (w ∷ ws) = left_at count j ws

abbrev pub keys_of : List Worker → List Block
keys_of [] = []
keys_of (w ∷ ws) = key_of w ∷ keys_of ws

abbrev pub thread_list : ℕ → ℕ → Threads (List Worker)
thread_list count k = record {
  is_at = AllAt count;
  misses = AllMiss;
  writes = all_written count;
  goes = λ ws ws'.
      ((j : ℕ)
        → left_at count j ws' ≡ (if j == k then left_at count j ws - 1 else left_at count j ws))
      × (keys_of ws' ≡ keys_of ws);
}

-- From a heap to another in which one buffer at most differs.
module _ (count : ℕ) (h k : Heap) (touched : Ptr)
    (kept : (q : Ptr) → q < h.fresh → q ≢ touched → k.cell q ≡ h.cell q)
    (fresh : h.fresh ≤ k.fresh) where
  pub IsAt-moved : (w : Worker) → IsAt count h w → Misses touched w → IsAt count k w
  IsAt-moved (starting key) at_it miss = at_it
  IsAt-moved (ended key) at_it miss = at_it
  IsAt-moved (working t) (ready, is_key, below) miss = (
    record {
      single = moved ready.single (kept t.keybuf ready.old miss);
      len = ready.len;
      same = ready.same;
      old = omega (arith, ready.old, fresh);
      no_txns = ready.no_txns;
    },
    is_key,
    below,
  )

  pub AllAt-moved : (ws : List Worker) → AllAt count h ws → AllMiss touched ws → AllAt count k ws
  AllAt-moved [] at_it miss = tt
  AllAt-moved (w ∷ ws) (here, alone, there) (miss, misses) =
      (IsAt-moved w here miss, alone, AllAt-moved ws there misses)

module _ (count : ℕ) (h : Heap) where
  -- Nobody has a buffer that is not there yet.
  Misses-new : (p : Ptr) (w : Worker) → h.fresh ≤ p → IsAt count h w → Misses p w
  Misses-new p (starting key) new at_it = tt
  Misses-new p (ended key) new at_it = tt
  Misses-new p (working t) new (ready, is_key, below) = λ e. omega (arith, e, ready.old, new)

  AllMiss-new : (p : Ptr) (ws : List Worker) → h.fresh ≤ p → AllAt count h ws → AllMiss p ws
  AllMiss-new p [] new at_it = tt
  AllMiss-new p (w ∷ ws) new (here, alone, there) =
      (Misses-new p w new here, AllMiss-new p ws new there)

  -- A buffer that no thread like `w` touches.
  Misses-touched :
      (touched : Ptr) (w v : Worker)
      → ((q : Ptr) → q < h.fresh → Misses q w → q ≢ touched)
      → IsAlone w (v ∷ [])
      → IsAt count h v
      → Misses touched v
  Misses-touched touched w (starting key) own alone at_it = tt
  Misses-touched touched w (ended key) own alone at_it = tt
  Misses-touched touched (starting key) (working t) own alone at_it = own t.keybuf at_it.0.old tt
  Misses-touched touched (ended key) (working t) own alone at_it = own t.keybuf at_it.0.old tt
  Misses-touched touched (working u) (working t) own alone at_it =
      own t.keybuf at_it.0.old (λ e. alone.0 (sym e))

  IsAlone-cons :
      (w v : Worker) (ws : List Worker) → IsAlone w (v ∷ ws) → IsAlone w (v ∷ []) × IsAlone w ws
  IsAlone-cons (starting key) v ws alone = (tt, tt)
  IsAlone-cons (ended key) v ws alone = (tt, tt)
  IsAlone-cons (working t) v ws alone = ((alone.0, tt), alone.1)

  pub AllMiss-touched :
      (touched : Ptr) (w : Worker) (ws : List Worker)
      → ((q : Ptr) → q < h.fresh → Misses q w → q ≢ touched)
      → IsAlone w ws
      → AllAt count h ws
      → AllMiss touched ws
  AllMiss-touched touched w [] own alone at_it = tt
  AllMiss-touched touched w (v ∷ ws) own alone at_it =
      let (here, there) = IsAlone-cons w v ws alone in
      (Misses-touched touched w v own here at_it.0, AllMiss-touched touched w ws own there at_it.2)

  same_buffer :
      (q : Ptr) (w : Worker) (ws : List Worker) → IsAlone w ws → ¬ Misses q w → AllMiss q ws
  same_buffer q (starting key) ws alone hits = absurd (hits tt)
  same_buffer q (ended key) ws alone hits = absurd (hits tt)
  same_buffer q (working t) ws alone hits = elim (ℕ_discrete t.keybuf q) [
    | yes same ↦ subst (λ p. AllMiss p ws) same alone
    | no other ↦ absurd (hits other)
  ]

  -- A thread that has its old buffer or a new one is alone with it.
  pub IsAlone-next :
      (w w' : Worker) (ws : List Worker)
      → ((q : Ptr) → q < h.fresh → Misses q w → Misses q w')
      → IsAlone w ws
      → AllAt count h ws
      → IsAlone w' ws
  IsAlone-next w (starting key) ws own alone at_it = tt
  IsAlone-next w (ended key) ws own alone at_it = tt
  IsAlone-next w (working t) ws own alone at_it = elim (dec_lt t.keybuf h.fresh) [
    | yes old ↦ same_buffer t.keybuf w ws alone (λ miss. own t.keybuf old miss refl)
    | no new ↦ AllMiss-new t.keybuf ws (omega (arith, new)) at_it
  ]

  -- What the others do leaves a thread where it is, and alone.
  pub stays :
      (touched : Ptr) (w : Worker) (ws ws' : List Worker)
      → ((q : Ptr) → q < h.fresh → AllMiss q ws → (q ≢ touched) × AllMiss q ws')
      → IsAt count h w
      → IsAlone w ws
      → Misses touched w × IsAlone w ws'
  stays touched (starting key) ws ws' own at_it alone = (tt, tt)
  stays touched (ended key) ws ws' own at_it alone = (tt, tt)
  stays touched (working t) ws ws' own at_it alone = own t.keybuf at_it.0.old alone

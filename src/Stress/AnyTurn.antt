-- ===== src/Stress/AnyTurn.antt =====
-- A turn of one of the threads of stress/stress.c.
use mathlib.Core.List.{Perm}
use mathlib.Core.List.Perm
use logdb.Prelude.{
  ℕ, zero, suc, ◌-◌, ◌<◌, ◌≡◌, refl, sym, ap, subst, List, [], ◌∷◌, ◌++◌, append-nil, append_assoc,
  arith, ◌==◌, if◌then◌else◌,
}
use logdb.Heap.{Block, Heap}
use logdb.Iter.Records.{Rec}
use logdb.Iter.Sections.{records_from}
use logdb.Txn.{Setting}
use logdb.Txn.Put.Refines.{Represents}
use logdb.Txn.Put.Ledger.{swap_front}
use logdb.Stress.{Worker, Shared, turn, turn_of}
use logdb.Stress.Turns.{no_group, Turned, one_thread, written, key_of, left_of}
use logdb.Stress.OneTurn.{one-turn}
use logdb.Stress.Threads.{
  AllAt, all_written, left_at, keys_of, thread_list, IsAt-moved, AllAt-moved, AllMiss-touched,
  IsAlone-next, stays,
}

first_left :
    (count : ℕ) (w w' : Worker) (ws : List Worker)
    → left_of count w' ≡ left_of count w - 1
    → (j : ℕ)
    → left_at count j (w' ∷ ws)
      ≡ (if j == 0 then left_at count j (w ∷ ws) - 1 else left_at count j (w ∷ ws))
first_left count w w' ws less zero = ground (arith, less)
first_left count w w' ws less (suc j) = ground arith

later_left :
    (count k : ℕ) (w : Worker) (ws ws' : List Worker)
    → ((j : ℕ)
        → left_at count j ws' ≡ (if j == k then left_at count j ws - 1 else left_at count j ws))
    → (j : ℕ)
    → left_at count j (w ∷ ws')
      ≡ (if j == suc k then left_at count j (w ∷ ws) - 1 else left_at count j (w ∷ ws))
later_left count k w ws ws' less zero = ground arith
later_left count k w ws ws' less (suc j) = ground (arith, less j)

module _ (set : Setting) (count n : ℕ) (rs : ℕ → List Rec) (s : Shared) (h : Heap) where
  -- The turn of the first thread.
  first :
      (w : Worker) (ws : List Worker)
      → AllAt count h (w ∷ ws)
      → Turned (one_thread count) n rs w s h (turn set count w s)
      → Turned (thread_list count 0) n rs (w ∷ ws) s h (turn_of set count 0 (w ∷ ws) s)
  unfolding turn_of
  first w ws (here, alone, there) t = record {
    next = t.next ∷ ws;
    shared = t.shared;
    after = t.after;
    returns = rw t.returns refl;
    silent = t.silent;
    count = t.count;
    counted = t.counted;
    sections = t.sections;
    represents = t.represents;
    wrote = t.wrote;
    lost = t.lost;
    lost_sections = t.lost_sections;
    lost_size = t.lost_size;
    in_groups = t.in_groups;
    same = t.same;
    wrote_it =
        subst (λ l. Perm (written count t.next ++ all_written count ws) l)
          (append_assoc t.wrote (written count w) (all_written count ws))
          (Perm.append_right (all_written count ws) t.wrote_it);
    is_at = (
      t.is_at,
      IsAlone-next count h w t.next ws (λ q old miss. (t.own q old miss).1) alone there,
      AllAt-moved count h t.after t.touched t.kept t.memory.0 ws there
          (AllMiss-touched count h t.touched w ws (λ q old miss. (t.own q old miss).0) alone there),
    );
    touched = t.touched;
    kept = t.kept;
    own = λ q old (miss, misses). ((t.own q old miss).0, ((t.own q old miss).1, misses));
    memory = t.memory;
    goes = (first_left count w t.next ws t.goes.0, ap (λ (k : Block). k ∷ keys_of ws) t.goes.1);
  }

  -- The turn of a later one.
  later :
      (k : ℕ) (w : Worker) (ws : List Worker)
      → AllAt count h (w ∷ ws)
      → Turned (thread_list count k) n rs ws s h (turn_of set count k ws s)
      → Turned (thread_list count (suc k)) n rs (w ∷ ws) s h (turn_of set count (suc k) (w ∷ ws) s)
  unfolding turn_of
  later k w ws (here, alone, there) t = record {
    next = w ∷ t.next;
    shared = t.shared;
    after = t.after;
    returns = rw t.returns refl;
    silent = t.silent;
    count = t.count;
    counted = t.counted;
    sections = t.sections;
    represents = t.represents;
    wrote = t.wrote;
    lost = t.lost;
    lost_sections = t.lost_sections;
    lost_size = t.lost_size;
    in_groups = t.in_groups;
    same = t.same;
    wrote_it =
        Perm.trans (Perm.append_left (written count w) t.wrote_it)
          (swap_front (written count w) t.wrote (all_written count ws));
    is_at =
        let (miss, still) = stays count h t.touched w ws t.next t.own here alone in
        (IsAt-moved count h t.after t.touched t.kept t.memory.0 w here miss, still, t.is_at);
    touched = t.touched;
    kept = t.kept;
    own = λ q old (miss, misses). ((t.own q old misses).0, (miss, (t.own q old misses).1));
    memory = t.memory;
    goes = (later_left count k w ws t.next t.goes.0, ap (λ l. key_of w ∷ l) t.goes.1);
  }

module _ (set : Setting) (fuel rounds count n : ℕ) (rs : ℕ → List Rec) (s : Shared) (h : Heap)
    (enough : set.fuel ≡ suc (suc (suc (suc (suc fuel))))) (some_rounds : set.rounds ≡ suc rounds)
    (alone : set.others ≡ []) (rep : Represents n rs s.conn) (few : n < 65536)
    (memory : h.mallocs ≡ []) (some_address : 0 < h.fresh) where
  pub any-turn :
      (k : ℕ) (ws : List Worker)
      → AllAt count h ws
      → Turned (thread_list count k) n rs ws s h (turn_of set count k ws s)
  unfolding turn_of
  any-turn k [] at_it = record {
    next = [];
    shared = s;
    after = h;
    returns = refl;
    silent = refl;
    count = n;
    counted = (omega arith, omega arith);
    sections = rs;
    represents = rep;
    wrote = [];
    lost = [];
    lost_sections = 0;
    lost_size = omega arith;
    in_groups = no_group;
    same =
        subst (λ l. Perm l (records_from rs 0 n)) (sym (append-nil (records_from rs 0 n))) Perm.rfl;
    wrote_it = Perm.rfl;
    is_at = tt;
    touched = h.fresh;
    kept = λ q old other. refl;
    own = λ q old miss. (λ e. omega (arith, e, old), tt);
    memory = (omega arith, memory);
    goes = (λ j. ground arith, refl);
  }
  any-turn zero (w ∷ ws) at_it = first set count n rs s h w ws at_it (
      one-turn set fuel rounds count n rs s h enough some_rounds alone rep few memory some_address w
        at_it.0)
  any-turn (suc k) (w ∷ ws) at_it = later set count n rs s h k w ws at_it (any-turn k ws at_it.2)

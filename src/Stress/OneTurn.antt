-- ===== src/Stress/OneTurn.antt =====
-- The turns of one thread of stress/stress.c.
use logdb.Prelude.{ℕ, suc, ◌<◌, ◌≡◌, List, [], arith}
use native.Mathlib.Decide.{dec_lt}
use logdb.Heap.{Heap}
use logdb.Iter.Records.{Rec}
use logdb.Txn.{Setting}
use logdb.Txn.Put.Refines.{Represents}
use logdb.Stress.{Worker, starting, working, ended, Shared, turn}
use logdb.Stress.Turns.{Turned, one_thread, IsAt}
use logdb.Stress.Idle.{turn-starting, turn-ended, turn-ending}
use logdb.Stress.Round.{turn-working}

module _ (set : Setting) (fuel rounds count n : ℕ) (rs : ℕ → List Rec) (s : Shared) (h : Heap)
    (enough : set.fuel ≡ suc (suc (suc (suc (suc fuel))))) (some_rounds : set.rounds ≡ suc rounds)
    (alone : set.others ≡ []) (rep : Represents n rs s.conn) (few : n < 65536)
    (memory : h.mallocs ≡ []) (some_address : 0 < h.fresh) where
  pub one-turn :
      (w : Worker) → IsAt count h w → Turned (one_thread count) n rs w s h (turn set count w s)
  one-turn (starting key) is_key =
      turn-starting set fuel count n rs s h enough rep memory some_address key is_key
  one-turn (ended key) is_key =
      turn-ended set fuel count n rs s h enough rep memory some_address key is_key
  one-turn (working t) (ready, is_key, below) = elim (dec_lt t.i count) [
    | yes early ↦
        turn-working set fuel rounds count n rs s h enough some_rounds alone rep few memory t ready
          is_key early
    | no late ↦
        turn-ending set fuel count n rs s h enough rep memory some_address t ready is_key
          (omega (arith, late, below))
  ]

-- ===== src/Stress/Round.antt =====
-- The turn in which a thread of stress/stress.c goes through a round of its loop: one more record.
use mathlib.Core.List.{Perm}
use mathlib.Core.List.Perm
use logdb.Prelude.{
  ℕ, suc, ◌+◌, ◌*◌, ◌≤◌, ◌<◌, ◌≡◌, refl, sym, ap, subst, ◌∙◌, inl, inr, List, [], ◌∷◌, append-nil,
  arith, length,
}
use logdb.Heap.{Heap, answered}
use logdb.Log.Layout.{section_size}
use logdb.Iter.Records.{Rec, encode_records}
use logdb.Iter.Sections.{records_from, no_records}
use logdb.Sections.Growth.{stored-none}
use logdb.Database.Records.{same_records}
use logdb.Txn.{Setting}
use logdb.Txn.Put.Refines.{Represents, added}
use logdb.Txn.Put.Ledger.{Booked, added-Booked}
use logdb.Stress.{Task, working, Shared, turn}
use logdb.Stress.Iteration.{IsReady, record_of, Iterated, iterate-Iterated, moved}
use logdb.Stress.Turns.{rounds_of, IsKey, Turned, one_thread, InGroups, no_group, one_group}

one_more : (i : ℕ) → suc i ≡ i + 1
one_more i = omega arith

module _ (set : Setting) (fuel rounds count n : ℕ) (rs : ℕ → List Rec) (s : Shared) (h : Heap)
    (enough : set.fuel ≡ suc (suc (suc (suc (suc fuel))))) (some_rounds : set.rounds ≡ suc rounds)
    (alone : set.others ≡ []) (rep : Represents n rs s.conn) (few : n < 65536)
    (memory : h.mallocs ≡ []) (t : Task) (ready : IsReady h t) (is_key : IsKey t.key)
    (early : t.i < count) where
  once : Iterated set n rs t s h
  once =
      iterate-Iterated set fuel rounds n rs t s h enough some_rounds alone is_key.1 is_key.0 rep few
        memory ready

  abbrev r : Rec
  r = record_of t.key t.i

  -- There are no records behind the sections.
  no_more : (j : ℕ) → n ≤ j → rs j ≡ []
  no_more j above =
      no_records (rs j) (
        sym (rep.encoded j)
        ∙ stored-none s.conn.db.file s.conn.log.file n j rep.calm.log.size above)

  wider : records_from rs 0 n ≡ records_from rs 0 once.count
  wider = same_records rs 0 n once.count once.counted.0 (λ j a b. no_more j (omega (arith, a)))

  booked : Booked r (records_from rs 0 n) (records_from (added once.index r rs) 0 once.count)
  booked =
      subst (λ l. Booked r l (records_from (added once.index r rs) 0 once.count)) (sym wider)
        (added-Booked once.index once.count r rs once.counted.2)

  whole :
      (k : ℕ) × (length (encode_records booked.lost) ≡ k * section_size) × InGroups booked.lost k
  whole = elim booked.whole [
    | inl nothing ↦ (
      0,
      ap (λ l. length (encode_records l)) nothing ∙ omega arith,
      subst (λ l. InGroups l 0) (sym nothing) no_group,
    )
    | inr filled ↦ (
      1,
      filled ∙ omega arith,
      subst (λ l. InGroups l 1) (append-nil booked.lost)
          (one_group booked.lost [] 0 filled no_group),
    )
  ]

  abbrev new_shared : Shared
  new_shared = record { conn = once.conn; printed = s.printed }

  rounds_on :
      turn set count (working t) s h
      ≡ answered (working (record t { i = t.i + 1; txns = [] }), new_shared) once.after
  unfolding turn
  rounds_on = ground (arith, early, once.returns)

  pub turn-working : Turned (one_thread count) n rs (working t) s h (turn set count (working t) s)
  turn-working = record {
    next = working (record t { i = t.i + 1; txns = [] });
    shared = new_shared;
    after = once.after;
    returns = rounds_on;
    silent = refl;
    count = once.count;
    counted = (once.counted.0, once.counted.1);
    sections = added once.index r rs;
    represents = once.represents;
    wrote = r ∷ [];
    lost = booked.lost;
    lost_sections = whole.0;
    lost_size = whole.1;
    in_groups = whole.2;
    same = booked.same;
    wrote_it =
        subst (λ k. Perm (rounds_of t.key k) (r ∷ rounds_of t.key t.i)) (one_more t.i) Perm.rfl;
    is_at = (
      record {
        single = moved ready.single (once.kept t.keybuf ready.old);
        len = ready.len;
        same = ready.same;
        old = omega (arith, ready.old, once.memory.0);
        no_txns = refl;
      },
      is_key,
      omega (arith, early),
    );
    touched = h.fresh;
    kept = λ q old other. once.kept q old;
    own = λ q old miss. (λ e. omega (arith, e, old), miss);
    memory = once.memory;
    goes = (omega (arith, early), refl);
  }

-- ===== src/Txn/Put/Ledger.antt =====
-- The records of all sections when one is added, as lists up to their order.
use mathlib.Core.List.{Perm, perm_middle}
use mathlib.Core.List.Perm
use native.Mathlib.Decide.{ℕ_discrete}
use logdb.Prelude.{
  ℕ, zero, suc, ◌+◌, ◌≤◌, ◌<◌, ◌≡◌, ◌≢◌, refl, sym, ap, subst, ◌∙◌, ◌⊎◌, inl, inr, List, [], ◌∷◌,
  ◌++◌, append-nil, append_assoc, arith, length, length-append,
}
use logdb.Log.Layout.{section_size}
use logdb.Iter.Records.{Rec, encode_record, encode_records}
use logdb.Iter.Sections.{records_from}
use logdb.Txn.Put.Refines.{added, encode_records-append}

pub append_comm : (a b : List Rec) → Perm (a ++ b) (b ++ a)
append_comm [] b = subst (λ l. Perm b l) (sym (append-nil b)) Perm.rfl
append_comm (r ∷ a) b = Perm.trans (Perm.cons r (append_comm a b)) (Perm.symm (perm_middle b a))

-- The front two of three lists change places.
pub swap_front : (a b c : List Rec) → Perm (a ++ (b ++ c)) (b ++ (a ++ c))
swap_front a b c =
    subst (λ l. Perm l (b ++ (a ++ c))) (append_assoc a b c)
      (subst (λ l. Perm ((a ++ b) ++ c) l) (append_assoc b a c)
        (Perm.append_right c (append_comm a b)))

-- Functions that agree from section `s` on have the same records.
agree :
    (rs rs' : ℕ → List Rec) (s m : ℕ)
    → ((j : ℕ) → s ≤ j → rs' j ≡ rs j)
    → records_from rs' s m ≡ records_from rs s m
agree rs rs' s zero same = refl
agree rs rs' s (suc m) same =
    ap (λ l. l ++ records_from rs' (suc s) m) (same s (omega arith))
    ∙ ap (λ l. rs s ++ l) (agree rs rs' (suc s) m (λ j above. same j (omega (arith, above))))

-- One section, and the records of the others.
record Apart (i s m : ℕ) (rs rs' : ℕ → List Rec) : Type 0 where
  rest : List Rec
  old : Perm (records_from rs s m) (rs i ++ rest)
  new : Perm (records_from rs' s m) (rs' i ++ rest)

apart :
    (i s m : ℕ) (rs rs' : ℕ → List Rec)
    → s ≤ i
    → i < s + m
    → ((j : ℕ) → j ≢ i → rs' j ≡ rs j)
    → Apart i s m rs rs'
apart i s zero rs rs' above below same = absurd (omega (arith, above, below))
apart i s (suc m) rs rs' above below same = elim (ℕ_discrete s i) [
  | yes here ↦ record {
    rest = records_from rs (suc s) m;
    old =
        subst (λ k. Perm (records_from rs s (suc m)) (rs k ++ records_from rs (suc s) m)) here
          Perm.rfl;
    new =
        subst (λ k. Perm (records_from rs' s (suc m)) (rs' k ++ records_from rs (suc s) m)) here
          (subst (λ l. Perm (records_from rs' s (suc m)) (rs' s ++ l))
            (agree rs rs' (suc s) m (λ j later. same j (λ e. omega (arith, later, e, here))))
            Perm.rfl);
  }
  | no elsewhere ↦
      let a =
        apart i (suc s) m rs rs' (omega (arith, above, elsewhere)) (omega (arith, below)) same in
      record {
        rest = rs s ++ a.rest;
        old = Perm.trans (Perm.append_left (rs s) a.old) (swap_front (rs s) (rs i) a.rest);
        new =
            subst (λ l. Perm (l ++ records_from rs' (suc s) m) (rs' i ++ (rs s ++ a.rest)))
              (sym (same s elsewhere))
              (Perm.trans (Perm.append_left (rs s) a.new) (swap_front (rs s) (rs' i) a.rest));
      }
]

-- What a record makes of all records: it is among them, and with a section that it fills, that
-- section is lost.
pub record Booked (r : Rec) (old new : List Rec) : Type 0 where
  pub lost : List Rec
  pub same : Perm (new ++ lost) (r ∷ old)
  pub whole : (lost ≡ []) ⊎ (length (encode_records lost) ≡ section_size)

pub added-Booked :
    (i m : ℕ) (r : Rec) (rs : ℕ → List Rec)
    → i < m
    → Booked r (records_from rs 0 m) (records_from (added i r rs) 0 m)
added-Booked i m r rs below =
    elim (ℕ_discrete (length (encode_records (rs i)) + length (encode_record r)) section_size) [
      | yes filled ↦ record {
        lost = rs i ++ (r ∷ []);
        same = emptied (ground (arith, filled));
        whole = inr (
            ap length (encode_records-append (rs i) r)
            ∙ length-append (encode_records (rs i)) (encode_record r)
            ∙ filled);
      }
      | no partly ↦ record { lost = []; same = grown (ground (arith, partly)); whole = inl refl }
    ]
  where
    a : Apart i 0 m rs (added i r rs)
    a =
        apart i 0 m rs (added i r rs) (omega arith) (omega (arith, below))
          (λ j other. ground (arith, other))

    longer : List Rec
    longer = rs i ++ (r ∷ [])

    split : Perm (longer ++ a.rest) (r ∷ records_from rs 0 m)
    split =
        subst (λ l. Perm l (r ∷ records_from rs 0 m)) (sym (append_assoc (rs i) (r ∷ []) a.rest))
          (Perm.trans (perm_middle (rs i) a.rest) (Perm.cons r (Perm.symm a.old)))

    emptied :
        added i r rs i ≡ []
        → Perm (records_from (added i r rs) 0 m ++ longer) (r ∷ records_from rs 0 m)
    emptied none_left =
        Perm.trans
          (Perm.append_right longer
            (subst (λ l. Perm (records_from (added i r rs) 0 m) (l ++ a.rest)) none_left a.new))
          (Perm.trans (append_comm a.rest longer) split)

    grown :
        added i r rs i ≡ longer
        → Perm (records_from (added i r rs) 0 m ++ []) (r ∷ records_from rs 0 m)
    grown one_more =
        subst (λ l. Perm l (r ∷ records_from rs 0 m))
          (sym (append-nil (records_from (added i r rs) 0 m)))
          (Perm.trans
            (subst (λ l. Perm (records_from (added i r rs) 0 m) (l ++ a.rest)) one_more a.new)
            split)

-- ===== src/Lease/Pieces.antt =====
-- A write through a lease that is made of several pieces.
use logdb.Prelude.{
  ℕ, zero, suc, ◌+◌, ◌-◌, ◌≤◌, ◌≡◌, refl, sym, ap, ◌∙◌, List, [], ◌∷◌, ◌++◌, arith, length, take,
  length-append, take-length,
}
use mathlib.Core.Path.{ap₂}
use logdb.File.{write_at}
use logdb.File.Laws.{write_at-append}
use logdb.Io.{Fd}
use logdb.Log.Layout.{connection_offset}
use logdb.Lease.{Lease}
use logdb.Lease.Transfer.{Fits, LeaseWritten}

take-append : (n : ℕ) (xs ys : List ℕ) → n ≤ length xs → take n (xs ++ ys) ≡ take n xs
take-append zero xs ys h = refl
take-append (suc n) [] ys h = absurd (omega arith)
take-append (suc n) (x ∷ xs) ys h = ap (λ l. x ∷ l) (take-append n xs ys (omega arith))

take-append_past :
    (n k : ℕ) (xs ys : List ℕ) → n ≡ length xs + k → take n (xs ++ ys) ≡ xs ++ take k ys
take-append_past n k [] ys h = ap (λ m. take m ys) (omega arith)
take-append_past zero k (x ∷ xs) ys h = absurd (omega arith)
take-append_past (suc n) k (x ∷ xs) ys h =
    ap (λ l. x ∷ l) (take-append_past n k xs ys (omega arith))

-- A write that stopped in the first bytes, seen as one of all bytes.
pub LeaseWritten-stop :
    (xs ys : List ℕ) {lease : Lease} {db : Fd} {left : ℕ} {lease' : Lease} {db' : Fd}
    → LeaseWritten xs lease db left lease' db'
    → LeaseWritten (xs ++ ys) lease db (left + length ys) lease' db'
LeaseWritten-stop xs ys {lease} {db} {left} w = record {
  within = omega (arith, w.within, length-append xs ys);
  file =
      w.file
      ∙ ap (λ l. write_at (connection_offset lease.index + lease.offset) l db.file)
          (sym (take-append (length xs - left) xs ys (omega arith))
            ∙ ap (λ n. take n (xs ++ ys)) (sym same));
  synced = w.synced;
  index = w.index;
  type = w.type;
  offset = omega (arith, w.offset, same);
  len = omega (arith, w.len, same);
  leased = omega (arith, w.leased, same);
}
  where
    same : length (xs ++ ys) - (left + length ys) ≡ length xs - left
    same = omega (arith, length-append xs ys)

-- A complete write, and another behind it.
pub LeaseWritten-append :
    (xs ys : List ℕ) {lease : Lease} {db : Fd} {lease' : Lease} {db' : Fd} {left : ℕ}
    {lease'' : Lease} {db'' : Fd}
    → LeaseWritten xs lease db 0 lease' db'
    → LeaseWritten ys lease' db' left lease'' db''
    → LeaseWritten (xs ++ ys) lease db left lease'' db''
LeaseWritten-append xs ys {lease} {db} {lease'} {db'} {left} v w = record {
  within = omega (arith, w.within, length-append xs ys);
  file =
      w.file
      ∙ ap₂ (λ o f. write_at o (take (length ys - left) ys) f) next_offset
          (v.file ∙ ap (λ l. write_at at l db.file) all_first)
      ∙ write_at-append at xs (take (length ys - left) ys) db.file
      ∙ ap (λ l. write_at at l db.file)
          (sym (take-append_past (length (xs ++ ys) - left) (length ys - left) xs ys same));
  synced = w.synced ∙ v.synced;
  index = w.index ∙ v.index;
  type = w.type ∙ v.type;
  offset = omega (arith, v.offset, w.offset, same, w.within);
  len = omega (arith, v.len, w.len, same, w.within);
  leased = omega (arith, v.len, v.leased, w.leased, same, w.within);
}
  where
    same : length (xs ++ ys) - left ≡ length xs + (length ys - left)
    same = omega (arith, length-append xs ys, w.within)

    at : ℕ
    at = connection_offset lease.index + lease.offset

    all_first : take (length xs - 0) xs ≡ xs
    all_first = ap (λ n. take n xs) (sub_zero (length xs)) ∙ take-length xs
      where
        sub_zero : (n : ℕ) → n - 0 ≡ n
        sub_zero n = omega arith

    next_offset : connection_offset lease'.index + lease'.offset ≡ at + length xs
    next_offset =
        ap₂ ◌+◌ (ap connection_offset v.index) v.offset
        ∙ regroup (connection_offset lease.index) lease.offset (length xs)
      where
        regroup : (a b c : ℕ) → a + (b + (c - 0)) ≡ a + b + c
        regroup a b c = omega arith

pub Fits-written :
    (xs : List ℕ) {lease : Lease} {db : Fd} {left : ℕ} {lease' : Lease} {db' : Fd}
    → Fits lease
    → LeaseWritten xs lease db left lease' db'
    → Fits lease'
Fits-written xs fits w = record { inside = omega (arith, fits.inside, w.offset, w.len, w.leased) }

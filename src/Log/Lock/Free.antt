-- ===== src/Log/Lock/Free.antt =====
-- Lock structures in which no entry is locked, whether or not they overlap.
use logdb.Prelude.{
  ℕ, ◌+◌, ◌-◌, ◌≤◌, ◌<◌, ◌≡◌, refl, sym, subst, ℤ, pos, negsuc, false, lt→ltb, succeeded, true,
  some, List, [], ◌∷◌, ltb, arith,
}
use native.Mathlib.Decide.{dec_lt}
use logdb.Log.Lock.{
  LockNode, lock_write, new_node, update, increment, take_lock, lock_entry, lock_new, inproc_lock,
  inproc_unlock,
}
use logdb.Log.Lock.Held.{held}

abbrev pub AllFree : List LockNode → Type 0
AllFree [] = Unit {0}
AllFree (lock ∷ next) =
    (lock.startindex + 127 < 4294967296) × ((slot : ℕ) → lock.locks slot ≡ pos 0) × AllFree next

pub held-AllFree : (table : List LockNode) → AllFree table → (j : ℕ) → held table j ≡ pos 0
unfolding held
held-AllFree [] free j = refl
held-AllFree (lock ∷ next) free j =
    ground (arith, held-AllFree next free.2 j, free.1 (j - lock.startindex))

-- What an unlock behind a lock leaves.
pub record FreeAgain (index : ℕ) (table : List LockNode) : Type 0 where
  pub after : List LockNode
  pub found : inproc_unlock lock_write index table ≡ some after
  pub free : AllFree after

-- The structure of the entry, locked, and unlocked again.
abbrev with_value : ℕ → ℤ → LockNode → LockNode
with_value index v lock = record lock { locks = update lock.locks (index - lock.startindex) v }

module _ (index : ℕ) (lock : LockNode) (next : List LockNode) (from : lock.startindex ≤ index)
    (to : index ≤ lock.startindex + 127) (small : lock.startindex + 127 < 4294967296)
    (all : (slot : ℕ) → lock.locks slot ≡ pos 0) (free : AllFree next) where
  unlock-here :
      inproc_unlock lock_write index (with_value index (negsuc 0) lock ∷ next)
      ≡ some (with_value index (pos 0) (with_value index (negsuc 0) lock) ∷ next)
  unfolding inproc_unlock increment
  unlock-here = ground (arith, from, to, small)

  free-here : AllFree (with_value index (pos 0) (with_value index (negsuc 0) lock) ∷ next)
  free-here = (small, λ slot. ground (arith, all slot), free)

  here-FreeAgain : FreeAgain index (with_value index (negsuc 0) lock ∷ next)
  here-FreeAgain = record { after = _; found = unlock-here; free = free-here }

  lock-here :
      lock_entry lock_write index lock next ≡ (succeeded, with_value index (negsuc 0) lock ∷ next)
  unfolding lock_entry take_lock
  lock-here = ground (arith, all (index - lock.startindex))

new-FreeAgain :
    (index : ℕ) (next : List LockNode)
    → index + 127 < 4294967296
    → AllFree next
    → FreeAgain index (lock_new true lock_write index next).1
unfolding lock_new lock_entry take_lock
new-FreeAgain index next small free =
    subst (λ (r : ℤ × List LockNode). FreeAgain index r.1)
      (sym (
        lock-here index (new_node index) next (omega arith) (omega arith) small (λ slot. refl)
          free))
      (here-FreeAgain index (new_node index) next (omega arith) (omega arith) small (λ slot. refl)
        free)

-- A lock behind the first structure.
later-FreeAgain :
    (index : ℕ) (lock : LockNode) (next table : List LockNode)
    → lock.startindex + 127 < index
    → lock.startindex + 127 < 4294967296
    → ((slot : ℕ) → lock.locks slot ≡ pos 0)
    → FreeAgain index table
    → FreeAgain index (lock ∷ table)
unfolding inproc_unlock
later-FreeAgain index lock next table behind small all f = record {
  after = lock ∷ f.after;
  found = ground (arith, behind, small, f.found);
  free = (small, all, f.free);
}

-- While no entry is locked, a write lock is given to an entry below 2^32 - 127, and its unlock
-- finds it and leaves no entry locked.
pub lock-FreeAgain :
    (index : ℕ) (table : List LockNode)
    → index + 127 < 4294967296
    → AllFree table
    → FreeAgain index (inproc_lock true lock_write index table).1
unfolding inproc_lock
lock-FreeAgain index [] small free = new-FreeAgain index [] small free
lock-FreeAgain index (lock ∷ next) small free = elim (dec_lt index lock.startindex) [
  | yes before ↦ rw (lt→ltb _ _ before) (new-FreeAgain index (lock ∷ next) small free)
  | no at ↦ elim (dec_lt 127 (index - lock.startindex)) [
    | yes behind ↦
        rw (not_before at, lt→ltb _ _ behind)
          (later-FreeAgain index lock next _ (omega arith) free.0 free.1
            (lock-FreeAgain index next small free.2))
    | no here ↦
        rw
          (
            not_before at,
            not_behind here,
            lock-here index lock next (omega arith) (omega arith) free.0 free.1 free.2,
          )
          (here-FreeAgain index lock next (omega arith) (omega arith) free.0 free.1 free.2)
  ]
]
  where
    not_before : ¬ (index < lock.startindex) → ltb index lock.startindex ≡ false
    not_before h = ground arith

    not_behind : ¬ (127 < index - lock.startindex) → ltb 127 (index - lock.startindex) ≡ false
    not_behind h = ground arith

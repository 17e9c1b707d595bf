-- ===== src/Log/Lock/Held.antt =====
-- What the locks say of each entry, while no two structures overlap.
use logdb.Prelude.{
  ℕ, ◌+◌, ◌-◌, ◌≤◌, ◌<◌, ◌≡◌, ◌≢◌, refl, ◌⊎◌, inl, inr, ℤ, pos, negsuc, succeeded, Bool, true, none,
  some, List, [], ◌∷◌, ltb, ◌==◌, if◌then◌else◌, arith, Option-cases, is_some,
}
use logdb.Log.Lock.{
  LockType, lock_write, LockNode, take_lock, taken, inproc_lock, release_lock, inproc_unlock,
}

-- The value of the entry `index`, as the next call that locks it will find it.
unfoldable pub held : List LockNode → ℕ → ℤ
held [] index = pos 0
held (lock ∷ next) index =
    if ltb index lock.startindex
    then pos 0
    else if ltb 127 (index - lock.startindex)
    then held next index
    else lock.locks (index - lock.startindex)

-- Every structure starts behind the 128 entries of the one before it, and its indices fit 32 bits.
abbrev pub Apart : ℕ → List LockNode → Type 0
Apart from [] = Unit {0}
Apart from (lock ∷ next) =
    (from ≤ lock.startindex)
    × (lock.startindex + 128 ≤ 4294967296)
    × Apart (lock.startindex + 128) next

-- The structure in which `index` is looked up is there, or has room for its 128 entries.
abbrev pub HasRoom : ℕ → List LockNode → Type 0
HasRoom index [] = Unit {0}
HasRoom index (lock ∷ next) =
    (index + 128 ≤ lock.startindex)
    ⊎ ((lock.startindex ≤ index) × ((index ≤ lock.startindex + 127) ⊎ HasRoom index next))

held-below :
    (from index : ℕ) (table : List LockNode)
    → Apart from table
    → index < from
    → held table index ≡ pos 0
unfolding held
held-below from index [] apart h = refl
held-below from index (lock ∷ next) apart h = ground arith

-- The value that a request leaves in an entry of value `v`.
unfoldable pub after_lock : LockType → ℤ → ℤ
after_lock type v = elim (take_lock type v) [ none ↦ v | some w ↦ w ]

pub inproc_lock-Apart :
    (type : LockType) (from index : ℕ) (table : List LockNode)
    → from ≤ index
    → index + 128 ≤ 4294967296
    → Apart from table
    → HasRoom index table
    → Apart from (inproc_lock true type index table).1
unfolding inproc_lock
inproc_lock-Apart type from index [] le fits apart room = ground arith
inproc_lock-Apart type from index (lock ∷ next) le fits apart room =
    ground (arith, inproc_lock-Apart type (lock.startindex + 128) index next)

-- While the structures do not overlap and there is room for the one of `index`, a request changes
-- the value of the entry `index` at most, and changes it as the request for its type does.
pub held-inproc_lock :
    (type : LockType) (from index j : ℕ) (table : List LockNode)
    → from ≤ index
    → Apart from table
    → HasRoom index table
    → held (inproc_lock true type index table).1 j
      ≡ (if j == index then after_lock type (held table index) else held table j)
unfolding inproc_lock held after_lock
held-inproc_lock type from index j [] le apart room = ground arith
held-inproc_lock type from index j (lock ∷ next) le apart room = ground (
  arith,
  held-inproc_lock type (lock.startindex + 128) index j next,
  held-below (lock.startindex + 128) j next,
  held-below lock.startindex j (lock ∷ next),
)

pub inproc_lock-code :
    (type : LockType) (index : ℕ) (table : List LockNode)
    → (inproc_lock true type index table).0
      ≡ (elim (take_lock type (held table index)) [ none ↦ taken | some v ↦ succeeded ])
unfolding inproc_lock held
inproc_lock-code type index [] = ground arith
inproc_lock-code type index (lock ∷ next) = ground (arith, inproc_lock-code type index next)

-- The lock for writing of a free entry, when there is memory.
pub held-locked :
    (index : ℕ) (table : List LockNode)
    → held table index ≡ pos 0
    → held (inproc_lock true lock_write index table).1 index ≡ negsuc 0
unfolding inproc_lock held take_lock
held-locked index [] free = ground arith
held-locked index (lock ∷ next) free = ground (arith, held-locked index next)

-- A request that is refused leaves the structures as they are, if the entry is not free.
pub inproc_lock-taken :
    (memory : Bool) (type : LockType) (index : ℕ) (table : List LockNode)
    → held table index ≢ pos 0
    → take_lock type (held table index) ≡ none
    → inproc_lock memory type index table ≡ (taken, table)
unfolding inproc_lock held
inproc_lock-taken memory type index [] busy e = absurd (busy refl)
inproc_lock-taken memory type index (lock ∷ next) busy e =
    ground (arith, inproc_lock-taken memory type index next)

-- An unlock of an entry that is locked finds its structure, and changes that entry alone.
module _ (type : LockType) (index : ℕ) {v : ℤ} where
  pub inproc_unlock-some :
      (from : ℕ) (table : List LockNode)
      → Apart from table
      → held table index ≢ pos 0
      → release_lock type (held table index) ≡ some v
      → is_some (inproc_unlock type index table) ≡ true
  unfolding inproc_unlock held
  inproc_unlock-some from [] apart busy e = ground arith
  inproc_unlock-some from (lock ∷ next) apart busy e =
      ground (arith, inproc_unlock-some (lock.startindex + 128) next)

  -- An unlock that finds its structure, among structures that do not overlap, gives the entry
  -- `index` the released value, changes no other entry, and leaves the structures apart.
  pub held-inproc_unlock :
      (from j : ℕ) (table : List LockNode) {table' : List LockNode}
      → Apart from table
      → release_lock type (held table index) ≡ some v
      → inproc_unlock type index table ≡ some table'
      → Apart from table' × (held table' j ≡ (if j == index then v else held table j))
  unfolding inproc_unlock held
  held-inproc_unlock from j [] apart e u = ground arith
  held-inproc_unlock from j (lock ∷ next) apart e u =
      elim (Option-cases (inproc_unlock type index next)) [
        | inl stuck ↦ ground arith
        | inr (rest, found) ↦ ground (
          arith,
          held-inproc_unlock (lock.startindex + 128) j next {table' = rest},
          held-below (lock.startindex + 128) j next,
        )
      ]

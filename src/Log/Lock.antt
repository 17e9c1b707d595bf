-- ===== src/Log/Lock.antt =====
-- The in-process locks of src/logdb_log.c: `logdb_log_lock_t`, the part of `logdb_log_lock` that
-- precedes the call of `fcntl`, and `logdb_log_inproc_unlock`. The linked structures are a list,
-- from `log->lock` on. One operation is one step of the model: its compare-and-exchange loops retry
-- until they act on the value that they read.
pub mod Exclusion
pub mod Free
pub mod Held
pub mod Overlap
use logdb.Prelude.{
  ℕ, zero, suc, ◌+◌, ◌-◌, ℤ, pos, negsuc, succeeded, failed, Bool, true, false, Option, none, some,
  List, [], ◌∷◌, ltb, ◌==◌, if◌then◌else◌, u32,
}

-- `logdb_log_lock_type`
pub data LockType : Type 0 where
  lock_none lock_read lock_write : LockType

-- `locks[128]` as a function of the index: 0 is free, a positive count is that many readers, -1 is
-- a writer.
pub record LockNode : Type 0 where
  pub startindex : ℕ
  pub locks : ℕ → ℤ

-- `calloc`
abbrev pub new_node : ℕ → LockNode
new_node index = record { startindex = index; locks = λ _. pos 0 }

abbrev pub update : (ℕ → ℤ) → ℕ → ℤ → ℕ → ℤ
update f i v j = if j == i then v else f j

-- `atomic_fetch_add (…, 1)` and `atomic_fetch_sub (…, 1)`
unfoldable pub increment : ℤ → ℤ
increment (pos n) = pos (suc n)
increment (negsuc zero) = pos 0
increment (negsuc (suc n)) = negsuc n

unfoldable pub decrement : ℤ → ℤ
decrement (pos zero) = negsuc 0
decrement (pos (suc n)) = pos n
decrement (negsuc n) = negsuc (suc n)

-- The new value of an entry if the lock can be taken: the tests of `tryagain2`.
unfoldable pub take_lock : LockType → ℤ → Option ℤ
take_lock lock_read (pos n) = some (pos (suc n))
take_lock lock_write (pos zero) = some (negsuc 0)
take_lock _ v = none

-- The results of `logdb_log_lock`: -1 no memory, -2 the entry is taken, -3 `fcntl` fails.
abbrev pub no_memory : ℤ
no_memory = failed

abbrev pub taken : ℤ
taken = negsuc 1

abbrev pub refused : ℤ
refused = negsuc 2

-- The structure is found: `tryagain2`.
lock_entry : LockType → ℕ → LockNode → List LockNode → ℤ × List LockNode
lock_entry type index lock next =
    let slot = index - lock.startindex in
    elim (take_lock type (lock.locks slot)) [
      | none ↦ (taken, lock ∷ next)
      | some v ↦ (succeeded, record lock { locks = update lock.locks slot v } ∷ next)
    ]

-- A new structure in front of `next`, if `calloc` gives one.
lock_new : Bool → LockType → ℕ → List LockNode → ℤ × List LockNode
unfolding lock_entry
lock_new memory type index next =
    if memory then lock_entry type index (new_node index) next else (no_memory, next)

-- `tryagain1`
unfoldable pub inproc_lock : Bool → LockType → ℕ → List LockNode → ℤ × List LockNode
unfolding lock_new lock_entry
inproc_lock memory type index [] = lock_new memory type index []
inproc_lock memory type index (lock ∷ next) =
    let (code, next') = inproc_lock memory type index next in
    if ltb index lock.startindex
    then lock_new memory type index (lock ∷ next)
    else if ltb 127 (index - lock.startindex)
    then (code, lock ∷ next')
    else lock_entry type index lock next

-- `logdb_log_inproc_unlock`; `none` is the call of `abort`, or a read through `NULL` or outside of
-- the array.
abbrev pub release_lock : LockType → ℤ → Option ℤ
release_lock lock_none v = none
release_lock lock_read v = some (decrement v)
release_lock lock_write v = some (increment v)

unfoldable pub inproc_unlock : LockType → ℕ → List LockNode → Option (List LockNode)
inproc_unlock type index [] = none
inproc_unlock type index (lock ∷ next) =
    let rest = inproc_unlock type index next in
    let slot = index - lock.startindex in
    if ltb (u32 (lock.startindex + 127)) index
    then elim rest [ none ↦ none | some next' ↦ some (lock ∷ next') ]
    else if ltb index lock.startindex
    then none
    else elim (release_lock type (lock.locks slot)) [
      | none ↦ none
      | some v ↦ some (record lock { locks = update lock.locks slot v } ∷ next)
    ]

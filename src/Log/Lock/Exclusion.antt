-- ===== src/Log/Lock/Exclusion.antt =====
-- The threads of a process that lock and unlock entries, in any order.
use logdb.Prelude.{
  ℕ, ◌+◌, ◌-◌, ◌≤◌, ◌<◌, ◌≡◌, ◌≢◌, refl, sym, subst, ℤ, pos, negsuc, succeeded, Bool, true, false,
  none, some, List, [], ◌==◌, if◌then◌else◌, arith, is_zero, is_some, ◌⊎◌,
}
use logdb.Log.Lock.{
  LockType, lock_read, lock_write, LockNode, increment, decrement, take_lock, inproc_lock,
  inproc_unlock, taken, lock_none,
}
use logdb.Log.Lock.Held.{
  held, Apart, HasRoom, after_lock, inproc_lock-Apart, held-inproc_lock, inproc_lock-code,
  inproc_unlock-some, held-inproc_unlock,
}

-- The structures, and how many threads hold each entry.
pub record Locked : Type 0 where
  pub table : List LockNode
  pub readers : ℕ → ℕ
  pub writers : ℕ → ℕ

abbrev pub bump : ℕ → (ℕ → ℕ) → ℕ → ℕ
bump i f j = if j == i then f j + 1 else f j

abbrev pub drop_one : ℕ → (ℕ → ℕ) → ℕ → ℕ
drop_one i f j = if j == i then f j - 1 else f j

abbrev pub got_read : LockType → ℤ → Bool
got_read lock_read code = is_zero code
got_read _ code = false

abbrev pub got_write : LockType → ℤ → Bool
got_write lock_write code = is_zero code
got_write _ code = false

-- A thread asks for a lock: it holds the lock afterwards if the call returns 0.
abbrev pub request : LockType → ℕ → Locked → Locked
request type index s =
    let (code, table) = inproc_lock true type index s.table in
    record {
      table = table;
      readers = if got_read type code then bump index s.readers else s.readers;
      writers = if got_write type code then bump index s.writers else s.writers;
    }

pub data Step : Locked → Locked → Type 0 where
  lock :
      {s : Locked} (type : LockType) (index : ℕ)
      → index + 128 ≤ 4294967296
      → HasRoom index s.table
      → Step s (request type index s)
  unlock_read :
      {s : Locked} (index : ℕ) {table : List LockNode}
      → 0 < s.readers index
      → inproc_unlock lock_read index s.table ≡ some table
      → Step s (record s { table = table; readers = drop_one index s.readers })
  unlock_write :
      {s : Locked} (index : ℕ) {table : List LockNode}
      → 0 < s.writers index
      → inproc_unlock lock_write index s.table ≡ some table
      → Step s (record s { table = table; writers = drop_one index s.writers })

abbrev pub no_locks : Locked
no_locks = record { table = []; readers = λ _. 0; writers = λ _. 0 }

pub data Reach : Locked → Type 0 where
  start : Reach no_locks
  later : {s t : Locked} → Reach s → Step s t → Reach t

-- The value of an entry tells who holds it.
abbrev pub Tally : ℤ → ℕ → ℕ → Type 0
Tally (pos n) readers writers = (n ≡ readers) × (writers ≡ 0)
Tally (negsuc n) readers writers = (n ≡ 0) × (readers ≡ 0) × (writers ≡ 1)

pub record Inv (s : Locked) : Type 0 where
  pub apart : Apart 0 s.table
  pub tally : (j : ℕ) → Tally (held s.table j) (s.readers j) (s.writers j)

-- The entry that is asked for, and the others, in terms of the value that was found.
module _ (type : LockType) (index j : ℕ) (s : Locked) where
  granted :
      (code v w : ℤ)
      → code ≡ (elim (take_lock type v) [ none ↦ taken | some x ↦ succeeded ])
      → Tally v (s.readers index) (s.writers index)
      → Tally w (s.readers j) (s.writers j)
      → Tally
          (if j == index then after_lock type v else w)
          ((if got_read type code then bump index s.readers else s.readers) j)
          ((if got_write type code then bump index s.writers else s.writers) j)
  unfolding after_lock take_lock
  granted code v w c t u = ground arith

request-Tally :
    (type : LockType) (index : ℕ) (s : Locked)
    → Inv s
    → HasRoom index s.table
    → (j : ℕ) → let t = request type index s in Tally (held t.table j) (t.readers j) (t.writers j)
unfolding after_lock take_lock
request-Tally type index s inv room j =
    let e = held-inproc_lock type 0 index j s.table (omega arith) inv.apart room in
    subst (λ v. Tally v ((request type index s).readers j) ((request type index s).writers j))
      (sym e)
      (granted type index j s _ (held s.table index) (held s.table j)
        (inproc_lock-code type index s.table) (inv.tally index) (inv.tally j))

-- The entry that is given back, and the others.
module _ (index j : ℕ) (s : Locked) where
  read_back :
      (v w : ℤ)
      → 0 < s.readers index
      → Tally v (s.readers index) (s.writers index)
      → Tally w (s.readers j) (s.writers j)
      → Tally (if j == index then decrement v else w) (drop_one index s.readers j) (s.writers j)
  unfolding decrement
  read_back v w some_reader t u = ground arith

  write_back :
      (v w : ℤ)
      → 0 < s.writers index
      → Tally v (s.readers index) (s.writers index)
      → Tally w (s.readers j) (s.writers j)
      → Tally (if j == index then increment v else w) (s.readers j) (drop_one index s.writers j)
  unfolding increment
  write_back v w some_writer t u = ground arith

Step-Inv : {s t : Locked} → Step s t → Inv s → Inv t
Step-Inv (lock {s} type index fits room) inv = record {
  apart = inproc_lock-Apart type 0 index s.table (omega arith) fits inv.apart room;
  tally = request-Tally type index s inv room;
}
Step-Inv (unlock_read {s} index some_reader e) inv =
    let back = λ (j : ℕ). held-inproc_unlock lock_read index 0 j s.table inv.apart refl e in
    record {
      apart = (back 0).0;
      tally = λ j.
          rw ((back j).1) (read_back index j s _ _ some_reader (inv.tally index) (inv.tally j));
    }
Step-Inv (unlock_write {s} index some_writer e) inv =
    let back = λ (j : ℕ). held-inproc_unlock lock_write index 0 j s.table inv.apart refl e in
    record {
      apart = (back 0).0;
      tally = λ j.
          rw ((back j).1) (write_back index j s _ _ some_writer (inv.tally index) (inv.tally j));
    }

Reach-Inv : {s : Locked} → Reach s → Inv s
unfolding held
Reach-Inv start = record { apart = tt; tally = λ j. (refl, refl) }
Reach-Inv (later r st) = Step-Inv st (Reach-Inv r)

-- While every request finds room for its structure, after any sequence of locks and unlocks by
-- threads that hold what they unlock, an entry has at most one writer, and no writer and reader
-- at once.
pub exclusion :
    {s : Locked} → Reach s → (j : ℕ) → (s.writers j ≤ 1) × ((s.writers j ≡ 0) ⊎ (s.readers j ≡ 0))
exclusion {s} r j = exclusive (held s.table j) _ _ ((Reach-Inv r).tally j)
  where
    exclusive : (v : ℤ) (n m : ℕ) → Tally v n m → (m ≤ 1) × ((m ≡ 0) ⊎ (n ≡ 0))
    exclusive v n m t = ground arith

busy : (v : ℤ) (n m : ℕ) → Tally v n m → 0 < n + m → v ≢ pos 0
busy v n m t h e = ground arith

-- How many threads hold the entry by locks of this type.
abbrev pub holders : LockType → Locked → ℕ → ℕ
holders lock_none s index = 0
holders lock_read s index = s.readers index
holders lock_write s index = s.writers index

-- While every request finds room for its structure, a thread that holds a lock can give it back:
-- `logdb_log_inproc_unlock` finds the structure, and neither runs off the list nor off the array.
pub unlock_finds :
    {s : Locked}
    → Reach s
    → (type : LockType) (index : ℕ) → 0 < holders type s index
    → is_some (inproc_unlock type index s.table) ≡ true
unlock_finds r lock_none index h = absurd (omega arith)
unlock_finds {s} r lock_read index h =
    let inv = Reach-Inv r in
    inproc_unlock-some lock_read index 0 s.table inv.apart
      (busy _ _ _ (inv.tally index) (omega arith)) refl
unlock_finds {s} r lock_write index h =
    let inv = Reach-Inv r in
    inproc_unlock-some lock_write index 0 s.table inv.apart
      (busy _ _ _ (inv.tally index) (omega arith)) refl

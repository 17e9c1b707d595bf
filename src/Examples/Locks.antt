-- ===== src/Examples/Locks.antt =====
-- The theorems on the in-process locks, on two entries.
use logdb.Prelude.{
  ◌<◌, ◌≤◌, ◌≡◌, ◌⊎◌, refl, pos, succeeded, true, some, List, [], ◌∷◌, ◌==◌, if◌then◌else◌, arith,
  is_some,
}
use logdb.Log.Lock.{
  lock_read, lock_write, LockNode, inproc_lock, inproc_unlock, take_lock, decrement,
}
use logdb.Log.Lock.Held.{held, Apart, after_lock, held-inproc_lock, held-inproc_unlock}
use logdb.Log.Lock.Exclusion.{
  Locked, lock, Reach, start, later, no_locks, request, holders, exclusion, unlock_finds,
}
use logdb.Log.Lock.Overlap.{two_writers}

-- One thread has locked the entry 7 for writing.
abbrev one_writer : Locked
one_writer = request lock_write 7 no_locks

one_writer-Reach : Reach one_writer
one_writer-Reach = later start (lock lock_write 7 (omega arith) tt)

exclusion_example :
    (one_writer.writers 7 ≤ 1) × ((one_writer.writers 7 ≡ 0) ⊎ (one_writer.readers 7 ≡ 0))
exclusion_example = exclusion one_writer-Reach 7

one_writer-holders : 0 < holders lock_write one_writer 7
unfolding inproc_lock take_lock
one_writer-holders = omega arith

unlock_finds_example : is_some (inproc_unlock lock_write 7 one_writer.table) ≡ true
unlock_finds_example = unlock_finds one_writer-Reach lock_write 7 one_writer-holders

held-inproc_lock_example :
    held (inproc_lock true lock_read 7 []).1 7
    ≡ (if 7 == 7 then after_lock lock_read (held [] 7) else held [] 7)
held-inproc_lock_example = held-inproc_lock lock_read 0 7 7 [] (omega arith) tt tt

-- A structure whose second entry has a reader.
abbrev one_reader : List LockNode
one_reader = record { startindex = 7; locks = λ i. if i == 1 then pos 1 else pos 0 } ∷ []

abbrev no_reader : List LockNode
no_reader =
    record {
      startindex = 7;
      locks = λ j. if j == 1 then pos 0 else if j == 1 then pos 1 else pos 0;
    }
    ∷ []

reader_unlocks : inproc_unlock lock_read 8 one_reader ≡ some no_reader
unfolding inproc_unlock decrement
reader_unlocks = refl

reader_held : held one_reader 8 ≡ pos 1
unfolding held
reader_held = refl

held-inproc_unlock_example :
    Apart 0 no_reader × (held no_reader 8 ≡ (if 8 == 8 then pos 0 else held one_reader 8))
unfolding decrement
held-inproc_unlock_example =
    held-inproc_unlock lock_read 8 0 8 one_reader (omega arith, omega arith, tt)
      (rw reader_held refl) reader_unlocks

two_writers_example :
    let (first, table) = inproc_lock true lock_write 5 [] in
    let (second, table') = inproc_lock true lock_write 3 table in
    let (third, table'') = inproc_lock true lock_write 5 table' in
    (first ≡ succeeded) × (second ≡ succeeded) × (third ≡ succeeded)
two_writers_example = two_writers 3 5 (omega arith) (omega arith)

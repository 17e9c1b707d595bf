-- ===== src/Log/Lock/Overlap.antt =====
-- Structures that overlap: `logdb_log_lock` puts a new structure in front of a later one without a
-- look at where the later one starts.
use logdb.Prelude.{ℕ, ◌+◌, ◌≤◌, ◌<◌, ◌≡◌, succeeded, true, [], arith}
use logdb.Log.Lock.{lock_write, inproc_lock, take_lock}

-- After a write lock on one entry and a write lock on an entry before it, less than 128 away, the
-- first entry is locked for writing a second time, with no unlock in between.
pub two_writers :
    (early late : ℕ)
    → early < late
    → late ≤ early + 127
    → let (first, table) = inproc_lock true lock_write late [] in
      let (second, table') = inproc_lock true lock_write early table in
      let (third, table'') = inproc_lock true lock_write late table' in
      (first ≡ succeeded) × (second ≡ succeeded) × (third ≡ succeeded)
unfolding inproc_lock take_lock
two_writers early late before near = ground arith

-- ===== src/Lease/Faults.antt =====
-- Faults of `logdb_lease_acquire_write` that need no interference in the middle of a round: a lock
-- that is not given back, a walk that does not get past two locked entries, and a failed `write`.
use logdb.Prelude.{
  ℕ, zero, suc, ◌+◌, ◌-◌, ◌≤◌, ◌<◌, ◌≡◌, ◌≢◌, refl, ap, subst, ◌∙◌, ℤ, pos, negsuc, true, Option,
  none, some, [], ◌∷◌, arith,
}
use logdb.File.{write_at}
use logdb.Io.{Fd, error}
use logdb.Log.Layout.{section_size, log_offset, log_offset-suc, index_from_offset}
use logdb.Log.Lock.{lock_write, inproc_lock, take_lock, taken}
use logdb.Log.Lock.Held.{held, Apart, HasRoom, held-inproc_lock, after_lock, inproc_lock-taken}
use logdb.Connection.{Conn}
use logdb.Connection.Locking.{log_lock}
use logdb.Lease.{read_entry_space}
use logdb.Lease.Grant.{
  Walked, walk, Chosen, sys_append, append_entry, choose, confirm, looping, acquire_loop,
  acquire_write,
}
use logdb.Lease.Walk.{HasSpace, IsFull, walk-hit, read_entry_space-none, read_entry_space-room}
use logdb.Lease.Acquire.{log_lock-free, acquire_write-loop}
use logdb.Lease.Choose.{IsLog, index_of_end, log_offset_mono, at_end, choose-found}

-- If the chosen section has filled up before its lock is taken, the second look fails, and the
-- entry, which was free, stays locked for writing when the loop goes back to `walk`.
pub confirm-full :
    (ch : Chosen) (size : ℕ) (c : Conn)
    → c.log.script ≡ []
    → c.memory ≡ true
    → Apart 0 c.locks
    → HasRoom ch.index c.locks
    → held c.locks ch.index ≡ pos 0
    → log_offset ch.index + 2 ≤ c.log.file.size
    → IsFull c.log.file size ch.index
    → let (lease, c') = confirm ch size c in (lease ≡ none) × (held c'.locks ch.index ≡ negsuc 0)
unfolding confirm
confirm-full ch size c quiet memory apart room free inside full =
    let looked = read_entry_space-none ch.index size c.log quiet inside full in
    let l = log_lock-free ch.index size c quiet memory free in ground (arith, l, looked, locked)
  where
    locked : held (inproc_lock true lock_write ch.index c.locks).1 ch.index ≡ negsuc 0
    locked =
        unfold after_lock take_lock in
        ground
          (arith, held-inproc_lock lock_write 0 ch.index ch.index c.locks (omega arith) apart room)

-- Two entries with room at the end of the log, both locked by others.
pub record BothTaken (m size : ℕ) (c : Conn) : Type 0 where
  pub log : IsLog (suc (suc m)) c.log
  pub len : ℕ
  pub space : HasSpace c.log.file m size len
  pub last_len : ℕ
  pub last_space : HasSpace c.log.file (suc m) size last_len
  pub busy : held c.locks m ≢ pos 0
  pub last_busy : held c.locks (suc m) ≢ pos 0

-- One round finds the entry before the last `visited`, and does not get its lock.
module _ (index size : ℕ) (c : Conn) where
  log_lock-busy : held c.locks index ≢ pos 0 → log_lock lock_write index c ≡ (taken, c)
  unfolding log_lock take_lock
  log_lock-busy busy = ground (
    arith,
    inproc_lock-taken c.memory lock_write index c.locks busy (none_taken (held c.locks index) busy),
  )
    where
      none_taken : (v : ℤ) → v ≢ pos 0 → take_lock lock_write v ≡ none
      none_taken v h = ground arith

  confirm-busy :
      (offset visited : ℕ)
      → held c.locks index ≢ pos 0
      → confirm (record { index = index; offset = offset; visited = visited }) size c ≡ (none, c)
  unfolding confirm
  confirm-busy offset visited busy = rw (log_lock-busy busy)

-- The round that starts behind the entry `top`, which has room.
module _ (top visited size len : ℕ) (log : Fd) where
  choose-top :
      IsLog (suc top + visited) log
      → HasSpace log.file top size len
      → choose visited size log
        ≡ (some (record { index = top; offset = len; visited = 1 }), at_end log)
  choose-top is space =
      choose-found (suc top + visited) visited size log is (omega arith) top len
        (ap (λ (w : Walked). w.found) hit)
      ∙ rw hit
    where
      there : log_offset top + 2 ≤ log.file.size
      there = omega (
        arith,
        is.size,
        log_offset-suc top,
        log_offset_mono (suc top) (suc top + visited) (omega arith),
      )

      looked : read_entry_space top size (at_end log) ≡ (some len, at_end log)
      looked = read_entry_space-room top size (at_end log) is.quiet there len space

      hit :
          walk (suc top + visited - visited) 0 size (at_end log)
          ≡ record { found = some (top, len); visited = 1; log = at_end log }
      hit =
          ap (λ t. walk t 0 size (at_end log)) (back (suc top) visited)
          ∙ walk-hit top 0 size (at_end log) len (omega arith)
              (ap (λ (r : Option ℕ × Fd). r.0) looked)
          ∙ ap (λ (r : Option ℕ × Fd). record { found = some (top, len); visited = 1; log = r.1 })
              looked
        where
          back : (a b : ℕ) → a + b - b ≡ a
          back a b = omega arith

-- The round does not get the lock, and the loop goes on.
acquire_loop-busy :
    (rounds top visited size len : ℕ) (c : Conn)
    → IsLog (suc top + visited) c.log
    → HasSpace c.log.file top size len
    → held c.locks top ≢ pos 0
    → acquire_loop (suc rounds) [] visited size c
      ≡ acquire_loop rounds [] 1 size (record c { log = at_end c.log })
acquire_loop-busy rounds top visited size len c is space busy =
    let chosen = choose-top top visited size len c.log is space in
    let c' = record c { log = at_end c.log } in
    let fails = confirm-busy top size c' len 1 busy in
    unfold acquire_loop in ground (arith, chosen, fails)

two : (m : ℕ) → suc (suc m) ≡ suc m + 1
two m = omega arith

rewound : (m : ℕ) (log : Fd) → IsLog (suc (suc m)) log → IsLog (suc (suc m)) (at_end log)
rewound m log is = record { size = is.size; few = is.few; quiet = is.quiet }

-- The second of the two entries is tried over and over.
second_taken :
    (rounds m size len : ℕ) (c : Conn)
    → IsLog (suc (suc m)) c.log
    → HasSpace c.log.file m size len
    → held c.locks m ≢ pos 0
    → ((acquire_loop rounds [] 1 size c).0 ≡ looping)
      × ((acquire_loop rounds [] 1 size c).1.log.file ≡ c.log.file)
second_taken zero m size len c is space busy = unfold acquire_loop in (refl, refl)
second_taken (suc rounds) m size len c is space busy =
    rw (acquire_loop-busy rounds m 1 size len c (subst (λ k. IsLog k c.log) (two m) is) space busy)
      (second_taken rounds m size len (record c { log = at_end c.log }) (rewound m c.log is) space
        busy)

-- With two entries with room at the end of the log, both held by others, a size that fits a
-- section, room for a read lock, nobody else at work and no call failing, the loop neither leases
-- nor fails, however many rounds it is given, and the log file stays as it is: no entry is
-- appended.
pub acquire_write-loops :
    (rounds m size : ℕ) (c : Conn)
    → size ≤ section_size
    → c.readers < c.max_readers
    → BothTaken m size c
    → ((acquire_write rounds [] size c).0 ≡ looping)
      × ((acquire_write rounds [] size c).1.log.file ≡ c.log.file)
acquire_write-loops rounds m size c fits room both =
    rw (acquire_write-loop rounds [] size c fits room) (from_start rounds)
  where
    locked : Conn
    locked = record c { readers = c.readers + 1 }

    none_visited : (k : ℕ) → k ≡ k + 0
    none_visited k = omega arith

    from_start :
        (k : ℕ)
        → ((acquire_loop k [] 0 size locked).0 ≡ looping)
          × ((acquire_loop k [] 0 size locked).1.log.file ≡ c.log.file)
    from_start zero = unfold acquire_loop in (refl, refl)
    from_start (suc k) =
        rw
          (acquire_loop-busy k (suc m) 0 size both.last_len locked
            (subst (λ t. IsLog t c.log) (none_visited (suc (suc m))) both.log) both.last_space
            both.last_busy)
          (second_taken k m size both.len (record locked { log = at_end c.log })
            (rewound m c.log both.log) both.space both.busy)

-- After a failing `write` at the end of a log with entries, nothing is appended, and the last
-- entry is chosen at offset 0, as if it were new.
pub append_entry-failing :
    (n : ℕ) (log : Fd)
    → log.file.size ≡ log_offset (suc n)
    → suc n < 4294967296
    → log.pos ≡ log.file.size
    → log.script ≡ error ∷ []
    → append_entry log
      ≡ (some (record { index = n; offset = 0; visited = 1 }), record log { script = [] })
unfolding append_entry sys_append write_at
append_entry-failing n log size few at_its_end script =
    let e = index_of_end (suc n) few in ground (arith, e, ap index_from_offset (at_its_end ∙ size))

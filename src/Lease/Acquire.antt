-- ===== src/Lease/Acquire.antt =====
-- `logdb_lease_acquire_write` when no other thread or process interferes and no call fails.
use logdb.Prelude.{
  ℕ, suc, ◌+◌, ◌-◌, ◌≤◌, ◌<◌, ◌≡◌, refl, subst, pos, negsuc, succeeded, true, some, List, [], arith,
}
use logdb.Log.Layout.{section_size, log_offset}
use logdb.Log.Lock.{lock_write, inproc_lock, take_lock}
use logdb.Log.Lock.Held.{held, inproc_lock-code, held-locked}
use logdb.Connection.{Conn}
use logdb.Connection.Locking.{log_lock, rdlock}
use logdb.Lease.{Lease}
use logdb.Lease.Grant.{
  Chosen, choose, confirm, Acquired, leased, others_now, acquire_loop, acquire_write,
}
use logdb.Lease.Choose.{IsLog, Choice, choose-quiet}
use logdb.Lease.Walk.{HasSpace, read_entry_space-room}

-- The lock of an entry that nobody holds.
module _ (index size : ℕ) (c : Conn) where
  pub log_lock-free :
      c.log.script ≡ []
      → c.memory ≡ true
      → held c.locks index ≡ pos 0
      → log_lock lock_write index c
        ≡ (succeeded, record c { locks = (inproc_lock true lock_write index c.locks).1 })
  unfolding log_lock take_lock
  log_lock-free quiet memory free = ground (arith, inproc_lock-code lock_write index c.locks)

  pub confirm-free :
      (offset visited len : ℕ)
      → c.log.script ≡ []
      → c.memory ≡ true
      → held c.locks index ≡ pos 0
      → log_offset index + 2 ≤ c.log.file.size
      → HasSpace c.log.file index size len
      → confirm (record { index = index; offset = offset; visited = visited }) size c ≡ (
        some (record { index = index; offset = offset; len = size; type = lock_write }),
        record c { locks = (inproc_lock true lock_write index c.locks).1 },
      )
  unfolding confirm
  confirm-free offset visited len quiet memory free inside space =
      let looked = read_entry_space-room index size c.log quiet inside len space in
      ground (arith, log_lock-free quiet memory free, looked)

-- The lease that is granted, and the connection afterwards.
pub record Granted (n size : ℕ) (c : Conn) (out : Acquired × Conn) : Type 0 where
  pub lease : Lease
  pub result : out.0 ≡ leased lease
  pub len : lease.len ≡ size
  pub type : lease.type ≡ lock_write
  pub choice : Choice n n size c.log lease.index lease.offset out.1.log
  pub locks : out.1.locks ≡ (inproc_lock true lock_write lease.index c.locks).1
  pub locked : held out.1.locks lease.index ≡ negsuc 0
  pub db : out.1.db ≡ c.db
  pub readers : out.1.readers ≡ c.readers + 1
  pub max_readers : out.1.max_readers ≡ c.max_readers
  pub memory : out.1.memory ≡ c.memory
  pub nosync : out.1.nosync ≡ c.nosync
  pub aborted : out.1.aborted ≡ c.aborted

module _ (rounds : ℕ) (others : List (Conn → Conn)) (visited size : ℕ) (c : Conn) where
  -- The connection when the section is chosen.
  abbrev pub after_choice : Conn
  after_choice = record c { log = (choose visited size c.log).1 }

  pub acquire_loop-leased :
      (ch : Chosen) (l : Lease) (c' : Conn)
      → (choose visited size c.log).0 ≡ some ch
      → confirm ch size (others_now others after_choice) ≡ (some l, c')
      → acquire_loop (suc rounds) others visited size c ≡ (leased l, c')
  unfolding acquire_loop
  acquire_loop-leased ch l c' chosen confirmed = ground arith

pub acquire_write-loop :
    (rounds : ℕ) (others : List (Conn → Conn)) (size : ℕ) (c : Conn)
    → size ≤ section_size
    → c.readers < c.max_readers
    → acquire_write rounds others size c
      ≡ acquire_loop rounds others 0 size (record c { readers = c.readers + 1 })
unfolding acquire_write rdlock
acquire_write-loop rounds others size c fits room = ground arith

-- With a well-formed log, nobody else at work, no call failing, no lock held, room for a read
-- lock and memory, the first round leases for a size up to 2^16: the last of the four last
-- entries that has room, or a new entry of length 0 if those are full. The lease starts behind
-- the valid bytes of its section and has the length asked for. Afterwards its entry is locked for
-- writing, and the structures of the locks are those that the request for this lock leaves.
-- The other entries of the log stay.
pub acquire_write-Granted :
    (rounds n size : ℕ) (c : Conn)
    → IsLog n c.log
    → size ≤ section_size
    → c.readers < c.max_readers
    → c.memory ≡ true
    → ((j : ℕ) → held c.locks j ≡ pos 0)
    → Granted n size c (acquire_write (suc rounds) [] size c)
acquire_write-Granted rounds n size c is fits room memory free =
    let q = choose-quiet n 0 size c.log is (omega arith) fits in
    let ch = q.chosen in
    let locked = record c { readers = c.readers + 1 } in
    let chosen = after_choice rounds [] 0 size locked in
    let confirmed =
      confirm-free ch.index size chosen ch.offset ch.visited ch.offset q.choice.quiet memory
        (free ch.index) q.choice.inside q.choice.space in
    rw
      (
        acquire_write-loop (suc rounds) [] size c fits room,
        acquire_loop-leased rounds [] 0 size locked ch _ _ q.found confirmed,
      )
      (record {
        lease = record { index = ch.index; offset = ch.offset; len = size; type = lock_write };
        result = refl;
        len = refl;
        type = refl;
        choice =
            subst (λ m. Choice n m size c.log ch.index ch.offset (choose 0 size c.log).1)
              (sub_zero n) q.choice;
        locks = refl;
        locked = held-locked ch.index c.locks (free ch.index);
        db = refl;
        readers = refl;
        max_readers = refl;
        memory = refl;
        nosync = refl;
        aborted = refl;
      })
  where
    sub_zero : (m : ℕ) → m - 0 ≡ m
    sub_zero m = omega arith

-- ===== src/Lease/Races.antt =====
-- `logdb_lease_acquire_write` when others are at work between the choice of a section and its lock,
-- or when the `write` of a new entry fails.
use logdb.Prelude.{
  ℕ, suc, ◌+◌, ◌-◌, ◌≤◌, ◌<◌, ◌≡◌, sym, ap, subst, ◌∙◌, ◌⊎◌, pos, true, some, List, [], ◌∷◌, arith,
  inl, inr,
}
use native.Mathlib.Decide.{dec_lt}
use native.Mathlib.Nat.{le_trans}
use logdb.File.{File, write_at}
use logdb.File.Laws.{size-le-write_at}
use logdb.Io.{Fd}
use logdb.Log.Layout.{section_size, log_offset, encode16}
use logdb.Log.Lock.{lock_write, inproc_lock}
use logdb.Log.Lock.Held.{held}
use logdb.Log.Entry.{entry_at}
use logdb.Log.Entry.Laws.{entry_at-write_at}
use logdb.Connection.{Conn}
use logdb.Lease.{Lease}
use logdb.Lease.Grant.{Chosen, choose, confirm, leased, acquire_write}
use logdb.Lease.Walk.{HasSpace, IsFull}
use logdb.Lease.Acquire.{after_choice, acquire_loop-leased, acquire_write-loop, confirm-free}
use logdb.Lease.Choose.{IsLog, Choice, ChosenQuietly, choose-quiet}

-- Another writer makes `now` bytes of the section `index` valid.
abbrev pub commit_elsewhere : ℕ → ℕ → Conn → Conn
commit_elsewhere index now c = record c {
  log = record c.log { file = write_at (log_offset index) (encode16 now) c.log.file };
}

-- The last entry, if it has room, is the one that is chosen.
not-IsFull : (f : File) (i size len : ℕ) → HasSpace f i size len → ¬ IsFull f size i
not-IsFull f i size len space (n, e, h) = ground (arith, space.entry, space.room)

last_is_chosen :
    (m size old : ℕ) (log log' : Fd) (index offset : ℕ)
    → Choice (suc m) (suc m) size log index offset log'
    → HasSpace log.file m size old
    → (index ≡ m) × (offset ≡ old) × (log'.file ≡ log.file)
last_is_chosen m size old log log' index offset choice space = go choice.last
  where
    same_entry : index ≡ m → log'.file ≡ log.file → offset ≡ old
    same_entry p q = cc (
        sym choice.space.entry
        ∙ ap (λ (f : File). entry_at f index) q
        ∙ ap (entry_at log.file) p
        ∙ space.entry)

    last : index < suc m → (index < m → IsFull log.file size m) → index ≡ m
    last below full = elim (dec_lt index m) [
      | yes before ↦ absurd (not-IsFull log.file m size old space (full before))
      | no after ↦ omega arith
    ]

    go :
        ((index < suc m)
            × (suc m ≤ index + 4)
            × (log'.file ≡ log.file)
            × ((j : ℕ) → index < j → j < suc m → IsFull log.file size j))
          ⊎ ((index ≡ suc m)
              × (offset ≡ 0)
              × ((j : ℕ) → j < suc m → suc m ≤ j + 4 → IsFull log.file size j))
        → (index ≡ m) × (offset ≡ old) × (log'.file ≡ log.file)
    go (inl (below, _, same, later)) =
        let e = last below (λ h. later m h (omega arith)) in (e, same_entry e same, same)
    go (inr (new, zero_offset, full)) =
        absurd (not-IsFull log.file m size old space (full m (omega arith) (omega arith)))

-- If the last entry has room and another writer makes more bytes of its section valid between the
-- choice of the section and its lock, leaving room for the size, then the lease that is granted
-- starts at the old offset, inside of the bytes that are valid now.
pub stale_offset :
    (rounds m size old now : ℕ) (c : Conn)
    → IsLog (suc m) c.log
    → HasSpace c.log.file m size old
    → old < now
    → now + size ≤ section_size
    → 0 < size
    → c.readers < c.max_readers
    → c.memory ≡ true
    → held c.locks m ≡ pos 0
    → let (out, c') = acquire_write (suc rounds) (commit_elsewhere m now ∷ []) size c in
      (out ≡ leased (record { index = m; offset = old; len = size; type = lock_write }))
      × (entry_at c'.log.file m ≡ some now)
stale_offset rounds m size old now c is space more fits some_bytes room memory free =
    rw (acquire_write-loop (suc rounds) others size c (omega arith) room) (
      rw (acquire_loop-leased rounds others 0 size locked ch _ _ q.found confirmed)
        (ap leased same_lease, entry_now))
  where
    others : List (Conn → Conn)
    others = commit_elsewhere m now ∷ []

    locked : Conn
    locked = record c { readers = c.readers + 1 }

    q : ChosenQuietly (suc m) 0 size c.log (choose 0 size c.log)
    q = choose-quiet (suc m) 0 size c.log is (omega arith) (omega arith)

    ch : Chosen
    ch = q.chosen

    choice : Choice (suc m) (suc m) size c.log ch.index ch.offset (choose 0 size c.log).1
    choice =
        subst (λ t. Choice (suc m) t size c.log ch.index ch.offset (choose 0 size c.log).1)
          (sub_zero (suc m)) q.choice
      where
        sub_zero : (k : ℕ) → k - 0 ≡ k
        sub_zero k = omega arith

    same : (ch.index ≡ m) × (ch.offset ≡ old) × ((choose 0 size c.log).1.file ≡ c.log.file)
    same = last_is_chosen m size old c.log _ ch.index ch.offset choice space

    chosen : Conn
    chosen = commit_elsewhere m now (after_choice rounds others 0 size locked)

    inside : log_offset m + 2 ≤ (choose 0 size c.log).1.file.size
    inside = subst (λ i. log_offset i + 2 ≤ (choose 0 size c.log).1.file.size) same.0 choice.inside

    entry_now : entry_at chosen.log.file m ≡ some now
    entry_now = entry_at-write_at (choose 0 size c.log).1.file m m now inside ∙ ground arith

    confirmed : confirm ch size chosen ≡ (
      some (record { index = ch.index; offset = ch.offset; len = size; type = lock_write }),
      record chosen { locks = (inproc_lock true lock_write ch.index chosen.locks).1 },
    )
    confirmed =
        confirm-free ch.index size chosen ch.offset ch.visited now choice.quiet memory
          (ap (held c.locks) same.0 ∙ free)
          (rw same.0 (le_trans inside (size-le-write_at (log_offset m) (encode16 now) _)))
          (record { entry = ap (entry_at chosen.log.file) same.0 ∙ entry_now; room = omega arith })

    same_lease :
        ◌≡◌ {A = Lease}
          (record { index = ch.index; offset = ch.offset; len = size; type = lock_write })
          (record { index = m; offset = old; len = size; type = lock_write })
    same_lease = λ i. record { index = same.0 i; offset = same.1 i; len = size; type = lock_write }

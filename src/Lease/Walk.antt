-- ===== src/Lease/Walk.antt =====
-- The walk over the last entries of the log, in `logdb_lease_acquire_write`.
use logdb.Prelude.{
  ℕ, zero, suc, ◌+◌, ◌-◌, ◌≤◌, ◌<◌, ◌≡◌, refl, ap, Option, none, some, [], le→leb, arith,
  Option-cases, inl, inr,
}
use native.Mathlib.Decide.{dec_lt}
use logdb.File.{File}
use logdb.Io.{Fd}
use logdb.Log.Layout.{section_size, log_offset, log_offset-suc}
use logdb.Log.Entry.{entry_at}
use logdb.Log.Entry.Laws.{
  log_read_entry_sound, file-log_read_entry, log_read_entry-there, entry_at-IsSome,
}
use logdb.Lease.{read_entry_space}
use logdb.Lease.Grant.{max_walk, Walked, walk}

-- The log has an entry of `len` bytes, with room for `size` more in its section.
pub record HasSpace (f : File) (index size len : ℕ) : Type 0 where
  pub entry : entry_at f index ≡ some len
  pub room : size ≤ section_size - len

-- An entry that is there and has no room.
abbrev pub IsFull : File → ℕ → ℕ → Type 0
IsFull f size index = (len : ℕ) × (entry_at f index ≡ some len) × (section_size - len < size)

module _ (index size : ℕ) (log : Fd) where
  pub read_entry_space-HasSpace :
      (len : ℕ) → (read_entry_space index size log).0 ≡ some len → HasSpace log.file index size len
  unfolding read_entry_space
  read_entry_space-HasSpace len h = record {
    entry = log_read_entry_sound index len log (ground arith);
    room = ground arith;
  }

  pub file-read_entry_space : (read_entry_space index size log).1.file ≡ log.file
  unfolding read_entry_space
  file-read_entry_space = file-log_read_entry index log

  module _ (quiet : log.script ≡ []) (there : log_offset index + 2 ≤ log.file.size) where
    pub read_entry_space-quiet : (read_entry_space index size log).1 ≡ log
    unfolding read_entry_space
    read_entry_space-quiet =
        ap (λ (r : Option ℕ × Fd). r.1) (log_read_entry-there index log quiet there)

    pub read_entry_space-IsFull :
        (read_entry_space index size log).0 ≡ none → IsFull log.file size index
    unfolding read_entry_space
    read_entry_space-IsFull h =
        let (len, e) = entry_at-IsSome index log.file there in
        (
          len,
          e,
          ground
              (arith, ap (λ (r : Option ℕ × Fd). r.0) (log_read_entry-there index log quiet there)),
        )

    pub read_entry_space-room :
        (len : ℕ)
        → HasSpace log.file index size len
        → read_entry_space index size log ≡ (some len, log)
    unfolding read_entry_space
    read_entry_space-room len h =
        rw (log_read_entry-there index log quiet there, h.entry, le→leb _ _ h.room)

    pub read_entry_space-none :
        IsFull log.file size index → read_entry_space index size log ≡ (none, log)
    unfolding read_entry_space
    read_entry_space-none (len, e, h) =
        rw (log_read_entry-there index log quiet there, e) (ground arith)

-- What a walk from `top` finds: the last entry with room among the `4 - visited` before `top`.
abbrev pub Finds : File → ℕ → ℕ → ℕ → Option (ℕ × ℕ) → Type 0
Finds f top visited size none = (j : ℕ) → j < top → top + visited ≤ j + 4 → IsFull f size j
Finds f top visited size (some (i, len)) =
    (i < top)
    × (top + visited ≤ i + 4)
    × HasSpace f i size len
    × ((j : ℕ) → i < j → j < top → IsFull f size j)

-- The three ways of a round.
module _ (i visited size : ℕ) (log : Fd) where
  abbrev pub look : Option ℕ × Fd
  look = read_entry_space i size log

  walk-limit :
      max_walk ≤ visited
      → walk (suc i) visited size log ≡ record { found = none; visited = visited + 1; log = log }
  unfolding walk
  walk-limit h = ground arith

  pub walk-hit :
      (len : ℕ)
      → visited < max_walk
      → look.0 ≡ some len
      → walk (suc i) visited size log
        ≡ record { found = some (i, len); visited = visited + 1; log = look.1 }
  unfolding walk
  walk-hit len h e = ground arith

  walk-miss :
      visited < max_walk
      → look.0 ≡ none
      → walk (suc i) visited size log ≡ walk i (visited + 1) size look.1
  unfolding walk
  walk-miss h e = ground arith

Finds-miss :
    (f : File) (i visited size : ℕ) (found : Option (ℕ × ℕ))
    → IsFull f size i
    → Finds f i (visited + 1) size found
    → Finds f (suc i) visited size found
Finds-miss f i visited size none full rest = λ j h k. elim (dec_lt j i) [
  | yes below ↦ rest j below (omega arith)
  | no last ↦ rw (same j last h) full
]
  where
    same : (j : ℕ) → ¬ (j < i) → j < suc i → j ≡ i
    same j p q = omega arith
Finds-miss f i visited size (some (k, len)) full (below, near, space, later) = (
  omega arith,
  omega (arith, near),
  space,
  λ j h q. elim (dec_lt j i) [ yes p ↦ later j h p | no p ↦ rw (same j p q) full ],
)
  where
    same : (j : ℕ) → ¬ (j < i) → j < suc i → j ≡ i
    same j p q = omega arith

abbrev WalkedQuietly : ℕ → ℕ → ℕ → Fd → Walked → Type 0
WalkedQuietly top visited size log w = Finds log.file top visited size w.found × (w.log ≡ log)

-- Without errors, from an index up to which the log has entries, the walk finds the last entry
-- with room among the `4 - visited` before the index, every entry behind it being full; it finds
-- none if those, or all entries when there are fewer, are full. The descriptor stays.
pub walk-quiet :
    (top visited size : ℕ) (log : Fd)
    → log.script ≡ []
    → log_offset top ≤ log.file.size
    → let w = walk top visited size log in Finds log.file top visited size w.found × (w.log ≡ log)
walk-quiet zero visited size log quiet there = unfold walk in (λ j h k. absurd (omega arith), refl)
walk-quiet (suc i) visited size log quiet there = elim (dec_lt visited 4) [
  | no limit ↦
      rw (walk-limit i visited size log (omega arith)) (λ j h k. absurd (omega arith), refl)
  | yes more ↦ elim (Option-cases (read_entry_space i size log).0) [
    | inl full ↦
        let (found, same) = walk-quiet i (visited + 1) size log quiet (before there) in
        rw
          (
            walk-miss i visited size log more full,
            read_entry_space-quiet i size log quiet (inside there),
          )
          (
            Finds-miss log.file i visited size _
                (read_entry_space-IsFull i size log quiet (inside there) full) found,
            same,
          )
    | inr (len, hit) ↦
        rw
          (
            walk-hit i visited size log len more hit,
            read_entry_space-quiet i size log quiet (inside there),
          )
          (
            (
              omega arith,
              omega arith,
              read_entry_space-HasSpace i size log len hit,
              λ j h k. absurd (omega arith),
            ),
            refl,
          )
  ]
]
  where
    inside : log_offset (suc i) ≤ log.file.size → log_offset i + 2 ≤ log.file.size
    inside h = omega (arith, log_offset-suc i)

    before : log_offset (suc i) ≤ log.file.size → log_offset i ≤ log.file.size
    before h = omega (arith, log_offset-suc i)

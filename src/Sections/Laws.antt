-- ===== src/Sections/Laws.antt =====
-- The sections after a write of data, and after a write of an entry.
use logdb.Prelude.{
  ℕ, ◌+◌, ◌≤◌, ◌<◌, ◌≡◌, ◌≢◌, sym, ap, ◌∙◌, ◌⊎◌, inl, inr, true, false, some, List, [], ◌++◌, ◌==◌,
  if◌then◌else◌, arith, u16, length, Option-cases,
}
use mathlib.Core.Path.{ap₂}
use native.Mathlib.Decide.{ℕ_discrete}
use logdb.File.{File, write_at, read_at}
use logdb.File.Laws.{byte-write_at_out, read_at-ext, read_at-add, read_at-write_at, read_none}
use logdb.Log.Layout.{section_size, log_offset, connection_offset, encode16}
use logdb.Log.Entry.{entry_at}
use logdb.Log.Entry.Laws.{entry_at-write_at}
use logdb.Sections.{of_entry, stored, HasShorts}

pub stored-some :
    (db log : File) (j : ℕ) {len : ℕ}
    → entry_at log j ≡ some len
    → stored db log j ≡ read_at (connection_offset j) len db
unfolding stored
stored-some db log j e = ap (of_entry db j) e

-- The bytes of section `j` up to `len` are not met by a write at `off` in section `i`.
apart_from :
    (i j off len a k : ℕ)
    → i < 65536
    → j < 65536
    → j ≢ i
    → len < section_size
    → off + k ≤ section_size
    → connection_offset j ≤ a
    → a < connection_offset j + len
    → (a < connection_offset i + off) ⊎ (connection_offset i + off + k ≤ a)
unfolding connection_offset
apart_from i j off len a k hi hj ne short room from to = ground arith

module _ (i off : ℕ) (bytes : List ℕ) (db : File) where
  abbrev written : File
  written = write_at (connection_offset i + off) bytes db

  -- A write behind the valid bytes changes no valid byte of its section.
  read_at-behind :
      (len : ℕ)
      → len ≤ off
      → read_at (connection_offset i) len written ≡ read_at (connection_offset i) len db
  read_at-behind len h =
      read_at-ext (connection_offset i) len written db
        (λ a p q. byte-write_at_out (connection_offset i + off) a bytes db (inl (omega arith)))

  read_at-elsewhere :
      (j len : ℕ)
      → i < 65536
      → j < 65536
      → j ≢ i
      → len < section_size
      → off + length bytes ≤ section_size
      → read_at (connection_offset j) len written ≡ read_at (connection_offset j) len db
  read_at-elsewhere j len hi hj ne short room =
      read_at-ext (connection_offset j) len written db (λ a p q.
        byte-write_at_out (connection_offset i + off) a bytes db
          (apart_from i j off len a (length bytes) hi hj ne short room p q))

  -- Data written behind the valid bytes of a section below 2^16, inside of the section, change
  -- what no section below 2^16 holds, while all entries are below 2^16.
  pub stored-data :
      (log : File)
      → HasShorts log
      → entry_at log i ≡ some off
      → i < 65536
      → off + length bytes ≤ section_size
      → (j : ℕ) → j < 65536
      → stored written log j ≡ stored db log j
  unfolding stored
  stored-data log shorts entry hi room j hj = elim (Option-cases (entry_at log j)) [
    | inl none_there ↦ ap (of_entry written j) none_there ∙ sym (ap (of_entry db j) none_there)
    | inr (len, there) ↦
        ap (of_entry written j) there
        ∙ (elim (ℕ_discrete j i)
            as (λ _.
              read_at (connection_offset j) len written ≡ read_at (connection_offset j) len db) [
                | yes same ↦ rw same (read_at-behind len (same_len j len same there))
                | no other ↦ read_at-elsewhere j len hi hj other (shorts.short j len there) room
              ])
        ∙ sym (ap (of_entry db j) there)
  ]
    where
      same_len : (j len : ℕ) → j ≡ i → entry_at log j ≡ some len → len ≤ off
      same_len j len same there = ground (arith, entry, there, ap (entry_at log) same)

  -- If data written behind the valid bytes leave their section a byte of room, the new entry puts
  -- them at the end of what the section holds, and changes no other section.
  pub stored-entry :
      (log : File)
      → entry_at log i ≡ some off
      → log_offset i + 2 ≤ log.size
      → off + length bytes < section_size
      → (j : ℕ)
      → stored written (write_at (log_offset i) (encode16 (off + length bytes)) log) j
        ≡ (if j == i then stored db log j ++ bytes else stored written log j)
  stored-entry log entry there room j = elim (ℕ_discrete j i) [
    | yes same ↦ rw (is_same j same) (
        stored-some written _ j (updated j ∙ rw (is_same j same))
        ∙ ap (λ k. read_at (connection_offset k) new_len written) same
        ∙ ap (λ k. read_at (connection_offset i) k written) short
        ∙ whole
        ∙ ap (λ l. l ++ bytes)
            (sym (
              stored-some db log j (ap (entry_at log) same ∙ entry)
              ∙ ap (λ k. read_at (connection_offset k) off db) same)))
    | no other ↦
        rw (is_other j other)
          (unfold stored in ap (of_entry written j) (updated j ∙ rw (is_other j other)))
  ]
    where
      new_len : ℕ
      new_len = u16 (off + length bytes)

      short : new_len ≡ off + length bytes
      short = omega (arith, room)

      updated :
          (j : ℕ)
          → entry_at (write_at (log_offset i) (encode16 (off + length bytes)) log) j
            ≡ (if j == i then some new_len else entry_at log j)
      updated j = entry_at-write_at log i j (off + length bytes) there

      is_same : (j : ℕ) → j ≡ i → (j == i) ≡ true
      is_same j h = ground arith

      is_other : (j : ℕ) → j ≢ i → (j == i) ≡ false
      is_other j h = ground arith

      whole :
          read_at (connection_offset i) (off + length bytes) written
          ≡ read_at (connection_offset i) off db ++ bytes
      whole =
          read_at-add (connection_offset i) off (length bytes) written
          ∙ ap₂ ◌++◌ (read_at-behind off (omega arith))
              (read_at-write_at (connection_offset i + off) bytes db)

  -- A section that becomes full to the last byte gets an entry of 0: all of it is lost.
  pub stored-full :
      (log : File)
      → log_offset i + 2 ≤ log.size
      → (j : ℕ)
      → stored written (write_at (log_offset i) (encode16 section_size) log) j
        ≡ (if j == i then [] else stored written log j)
  stored-full log there j = elim (ℕ_discrete j i) [
    | yes same ↦ rw (is_same j same) (
        stored-some written _ j {len = 0} (updated j ∙ rw (is_same j same))
        ∙ read_none written (connection_offset j))
    | no other ↦
        rw (is_other j other)
          (unfold stored in ap (of_entry written j) (updated j ∙ rw (is_other j other)))
  ]
    where
      updated :
          (j : ℕ)
          → entry_at (write_at (log_offset i) (encode16 section_size) log) j
            ≡ (if j == i then some 0 else entry_at log j)
      updated j = entry_at-write_at log i j section_size there

      is_same : (j : ℕ) → j ≡ i → (j == i) ≡ true
      is_same j h = ground arith

      is_other : (j : ℕ) → j ≢ i → (j == i) ≡ false
      is_other j h = ground arith

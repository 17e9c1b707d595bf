-- ===== src/Log/Entry/Laws.antt =====
-- Reads and writes of entries against `entry_at`.
use logdb.Prelude.{
  ℕ, zero, suc, ◌+◌, ◌-◌, ◌%◌, ◌≤◌, ◌≡◌, ◌⊎◌, refl, sym, ap, ◌∙◌, inl, inr, ℤ, succeeded, failed,
  is_positive, is_failed, false, none, some, [], ◌∷◌, ltb, leb, ◌==◌, if◌then◌else◌, arith, u16,
  Bool-cases, le→leb, leb→le, take,
}
use logdb.File.{File, read_at, write_at}
use logdb.Io.{Fd, io_pread, io_pwrite}
use logdb.Io.Reads.{io_pread-Fetched, Fetched-complete}
use logdb.Io.Quiet.{io_pread-quiet}
use logdb.Io.Writes.{io_pwrite-Written}
use logdb.Log.Layout.{log_offset, encode16, decode16}
use logdb.Log.Entry.{log_read_entry, log_write_entry, entry_at}

-- An entry that `logdb_log_read_entry` delivers is the one in the file, whatever the system calls
-- do.
pub log_read_entry_sound :
    (index n : ℕ) (fd : Fd) → (log_read_entry index fd).0 ≡ some n → entry_at fd.file index ≡ some n
unfolding log_read_entry entry_at
log_read_entry_sound index n fd h =
    let done =
      Fetched-complete (io_pread-Fetched 2 (log_offset index) fd (omega arith)) (ground arith)
        (ground arith) (omega arith) in
    rw (le→leb _ _ done.1) (ap (λ l. some (decode16 l)) (sym done.0) ∙ ground arith)

pub file-log_read_entry : (index : ℕ) (fd : Fd) → (log_read_entry index fd).1.file ≡ fd.file
unfolding log_read_entry
file-log_read_entry index fd = (io_pread-Fetched 2 (log_offset index) fd (omega arith)).file

-- Without errors `logdb_log_read_entry` delivers the entry that is in the file, and -1 if the
-- file ends before it.
pub log_read_entry-quiet :
    (index : ℕ) (fd : Fd) → fd.script ≡ [] → (log_read_entry index fd).0 ≡ entry_at fd.file index
unfolding log_read_entry entry_at
log_read_entry-quiet index fd quiet = elim (Bool-cases (leb (log_offset index + 2) fd.file.size)) [
  | inl inside ↦
      rw (io_pread-quiet 2 (log_offset index) fd quiet (omega arith) (leb→le _ _ inside), inside)
  | inr outside ↦ rw outside (
      ground (
        arith,
        λ (p : is_positive r ≡ false) (q : is_failed r ≡ false).
            (Fetched-complete (io_pread-Fetched 2 (log_offset index) fd (omega arith)) p q
              (omega arith)).1,
      ))
]
  where
    r : ℤ
    r = (io_pread 2 (log_offset index) fd).0

-- The same for an entry in the file, with the descriptor.
pub log_read_entry-there :
    (index : ℕ) (fd : Fd)
    → fd.script ≡ []
    → log_offset index + 2 ≤ fd.file.size
    → log_read_entry index fd ≡ (entry_at fd.file index, fd)
unfolding log_read_entry entry_at
log_read_entry-there index fd quiet there =
    rw (io_pread-quiet 2 (log_offset index) fd quiet (omega arith) there, le→leb _ _ there)

pub entry_at-IsSome :
    (index : ℕ) (f : File) → log_offset index + 2 ≤ f.size → (n : ℕ) × (entry_at f index ≡ some n)
unfolding entry_at
entry_at-IsSome index f there = (decode16 (read_at (log_offset index) 2 f), rw (le→leb _ _ there))

-- A number that is written at the offset of an entry in the file is read back as that entry,
-- modulo 2^16, and every other entry stays.
pub entry_at-write_at :
    (f : File) (i j n : ℕ)
    → log_offset i + 2 ≤ f.size
    → entry_at (write_at (log_offset i) (encode16 n) f) j
      ≡ (if j == i then some (u16 n) else entry_at f j)
unfolding entry_at write_at read_at decode16 log_offset
entry_at-write_at f i j n h = ground arith

pub entry_at-end : (f : File) (n : ℕ) → f.size ≡ log_offset n → entry_at f n ≡ none
unfolding entry_at
entry_at-end f n h = ground arith

-- A write of a new entry of zero bytes behind the last one.
pub entry_at-append :
    (f : File) (n j : ℕ)
    → f.size ≡ log_offset n
    → entry_at (write_at f.size (encode16 0) f) j ≡ (if j == n then some 0 else entry_at f j)
unfolding entry_at write_at read_at decode16 log_offset
entry_at-append f n j h = ground arith

-- What a call of `logdb_log_write_entry` leaves behind.
abbrev pub EntryWritten : ℕ → ℕ → File → ℤ × Fd → Type 0
EntryWritten len index f (code, fd') =
    (code ≡ succeeded) × (fd'.file ≡ write_at (log_offset index) (encode16 len) f)
    ⊎ (code ≡ failed)
      × ((fd'.file ≡ f) ⊎ (fd'.file ≡ write_at (log_offset index) (len % 256 ∷ []) f))

written_cases :
    (len index left : ℕ) (f : File) (fd' : Fd)
    → left ≤ 2
    → fd'.file ≡ write_at (log_offset index) (take (2 - left) (encode16 len)) f
    → EntryWritten len index f (if ltb 0 left then failed else succeeded, fd')
unfolding write_at
written_cases len index zero f fd' h e = inl (refl, e)
written_cases len index (suc zero) f fd' h e = inr (refl, inr e)
written_cases len index (suc (suc zero)) f fd' h e = inr (refl, inl e)
written_cases len index (suc (suc (suc left))) f fd' h e = absurd (omega arith)

-- Whatever the system calls do, `logdb_log_write_entry` has replaced the entry if it returns 0;
-- if it returns -1, the file is as before, or the first byte of the entry was replaced.
pub log_write_entry-file :
    (len index : ℕ) (fd : Fd) → EntryWritten len index fd.file (log_write_entry len index fd)
unfolding log_write_entry
log_write_entry-file len index fd =
    let w = io_pwrite-Written (encode16 len) (log_offset index) fd in
    written_cases len index _ fd.file (io_pwrite (encode16 len) (log_offset index) fd).1 w.within
      w.file

-- Without errors `logdb_log_write_entry` returns 0.
pub log_write_entry-quiet :
    (len index : ℕ) (fd : Fd) → fd.script ≡ [] → (log_write_entry len index fd).0 ≡ succeeded
unfolding log_write_entry io_pwrite
log_write_entry-quiet len index fd quiet = ground (arith, quiet)

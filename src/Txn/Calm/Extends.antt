-- ===== src/Txn/Calm/Extends.antt =====
-- What the write of a commit on a calm connection leaves: bytes at the end of one section.
use logdb.Prelude.{
  ℕ, suc, ◌+◌, ◌≤◌, ◌<◌, ◌≡◌, ◌≢◌, sym, ap, subst, ◌∙◌, inl, inr, none, some, List, ◌==◌,
  if◌then◌else◌, arith, u16, length,
}
use native.Mathlib.Decide.{ℕ_discrete}
use logdb.Disk.{is_db_header}
use logdb.Log.Header.{is_log_header}
use logdb.File.{File, read_at, write_at}
use logdb.File.Laws.{size-write_at, size-le-write_at, length-read_at, read_at-write_at_before}
use logdb.Io.{Fd}
use logdb.Log.Layout.{section_size, log_offset, connection_offset, encode16}
use logdb.Log.Lock.{LockNode}
use logdb.Log.Lock.Free.{AllFree}
use logdb.Log.Entry.{entry_at}
use logdb.Log.Entry.Laws.{entry_at-write_at}
use logdb.Connection.{Conn}
use logdb.Sections.{stored}
use logdb.Sections.Laws.{stored-some}
use logdb.Lease.{Lease}
use logdb.Lease.Choose.{Choice}
use logdb.Txn.Write.{extended, room, before, seen}
use logdb.Txn.Calm.{IsCalm, LeftWith}

missing : (f : File) (n j : ℕ) → entry_at f j ≡ none → f.size ≡ log_offset n → n ≤ j
unfolding entry_at log_offset
missing f n j e size = ground arith

present : (f : File) (n j len : ℕ) → entry_at f j ≡ some len → f.size ≡ log_offset n → j < n
unfolding entry_at log_offset
present f n j len e size = ground arith

-- The bytes at the end of one section, and a calm connection.
pub record Extends (n : ℕ) (bytes : List ℕ) (c c' : Conn) : Type 0 where
  pub index : ℕ
  pub offset : ℕ
  pub count : ℕ
  pub counted : (n ≤ count) × (count ≤ suc n) × (index < count)
  pub calm : IsCalm count c'
  pub fits : offset + length bytes ≤ section_size
  pub before_it : length (stored c.db.file c.log.file index) ≡ offset
  pub sections :
      (j : ℕ)
      → stored c'.db.file c'.log.file j
        ≡ extended index offset bytes (stored c.db.file c.log.file j) j
  pub same_readers : (c'.readers ≡ c.readers) × (c'.max_readers ≡ c.max_readers)

module _ (n : ℕ) (bytes : List ℕ) (c c1 c' : Conn) (lease : Lease) (table : List LockNode)
    (calm : IsCalm n c) (few : n < 65536)
    (choice : Choice n n (length bytes) c.log lease.index lease.offset c1.log)
    (same_db : c1.db ≡ c.db) (some_bytes : 0 < length bytes) (free : AllFree table)
    (left : LeftWith
      (write_at (connection_offset lease.index + lease.offset) bytes c1.db.file)
      (write_at (log_offset lease.index) (encode16 (u16 (lease.offset + length bytes))) c1.log.file)
      table
      (c.readers + 1)
      c.max_readers
      c.memory
      c.nosync
      c') where
  total : ℕ
  total = lease.offset + length bytes

  new_entry :
      (j : ℕ)
      → entry_at c'.log.file j ≡ (
          if j == lease.index
          then some (u16 (u16 (lease.offset + length bytes)))
          else entry_at c1.log.file j)
  new_entry j =
      ap (λ f. entry_at f j) left.log_file
      ∙ entry_at-write_at c1.log.file lease.index j (u16 (lease.offset + length bytes))
          choice.inside

  new_size : c'.log.file.size ≡ log_offset choice.count
  new_size =
      ap (λ (f : File). f.size) left.log_file
      ∙ size-write_at (log_offset lease.index) (encode16 (u16 (lease.offset + length bytes)))
          c1.log.file (omega arith)
      ∙ omega (arith, choice.inside, choice.counted.0)

  -- An entry that was not written is an old one, or is the new one of the log.
  old_entry :
      (j len : ℕ)
      → j ≢ lease.index
      → entry_at c1.log.file j ≡ some len
      → entry_at c.log.file j ≡ some len
  old_entry j len other e = elim choice.last [
    | inl (_, _, same, _) ↦ ap (λ f. entry_at f j) (sym same) ∙ e
    | inr (at_end, _, _) ↦ elim (choice.grown j) [
      | inl same ↦ sym same ∙ e
      | inr (not_there, _) ↦ absurd (
          other (
            omega (
              arith,
              at_end,
              missing c.log.file n j not_there calm.log.size,
              present c1.log.file choice.count j len e choice.counted.0,
              choice.counted.2,
            )))
    ]
  ]

  here :
      (j len : ℕ)
      → j ≡ lease.index
      → entry_at c'.log.file j ≡ some len
      → len ≡ u16 (u16 (lease.offset + length bytes))
  here j len same e = ground (arith, same, e, new_entry j)

  there :
      (j len : ℕ)
      → j ≢ lease.index
      → entry_at c'.log.file j ≡ some len
      → entry_at c1.log.file j ≡ some len
  there j len other e = ground (arith, other, e, new_entry j)

  -- The database file has grown, and contains the bytes.
  older : c.db.file.size ≤ c'.db.file.size
  older = omega (
    arith,
    ap (λ (d : Fd). d.file.size) same_db,
    ap (λ (f : File). f.size) left.db_file,
    size-le-write_at (connection_offset lease.index + lease.offset) bytes c1.db.file,
  )

  written_size : connection_offset lease.index + (lease.offset + length bytes) ≤ c'.db.file.size
  written_size = omega (
    arith,
    ap (λ (f : File). f.size) left.db_file,
    size-write_at (connection_offset lease.index + lease.offset) bytes c1.db.file some_bytes,
  )

  inside_new :
      (j len : ℕ) → entry_at c'.log.file j ≡ some len → connection_offset j + len ≤ c'.db.file.size
  inside_new j len e = elim (ℕ_discrete j lease.index) [
    | yes same ↦ ground (arith, written_size, here j len same e, same)
    | no other ↦
        omega (arith, calm.inside j len (old_entry j len other (there j len other e)), older)
  ]

  shorts_new : (j len : ℕ) → entry_at c'.log.file j ≡ some len → len < section_size
  shorts_new j len e = elim (ℕ_discrete j lease.index) [
    | yes same ↦ omega (arith, here j len same e)
    | no other ↦ calm.shorts.short j len (old_entry j len other (there j len other e))
  ]

  kept_header : read_at 0 6 c'.db.file ≡ read_at 0 6 c.db.file
  unfolding connection_offset
  kept_header =
      ap (read_at 0 6) left.db_file
      ∙ read_at-write_at_before 0 6 (connection_offset lease.index + lease.offset) bytes c1.db.file
          (omega arith)
      ∙ ap (λ (d : Fd). read_at 0 6 d.file) same_db

  kept_log_header : read_at 0 6 c'.log.file ≡ read_at 0 6 c.log.file
  unfolding log_offset
  kept_log_header =
      ap (read_at 0 6) left.log_file
      ∙ read_at-write_at_before 0 6 (log_offset lease.index)
          (encode16 (u16 (lease.offset + length bytes))) c1.log.file (omega arith)
      ∙ choice.header

  ready_again : IsCalm choice.count c'
  ready_again = record {
    log = record {
      size = new_size;
      few = omega (arith, choice.counted.2, few);
      quiet = left.log_script;
    };
    shorts = record { short = shorts_new };
    inside = inside_new;
    db = left.db_script;
    header = ap is_db_header kept_header ∙ calm.header;
    valid = ap is_log_header kept_log_header ∙ calm.valid;
    readers = omega (arith, left.readers_left, left.room, calm.readers);
    memory = left.has_memory ∙ calm.memory;
    free = subst AllFree (sym left.locks) free;
  }

  pub extends : Extends n bytes c c'
  extends = record {
    index = lease.index;
    offset = lease.offset;
    count = choice.count;
    counted = (choice.counted.1, choice.counted.2, choice.counted.3);
    calm = ready_again;
    fits = room n bytes c c1 lease choice few calm.shorts calm.log same_db;
    before_it =
        ap length (
          sym (before n bytes c c1 lease choice few calm.shorts calm.log same_db lease.index)
          ∙ stored-some c1.db.file c1.log.file lease.index choice.space.entry)
        ∙ length-read_at (connection_offset lease.index) lease.offset c1.db.file;
    sections = λ j.
        seen n bytes c c1 lease choice few calm.shorts calm.log same_db c'.db c'.log.file
          left.db_file left.log_file j;
    same_readers = (omega (arith, left.readers_left), left.room);
  }

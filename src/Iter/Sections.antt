-- ===== src/Iter/Sections.antt =====
-- The sections that an iterator goes through: what they hold, the search for the next one, and the
-- lease on it.
use logdb.Prelude.{
  ℕ, zero, suc, ◌+◌, ◌≤◌, ◌<◌, ◌≡◌, refl, sym, ap, ◌∙◌, ◌⊎◌, inl, inr, some, List, [], ◌∷◌, ◌++◌,
  arith, length, length-append, ◌==◌, if◌then◌else◌,
}
use logdb.File.{File, read_at}
use logdb.Io.Reads.{io_pread-Fetched}
use logdb.Io.{Fd}
use logdb.Log.Layout.{connection_offset, log_offset}
use logdb.Log.Lock.{lock_none}
use logdb.Log.Entry.{log_read_entry, entry_at}
use logdb.Log.Entry.Laws.{log_read_entry-there, log_read_entry-quiet, entry_at-IsSome, entry_at-end}
use logdb.Connection.{Conn}
use logdb.Connection.Locking.{rdlock}
use logdb.Sections.{stored, HasShorts}
use logdb.Sections.Laws.{stored-some}
use logdb.Lease.{Lease, acquire_read}
use logdb.Lease.Choose.{IsLog}
use logdb.Iter.{Sought, at_entry, no_entry, find_entry}
use logdb.Iter.Records.{Rec, encode_record, encode_records, AreFull, length-encode_record}

-- The connection of a database of `n` sections that hold these records and no more. No call on it
-- fails, and it gives one more read lock.
pub record HasRecords (n : ℕ) (rs : ℕ → List Rec) (conn : Conn) : Type 0 where
  pub log : IsLog n conn.log
  pub shorts : HasShorts conn.log.file
  pub quiet : conn.db.script ≡ []
  pub readers : conn.readers < conn.max_readers
  pub inside :
      (j len : ℕ)
      → entry_at conn.log.file j ≡ some len
      → connection_offset j + len ≤ conn.db.file.size
  pub encoded : (j : ℕ) → j < n → stored conn.db.file conn.log.file j ≡ encode_records (rs j)
  pub full : (j : ℕ) → AreFull (rs j)

-- The records of `m` sections, from section `i` on.
abbrev pub records_from : (ℕ → List Rec) → ℕ → ℕ → List Rec
records_from rs i zero = []
records_from rs i (suc m) = rs i ++ records_from rs (suc i) m

pub no_records : (rs : List Rec) → encode_records rs ≡ [] → rs ≡ []
no_records [] e = refl
no_records (r ∷ rs) e = absurd (
    omega (
      arith,
      ap length e,
      length-append (encode_record r) (encode_records rs),
      length-encode_record r,
    ))

-- The next section with records, with `k` sections behind it.
pub record Next (rs : ℕ → List Rec) (n i m : ℕ) (log : Fd) (out : Sought × Fd) : Type 0 where
  pub index : ℕ
  pub behind : ℕ
  pub len : ℕ
  pub found : out ≡ (at_entry index, log)
  pub entry : entry_at log.file index ≡ some len
  pub some_bytes : 0 < len
  pub total : index + suc behind ≡ n
  pub fewer : behind < m
  pub same : records_from rs i m ≡ rs index ++ records_from rs (suc index) behind

pub record NoNext (file : File) (rs : ℕ → List Rec) (i m : ℕ) (out : Sought × Fd) : Type 0 where
  pub log : Fd
  pub found : out ≡ (no_entry, log)
  pub kept : log.file ≡ file
  pub same : records_from rs i m ≡ []

log_read_entry-kept : (index : ℕ) (fd : Fd) → (log_read_entry index fd).1.file ≡ fd.file
unfolding log_read_entry
log_read_entry-kept index fd = (io_pread-Fetched 2 (log_offset index) fd (omega arith)).file

module _ (n : ℕ) (rs : ℕ → List Rec) (conn : Conn) (has : HasRecords n rs conn) where
  there : (j : ℕ) → j < n → log_offset j + 2 ≤ conn.log.file.size
  unfolding log_offset
  there j below = omega (arith, has.log.size, below)

  -- A section of zero bytes has no records.
  none_inside : (j : ℕ) → j < n → entry_at conn.log.file j ≡ some 0 → rs j ≡ []
  unfolding read_at
  none_inside j below e =
      no_records (rs j) (sym (has.encoded j below) ∙ stored-some conn.db.file conn.log.file j e)

  find_entry-end :
      (fuel : ℕ) → find_entry (suc fuel) n conn.log ≡ (no_entry, (log_read_entry n conn.log).1)
  unfolding find_entry
  find_entry-end fuel = ground (
    arith,
    log_read_entry-quiet n conn.log has.log.quiet,
    entry_at-end conn.log.file n has.log.size,
  )

  -- One step of the search, at an entry that is there.
  find_entry-there :
      (fuel i len : ℕ)
      → i < n
      → entry_at conn.log.file i ≡ some len
      → find_entry (suc fuel) i conn.log
        ≡ (if len == 0 then find_entry fuel (suc i) conn.log else (at_entry i, conn.log))
  unfolding find_entry
  find_entry-there fuel i len below e =
      ground (arith, log_read_entry-there i conn.log has.log.quiet (there i below), e, has.log.few)

  abbrev pub Finding : ℕ → ℕ → ℕ → Type 0
  Finding m fuel i =
      Next rs n i m conn.log (find_entry fuel i conn.log)
      ⊎ NoNext conn.log.file rs i m (find_entry fuel i conn.log)

  -- An empty section is passed over.
  pass_over :
      (m fuel i : ℕ)
      → i < n
      → entry_at conn.log.file i ≡ some 0
      → Finding m fuel (suc i)
      → Finding (suc m) (suc fuel) i
  pass_over m fuel i below e (inl next) = inl (record {
    index = next.index;
    behind = next.behind;
    len = next.len;
    found = find_entry-there fuel i 0 below e ∙ next.found;
    entry = next.entry;
    some_bytes = next.some_bytes;
    total = next.total;
    fewer = omega (arith, next.fewer);
    same = ap (λ l. l ++ records_from rs (suc i) m) (none_inside i below e) ∙ next.same;
  })
  pass_over m fuel i below e (inr stop) = inr (record {
    log = stop.log;
    found = find_entry-there fuel i 0 below e ∙ stop.found;
    kept = stop.kept;
    same = ap (λ l. l ++ records_from rs (suc i) m) (none_inside i below e) ∙ stop.same;
  })

  look_here :
      (m fuel i len : ℕ)
      → i + suc m ≡ n
      → entry_at conn.log.file i ≡ some len
      → Finding m fuel (suc i)
      → Finding (suc m) (suc fuel) i
  look_here m fuel i zero total e later = pass_over m fuel i (omega (arith, total)) e later
  look_here m fuel i (suc len) total e later = inl (record {
    index = i;
    behind = m;
    len = suc len;
    found = find_entry-there fuel i (suc len) (omega (arith, total)) e ∙ ground arith;
    entry = e;
    some_bytes = omega arith;
    total = total;
    fewer = omega arith;
    same = refl;
  })

  pub find_entry-Next : (m fuel i : ℕ) → m < fuel → i + m ≡ n → Finding m fuel i
  find_entry-Next m zero i enough total = absurd (omega (arith, enough))
  find_entry-Next zero (suc fuel) i enough total = inr (record {
    log = (log_read_entry n conn.log).1;
    found = ap (λ j. find_entry (suc fuel) j conn.log) (omega (arith, total)) ∙ find_entry-end fuel;
    kept = log_read_entry-kept n conn.log;
    same = refl;
  })
  find_entry-Next (suc m) (suc fuel) i enough total =
      let (len, e) = entry_at-IsSome i conn.log.file (there i (omega (arith, total))) in
      look_here m fuel i len total e
        (find_entry-Next m fuel (suc i) (omega (arith, enough)) (omega (arith, total)))

  -- The read lease on a section.
  abbrev pub lease_on : ℕ → ℕ → Lease
  lease_on j len = record { index = j; offset = 0; len = len; type = lock_none }

  abbrev pub reading : Conn
  reading = record conn { readers = conn.readers + 1 }

  pub acquire_read-quiet :
      (j len : ℕ)
      → j < n
      → entry_at conn.log.file j ≡ some len
      → 0 < len
      → acquire_read j 0 conn ≡ (some (lease_on j len), reading)
  unfolding acquire_read rdlock
  acquire_read-quiet j len below e some_bytes = ground (
    arith,
    has.readers,
    log_read_entry-there j conn.log has.log.quiet (there j below),
    e,
    has.shorts.short j len e,
  )

-- ===== src/Log/Recreate.antt =====
-- The log that `logdb_log_create` makes from a database file into which a log was merged.
use logdb.Prelude.{
  ℕ, zero, suc, ◌+◌, ◌*◌, ◌≤◌, ◌<◌, ◌≡◌, refl, sym, ap, subst, ◌∙◌, none, some, List, [], ◌++◌,
  arith, length, take, ltb, if◌then◌else◌,
}
use native.Mathlib.Decide.{dec_lt}
use logdb.File.{File, inside, read_at, write_at, truncate, empty_file}
use logdb.File.Laws.{length-read_at, read_none, take-read_at}
use logdb.Io.{Fd}
use logdb.Log.Layout.{section_size, log_offset, connection_offset, encode32}
use logdb.Log.Header.{is_log_header}
use logdb.Log.Create.{Dir, opened, created, log_create}
use logdb.Log.Create.Quiet.{IsFree, EndsInLog, new_log, log_create-quiet}
use logdb.Log.Entry.{entry_at}
use logdb.Log.Merge.{Files, Closed, entry_in}
use logdb.Log.Merge.Trim.{data_end, entry_in-entry_at}
use logdb.Log.Merge.Quiet.{IsQuiet, block_of, Merged}
use logdb.Lease.Choose.{IsLog, log_offset_mono}
use logdb.Sections.{HasShorts, stored, of_entry}
use logdb.Sections.Laws.{stored-some}
use logdb.Sections.Growth.{stored-none}
use logdb.Log.Copies.{
  size-new_log, entry_at-new_log, data_end-le, merged, size-merged, read_at-trailer, read_at-log,
  read_at-data,
}

-- The log that is created from this descriptor, and what the sections are with it.
pub record Recreated (n : ℕ) (fs : Files) (from : Fd) (at : Dir) : Type 0 where
  pub log : Fd
  pub db : Fd
  pub dir : Dir
  pub creates : log_create from at ≡ (created log, db, dir)
  pub kept : ℕ
  pub fewer : kept ≤ n
  pub is : IsLog kept log
  pub same : (j : ℕ) → stored db.file log.file j ≡ stored fs.db.file fs.log.file j
  pub shorts : HasShorts log.file
  pub inside :
      (j len : ℕ) → entry_at log.file j ≡ some len → connection_offset j + len ≤ db.file.size
  pub quiet : db.script ≡ []

module _ (n : ℕ) (fs : Files) (out : Closed × Files) (is : IsQuiet n fs)
    (mg : Merged n fs out) where
  abbrev k : ℕ
  k = mg.kept

  abbrev m : ℕ
  m = data_end (block_of n fs) mg.kept

  abbrev bytes : List ℕ
  bytes = read_at 0 (log_offset mg.kept) fs.log.file

  log_fits : log_offset k ≤ fs.log.file.size
  log_fits = omega (arith, is.log.size, log_offset_mono k n mg.within)

  length_bytes : length bytes ≡ 6 + k * 2
  unfolding log_offset
  length_bytes = length-read_at 0 (log_offset k) fs.log.file

  short_entry : (j : ℕ) → j < n → entry_in (block_of n fs) j < section_size
  short_entry j h =
      is.shorts.short j _ (entry_in-entry_at fs.log.file n j h (omega (arith, is.log.size)))

  -- The database file behind the merge.
  db_file : mg.after.db.file ≡ merged m (k * 2) bytes fs.db.file length_bytes
  unfolding log_offset
  db_file =
      mg.db
      ∙ ap (λ l. write_at m (l ++ encode32 (log_offset k + 4)) (truncate m fs.db.file))
          (take-read_at (log_offset k) (log_offset n) 0 fs.log.file (log_offset_mono k n mg.within))

  m-bounds : (6 ≤ m) × (m < 4294967302)
  unfolding connection_offset
  m-bounds = bounds k mg.within
    where
      bounds :
          (i : ℕ)
          → i ≤ n
          → (6 ≤ data_end (block_of n fs) i) × (data_end (block_of n fs) i < 4294967302)
      bounds zero h = omega arith
      bounds (suc i) h = omega (arith, is.few, short_entry i (omega arith))

  header : read_at m 6 mg.after.db.file ≡ read_at 0 6 fs.log.file
  unfolding log_offset
  header =
      sym (take-read_at 6 (6 + k * 2) m mg.after.db.file (omega arith))
      ∙ ap (take 6)
          (ap (read_at m (6 + k * 2)) db_file ∙ read_at-log m (k * 2) bytes fs.db.file length_bytes)
      ∙ take-read_at 6 (log_offset k) 0 fs.log.file six
    where
      six : 6 ≤ log_offset k
      six = omega arith

  ends : EndsInLog m (k * 2) mg.after.db
  ends = record {
    size = size;
    trailer =
        ap (read_at (m + (6 + k * 2)) 4) db_file
        ∙ read_at-trailer m (k * 2) bytes fs.db.file length_bytes;
    valid = ap is_log_header header ∙ is.valid;
    quiet = mg.quiet;
    small = omega (arith, size, m-bounds, is.few, mg.within);
    short = omega (arith, is.few, mg.within);
    some_data = m-bounds.0;
  }
    where
      size : mg.after.db.file.size ≡ m + (6 + k * 2) + 4
      size = ap (λ (f : File). f.size) db_file ∙ size-merged m (k * 2) bytes fs.db.file length_bytes

  pub free : fs.dir.script ≡ [] → IsFree mg.after.dir
  free script = record {
    log = ap (λ (d : Dir). d.log) mg.dir;
    calls = ap (λ (d : Dir). d.calls) mg.dir ∙ is.calls;
    script = ap (λ (d : Dir). d.script) mg.dir ∙ script;
    memory = λ i. ap (λ (d : Dir). d.memory i) mg.dir ∙ is.memory i;
  }

  -- The new log file.
  abbrev new_file : File
  new_file = new_log (read_at m (6 + k * 2) mg.after.db.file)

  new_file-bytes : new_file ≡ new_log bytes
  new_file-bytes =
      ap new_log
        (ap (read_at m (6 + k * 2)) db_file ∙ read_at-log m (k * 2) bytes fs.db.file length_bytes)

  new_entry : (j : ℕ) → entry_at new_file j ≡ (if ltb j k then entry_at fs.log.file j else none)
  new_entry j = ap (λ f. entry_at f j) new_file-bytes ∙ entry_at-new_log fs.log.file k j log_fits

  old_entry : (j : ℕ) → j < n → entry_at fs.log.file j ≡ some (entry_in (block_of n fs) j)
  old_entry j h = entry_in-entry_at fs.log.file n j h (omega (arith, is.log.size))

  no_section : (db log : File) (j : ℕ) → entry_at log j ≡ none → stored db log j ≡ []
  unfolding stored
  no_section db log j e = ap (of_entry db j) e

  empty_section : (j : ℕ) → k ≤ j → j < n → stored fs.db.file fs.log.file j ≡ []
  empty_section j above h =
      stored-some fs.db.file fs.log.file j (old_entry j h ∙ ap some (mg.zeros j above h))
      ∙ read_none fs.db.file (connection_offset j)

  kept_section :
      (j : ℕ) → j < k → stored mg.after.db.file new_file j ≡ stored fs.db.file fs.log.file j
  kept_section j below =
      let len = entry_in (block_of n fs) j in
      let old = old_entry j (omega (arith, mg.within)) in
      stored-some mg.after.db.file new_file j (new_entry j ∙ is_below ∙ old)
      ∙ ap (read_at (connection_offset j) len) db_file
      ∙ read_at-data m (k * 2) bytes fs.db.file length_bytes (connection_offset j) len (
          data_end-le (block_of n fs) k j below (omega (arith, is.few, mg.within))
            (λ i h. short_entry i (omega (arith, mg.within))))
      ∙ sym (stored-some fs.db.file fs.log.file j old)
    where
      is_below : (if ltb j k then entry_at fs.log.file j else none) ≡ entry_at fs.log.file j
      is_below = ground (arith, below)

  same_section : (j : ℕ) → stored mg.after.db.file new_file j ≡ stored fs.db.file fs.log.file j
  same_section j = elim (dec_lt j k) [
    | yes below ↦ kept_section j below
    | no above ↦
        no_section mg.after.db.file new_file j (new_entry j ∙ ground (arith, above))
        ∙ sym (elim (dec_lt j n) [
          | yes inside ↦ empty_section j (omega arith) inside
          | no past ↦ stored-none fs.db.file fs.log.file n j is.log.size (omega arith)
        ])
  ]

  entry_cases :
      (j len : ℕ) → entry_at new_file j ≡ some len → (j < k) × (entry_at fs.log.file j ≡ some len)
  entry_cases j len e = ground (arith, e, new_entry j)

  new_short : (j len : ℕ) → entry_at new_file j ≡ some len → len < section_size
  new_short j len e = is.shorts.short j len (entry_cases j len e).1

  new_inside :
      (j len : ℕ)
      → entry_at new_file j ≡ some len
      → connection_offset j + len ≤ mg.after.db.file.size
  new_inside j len e =
      let (below, old) = entry_cases j len e in
      omega (
        arith,
        ends.size,
        same_len j len (omega (arith, below, mg.within)) old,
        data_end-le (block_of n fs) k j below (omega (arith, is.few, mg.within))
            (λ i h. short_entry i (omega (arith, h, mg.within))),
      )
    where
      same_len :
          (j len : ℕ) → j < n → entry_at fs.log.file j ≡ some len → len ≡ entry_in (block_of n fs) j
      same_len j len h old = ground (arith, old, old_entry j h)

  -- Any descriptor on the merged file will do.
  ends_of : (db : Fd) → db.file ≡ mg.after.db.file → db.script ≡ [] → EndsInLog m (k * 2) db
  ends_of db e quiet = record {
    size = ap (λ (f : File). f.size) e ∙ ends.size;
    trailer = ap (read_at (m + (6 + k * 2)) 4) e ∙ ends.trailer;
    valid = ap (λ f. is_log_header (read_at m 6 f)) e ∙ ends.valid;
    quiet = quiet;
    small = subst (λ (f : File). f.size < 9223372036854775808) (sym e) ends.small;
    short = ends.short;
    some_data = ends.some_data;
  }

  pub recreated :
      (db : Fd) (dir : Dir)
      → db.file ≡ mg.after.db.file
      → db.script ≡ []
      → IsFree dir
      → Recreated n fs db dir
  recreated db dir e quiet is_free =
      let (q, creates) = log_create-quiet m (k * 2) db dir (ends_of db e quiet) is_free in
      record {
        log = record (opened empty_file dir) { file = new_log (read_at m (6 + k * 2) db.file) };
        db = _;
        dir = _;
        creates = creates;
        kept = k;
        fewer = mg.within;
        is = record {
          size =
              ap (λ (f : File). (new_log (read_at m (6 + k * 2) f)).size) e
              ∙ ap (λ (f : File). f.size) new_file-bytes
              ∙ size-new_log bytes (omega (arith, length_bytes))
              ∙ length_bytes
              ∙ whole;
          few = omega (arith, is.few, mg.within);
          quiet = is_free.script;
        };
        same = λ j. ap (λ f. stored f (new_log (read_at m (6 + k * 2) f)) j) e ∙ same_section j;
        shorts = record {
          short = λ i len a.
              new_short i len
                (ap (λ f. entry_at (new_log (read_at m (6 + k * 2) f)) i) (sym e) ∙ a);
        };
        inside = λ i len a.
            subst (λ (f : File). connection_offset i + len ≤ f.size) (sym e)
              (new_inside i len
                (ap (λ f. entry_at (new_log (read_at m (6 + k * 2) f)) i) (sym e) ∙ a));
        quiet = quiet;
      }
    where
      whole : 6 + k * 2 ≡ log_offset k
      whole = unfold log_offset in refl

  -- The header of the database file stays.
  pub header_kept : read_at 0 6 mg.after.db.file ≡ read_at 0 6 fs.db.file
  header_kept =
      ap (read_at 0 6) db_file
      ∙ read_at-data m (k * 2) bytes fs.db.file length_bytes 0 6 (m-bounds.0)

  pub header_inside : 6 ≤ mg.after.db.file.size
  header_inside = omega (arith, ends.size)

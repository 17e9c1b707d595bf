-- ===== src/Log/Merge/Quiet.antt =====
-- `logdb_log_close_merge` when no call fails: what it leaves in the database file.
use logdb.Prelude.{
  ℕ, zero, suc, ◌+◌, ◌*◌, ◌≤◌, ◌<◌, ◌≡◌, refl, ap, ◌∙◌, true, none, some, List, [], ◌++◌, arith,
  length, take, length-take, inl,
}
use logdb.File.{File, read_at, write_at, truncate}
use logdb.File.Laws.{write_at-append, length-read_at}
use logdb.Io.{Fd}
use logdb.Io.Streams.Equal.{at}
use logdb.Io.Streams.Quiet.{io_write-quiet}
use logdb.Log.Layout.{section_size, log_offset, connection_offset, encode32, index_from_offset}
use logdb.Log.Header.{content, is_log_header, read_no_trailer, log_read}
use logdb.Log.Header.Quiet.{log_read-quiet}
use logdb.Log.Merge.{
  Files, Closed, closed, entry_in, trim, finish, append_log, merge_block, merge_read,
  log_close_merge,
}
use logdb.Log.Merge.Trim.{data_end, Trimmed, trim-Trimmed, entry_in-entry_at}
use logdb.Lease.Choose.{IsLog, index_of_end}
use logdb.Sections.{HasShorts}

finish-quiet :
    (fs : Files) {f : File}
    → fs.dir.calls ≡ []
    → fs.dir.log ≡ some f
    → finish fs ≡ (closed, record fs { dir = record fs.dir { log = none } })
unfolding finish
finish-quiet fs calls there = ground (arith, calls, there)

-- The database file with a log and its trailer at the end.
abbrev pub with_log : List ℕ → Fd → Fd
with_log log db = record db {
  file = write_at (db.pos + length log) (encode32 (length log + 4)) (write_at db.pos log db.file);
  pos = db.pos + length log + 4;
}

append_log-quiet :
    (block : List ℕ) (logsz : ℕ) (fs : Files)
    → fs.db.script ≡ []
    → length (take logsz block) ≡ logsz
    → append_log block logsz fs ≡ finish (record fs { db = with_log (take logsz block) fs.db })
unfolding append_log
append_log-quiet block logsz fs quiet whole =
    let log = take logsz block in
    let db1 = record fs.db {
      file = write_at fs.db.pos log fs.db.file;
      pos = fs.db.pos + length log;
    } in
    ground (
      arith,
      whole,
      io_write-quiet log fs.db quiet,
      io_write-quiet (encode32 (logsz + 4)) db1 quiet,
    )

merge_block-quiet :
    (block : List ℕ) (logsz n minsz kept : ℕ) (fs : Files)
    → fs.db.script ≡ []
    → index_from_offset logsz ≡ n
    → trim n block (connection_offset n) logsz ≡ (minsz, kept)
    → minsz < 9223372036854775808
    → merge_block block logsz fs
      ≡ append_log block kept
          (record fs { db = record fs.db { file = truncate minsz fs.db.file; pos = minsz } })
unfolding merge_block truncate
merge_block-quiet block logsz n minsz kept fs quiet sections trimmed small =
    ground (arith, quiet, sections, trimmed)

merge_read-quiet :
    (block : List ℕ) (q : ℕ) (fs : Files)
    → fs.log.script ≡ []
    → log_read fs.dir.memory read_no_trailer fs.log ≡ (content block, at q fs.log)
    → merge_read fs
      ≡ merge_block block fs.log.file.size (record fs { log = at fs.log.file.size fs.log })
unfolding merge_read
merge_read-quiet block q fs quiet read = ground (arith, quiet, read)

log_close_merge-quiet :
    (fs : Files)
    → fs.log.script ≡ []
    → log_close_merge fs ≡ merge_read (record fs { log = at 0 fs.log })
unfolding log_close_merge
log_close_merge-quiet fs quiet = ground (arith, quiet)

-- No call fails, and there is a log of `n` entries with a valid header.
pub record IsQuiet (n : ℕ) (fs : Files) : Type 0 where
  pub log : IsLog n fs.log
  pub few : n < 65536
  pub valid : is_log_header (read_at 0 6 fs.log.file) ≡ true
  pub shorts : HasShorts fs.log.file
  pub db : fs.db.script ≡ []
  pub calls : fs.dir.calls ≡ []
  pub path : File
  pub there : fs.dir.log ≡ some path
  pub memory : (k : ℕ) → fs.dir.memory k ≡ true

-- The bytes of a log of `n` entries.
abbrev pub block_of : ℕ → Files → List ℕ
block_of n fs = read_at 0 (log_offset n) fs.log.file

-- What is left: the data up to the last valid byte, the log without its last empty entries, and the
-- trailer; and no file for the log.
pub record Merged (n : ℕ) (fs : Files) (out : Closed × Files) : Type 0 where
  pub after : Files
  pub returns : out ≡ (closed, after)
  pub kept : ℕ
  pub within : kept ≤ n
  pub zeros : (j : ℕ) → kept ≤ j → j < n → entry_in (block_of n fs) j ≡ 0
  pub db :
      after.db.file
      ≡ write_at
          (data_end (block_of n fs) kept)
          (take (log_offset kept) (block_of n fs) ++ encode32 (log_offset kept + 4))
          (truncate (data_end (block_of n fs) kept) fs.db.file)
  pub quiet : after.db.script ≡ []
  pub dir : after.dir ≡ record fs.dir { log = none }

module _ (n : ℕ) (fs : Files) (is : IsQuiet n fs) where
  short_entry : (j : ℕ) → j < n → entry_in (block_of n fs) j < section_size
  short_entry j h =
      is.shorts.short j _ (entry_in-entry_at fs.log.file n j h (omega (arith, is.log.size)))

  trimmed : Trimmed (block_of n fs) n (trim n (block_of n fs) (connection_offset n) (log_offset n))
  trimmed = trim-Trimmed (block_of n fs) n is.few short_entry

  data_end-small : (k : ℕ) → k ≤ n → data_end (block_of n fs) k < 9223372036854775808
  unfolding connection_offset
  data_end-small zero h = omega arith
  data_end-small (suc i) h = omega (arith, short_entry i (omega arith))

  whole_log : (k : ℕ) → k ≤ n → length (take (log_offset k) (block_of n fs)) ≡ log_offset k
  unfolding log_offset
  whole_log k h = omega (
    arith,
    length-take (log_offset k) (block_of n fs),
    length-read_at 0 (log_offset n) fs.log.file,
  )

  log_read-block :
      (q : ℕ) × (log_read fs.dir.memory read_no_trailer (at 0 fs.log)
        ≡ (content (block_of n fs), at q fs.log))
  unfolding log_offset
  log_read-block =
      let (q, e) =
        log_read-quiet fs.dir.memory (at 0 fs.log) is.log.quiet is.memory read_no_trailer (n * 2)
          (inl refl) (omega (arith, is.log.size)) (omega (arith, is.log.size, is.few)) is.valid in
      (q, e)

  pub log_close_merge-Merged : Merged n fs (log_close_merge fs)
  log_close_merge-Merged =
      let t = trimmed in
      let block = block_of n fs in
      let (q, read) = log_read-block in
      let log = take (log_offset t.kept) block in
      let cut = record fs.db {
        file = truncate (data_end block t.kept) fs.db.file;
        pos = data_end block t.kept;
      } in
      record {
        after = record {
          db = with_log log cut;
          log = at fs.log.file.size fs.log;
          dir = record fs.dir { log = none };
        };
        returns =
            log_close_merge-quiet fs is.log.quiet
            ∙ merge_read-quiet block q (record fs { log = at 0 fs.log }) is.log.quiet read
            ∙ merge_block-quiet block _ n _ _ _ is.db
                (ap index_from_offset is.log.size ∙ index_of_end n (omega (arith, is.few)))
                (ap (trim n block (connection_offset n)) is.log.size ∙ t.result)
                (data_end-small t.kept t.within)
            ∙ append_log-quiet block _ _ is.db (whole_log t.kept t.within)
            ∙ finish-quiet _ is.calls is.there;
        kept = t.kept;
        within = t.within;
        zeros = t.zeros;
        db =
            write_at-append (data_end block t.kept) log (encode32 (length log + 4)) cut.file
            ∙ ap (λ k. write_at (data_end block t.kept) (log ++ encode32 (k + 4)) cut.file)
                (whole_log t.kept t.within);
        quiet = is.db;
        dir = refl;
      }

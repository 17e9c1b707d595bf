-- ===== src/Log/Create/Quiet.antt =====
-- `logdb_log_create` with a log at the end of the database file, when no call fails.
use native.Mathlib.Decide.{dec_lt}
use logdb.Prelude.{
  ℕ, ◌+◌, ◌-◌, ◌≤◌, ◌<◌, ◌≡◌, refl, sym, ap, ◌∙◌, true, none, some, List, [], ◌∷◌, arith, length,
  take, drop, inr, length-drop, take-length,
}
use logdb.File.{File, read_at, write_at, empty_file}
use logdb.File.Laws.{length-read_at}
use logdb.Io.{Fd}
use logdb.Io.Quiet.{io_pwrite-quiet}
use logdb.Io.Streams.{seek_back}
use logdb.Io.Streams.Equal.{at}
use logdb.Io.Streams.Quiet.{io_read-quiet}
use logdb.Log.Layout.{encode32, decode32-encode32}
use logdb.Log.Header.{Memory, content, is_log_header, read_has_trailer}
use logdb.Log.Header.Quiet.{log_read-quiet}
use logdb.Log.Create.{
  Dir, opened, found, created, log_new, log_at, log_in_db, write_log, write_found, log_create,
}

-- No call on the log fails, and there is no file at its path.
pub record IsFree (dir : Dir) : Type 0 where
  pub log : dir.log ≡ none
  pub calls : dir.calls ≡ []
  pub script : dir.script ≡ []
  pub memory : (k : ℕ) → dir.memory k ≡ true

pub write_at-empty :
    (off : ℕ) (xs : List ℕ) → length xs ≡ 0 → write_at off xs empty_file ≡ empty_file
unfolding write_at
write_at-empty off [] h = refl
write_at-empty off (x ∷ xs) h = absurd (omega (arith, h))

pub seek_back-quiet :
    (back m : ℕ) (fd : Fd)
    → fd.script ≡ []
    → fd.file.size ≡ m + back
    → seek_back back fd ≡ (some m, at m fd)
seek_back-quiet back m fd quiet size = ground (arith, quiet, size, there (fd.file.size))
  where
    there : (n : ℕ) → n ≡ m + back → n - back ≡ m
    there n e = omega (arith, e)

-- The log file with these bytes.
abbrev pub new_log : List ℕ → File
new_log header = write_at 0 (take 6 header) (write_at 6 (drop 6 header) empty_file)

module _ (header : List ℕ) (dir : Dir) (is : IsFree dir) where
  abbrev fd0 : Fd
  fd0 = opened empty_file dir

  -- With entries, and without.
  write_log-some :
      6 < length header
      → write_log header (length header) dir
        ≡ (created (record fd0 { file = new_log header }), record dir { log = some empty_file })
  unfolding write_log log_new
  write_log-some long =
      let entries = take (length header - 6) (drop 6 header) in
      let fd1 = record fd0 { file = write_at 6 entries empty_file } in
      ground (
        arith,
        is.log,
        is.calls,
        is.memory 24,
        all,
        io_pwrite-quiet entries 6 fd0 is.script,
        io_pwrite-quiet (take 6 header) 0 fd1 is.script,
      )
    where
      all : take (length header - 6) (drop 6 header) ≡ drop 6 header
      all =
          ap (λ n. take n (drop 6 header)) (sym (length-drop 6 header))
          ∙ take-length (drop 6 header)

  write_log-none :
      length header ≡ 6
      → write_log header (length header) dir
        ≡ (created (record fd0 { file = new_log header }), record dir { log = some empty_file })
  unfolding write_log log_new
  write_log-none short = ground (
    arith,
    is.log,
    is.calls,
    is.memory 24,
    none_more,
    io_pwrite-quiet (take 6 header) 0 fd0 is.script,
  )
    where
      none_more : write_at 6 (drop 6 header) empty_file ≡ empty_file
      none_more = write_at-empty 6 (drop 6 header) (omega (arith, short, length-drop 6 header))

module _ (m k : ℕ) (db : Fd) where
  -- A log of `6 + k` bytes with its trailer at the end of the file.
  pub record EndsInLog : Type 0 where
    pub size : db.file.size ≡ m + (6 + k) + 4
    pub trailer : read_at (m + (6 + k)) 4 db.file ≡ encode32 (6 + k + 4)
    pub valid : is_log_header (read_at m 6 db.file) ≡ true
    pub quiet : db.script ≡ []
    pub small : db.file.size < 9223372036854775808
    pub short : k < 4294967000
    pub some_data : 6 ≤ m

  module _ (memory : Memory) (enough : (n : ℕ) → memory n ≡ true) (is : EndsInLog) where
    log_at-quiet :
        (q : ℕ) × (log_at memory (6 + k + 4) db
          ≡ (found (content (read_at m (6 + k) db.file)) (6 + k), at q db))
    unfolding log_at
    log_at-quiet =
        let (q, read) =
          log_read-quiet memory (at m db) is.quiet enough read_has_trailer k (inr refl)
            (omega (arith, is.size)) is.small is.valid in
        (
          q,
          ground (
            arith,
            seek_back-quiet (6 + k + 4) m db is.quiet (omega (arith, is.size)),
            read,
            is.short,
          ),
        )

    log_in_db-quiet : log_in_db memory db ≡ log_at memory (6 + k + 4) (at db.file.size db)
    unfolding log_in_db
    log_in_db-quiet =
        let before = m + (6 + k) in
        ground (
          arith,
          seek_back-quiet 4 before db is.quiet (omega (arith, is.size)),
          io_read-quiet 4 (at before db) is.quiet (omega arith) (omega (arith, is.size)),
          is.trailer,
          decode32-encode32 (6 + k + 4),
          is.short,
          is.size,
        )

write_log-quiet :
    (header : List ℕ) (dir : Dir)
    → IsFree dir
    → 6 ≤ length header
    → write_log header (length header) dir ≡ (
      created (record (opened empty_file dir) { file = new_log header }),
      record dir { log = some empty_file },
    )
write_log-quiet header dir is long = elim (dec_lt 6 (length header)) [
  | yes more ↦ write_log-some header dir is more
  | no short ↦ write_log-none header dir is (omega arith)
]

-- The log that stands at the end of the database file becomes the new log file.
pub log_create-quiet :
    (m k : ℕ) (db : Fd) (dir : Dir)
    → EndsInLog m k db
    → IsFree dir
    → (q : ℕ) × (log_create db dir ≡ (
      created (record (opened empty_file dir) { file = new_log (read_at m (6 + k) db.file) }),
      at q db,
      record dir { log = some empty_file },
    ))
unfolding log_create write_found
log_create-quiet m k db dir ends free =
    let header = read_at m (6 + k) db.file in
    let at_end = at db.file.size db in
    let ends' : EndsInLog m k at_end = record {
      size = ends.size;
      trailer = ends.trailer;
      valid = ends.valid;
      quiet = ends.quiet;
      small = ends.small;
      short = ends.short;
      some_data = ends.some_data;
    } in
    let (q, e) = log_at-quiet m k at_end dir.memory free.memory ends' in
    let there = log_in_db-quiet m k at_end dir.memory free.memory ends' in
    let written =
      write_log-quiet header dir free (omega (arith, length-read_at m (6 + k) db.file)) in
    (q, ground (arith, ends.quiet, ends.size, there, e, written, length-read_at m (6 + k) db.file))

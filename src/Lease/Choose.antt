-- ===== src/Lease/Choose.antt =====
-- The choice of a section in `logdb_lease_acquire_write`, when no call fails.
use logdb.Prelude.{
  ℕ, suc, ◌+◌, ◌-◌, ◌≤◌, ◌<◌, ◌≡◌, refl, ap, subst, ◌∙◌, ◌⊎◌, Option, none, some, [], arith,
  Option-cases, inl, inr, sub32,
}
use logdb.File.{read_at, write_at}
use logdb.File.Laws.{read_at-write_at_before}
use logdb.Io.{Fd}
use logdb.Log.Layout.{
  section_size, log_offset, log_offset-suc, index_from_offset, index_from_offset-log_offset,
  encode16,
}
use logdb.Log.Entry.{entry_at}
use logdb.Log.Entry.Laws.{entry_at-append, entry_at-end}
use logdb.Lease.Grant.{Walked, walk, Chosen, append_entry, choose, sys_append}
use logdb.Lease.Walk.{HasSpace, IsFull, Finds, walk-quiet}

-- A log of `n` entries with nothing behind them, and no error ahead.
pub record IsLog (n : ℕ) (log : Fd) : Type 0 where
  pub size : log.file.size ≡ log_offset n
  pub few : n < 4294967295
  pub quiet : log.script ≡ []

-- What is chosen among the last entries before `top`, or appended.
pub record Choice (n top size : ℕ) (log : Fd) (index offset : ℕ) (log' : Fd) : Type 0 where
  pub quiet : log'.script ≡ []
  pub space : HasSpace log'.file index size offset
  pub grown :
      (j : ℕ)
      → (entry_at log'.file j ≡ entry_at log.file j)
        ⊎ ((entry_at log.file j ≡ none) × (entry_at log'.file j ≡ some 0))
  pub inside : log_offset index + 2 ≤ log'.file.size
  pub header : read_at 0 6 log'.file ≡ read_at 0 6 log.file
  -- the number of entries afterwards
  pub count : ℕ
  pub counted :
      (log'.file.size ≡ log_offset count) × (n ≤ count) × (count ≤ suc n) × (index < count)
  pub last :
      ((index < top)
        × (top ≤ index + 4)
        × (log'.file ≡ log.file)
        × ((j : ℕ) → index < j → j < top → IsFull log.file size j))
      ⊎ ((index ≡ n) × (offset ≡ 0) × ((j : ℕ) → j < top → top ≤ j + 4 → IsFull log.file size j))

pub index_of_end : (n : ℕ) → n < 4294967296 → index_from_offset (log_offset n) ≡ n
index_of_end n h =
    ap index_from_offset (omega arith) ∙ index_from_offset-log_offset n 0 h (omega arith)

module _ (n : ℕ) (log : Fd) (is : IsLog n log) where
  append_entry-quiet : append_entry log ≡ (
    some (record { index = n; offset = 0; visited = 1 }),
    record log { file = write_at log.file.size (encode16 0) log.file; pos = log.file.size + 2 },
  )
  unfolding append_entry sys_append
  append_entry-quiet =
      let e = index_of_end (suc n) (omega (arith, is.few)) in
      ground (arith, is.quiet, is.few, e, ap index_from_offset (end_of is.size))
    where
      end_of : log.file.size ≡ log_offset n → log.file.size + 2 ≡ log_offset (suc n)
      end_of h = omega (arith, log_offset-suc n)

-- The descriptor after `lseek (fd, 0, SEEK_END)`.
abbrev pub at_end : Fd → Fd
at_end log = record log { pos = log.file.size }

module _ (n visited size : ℕ) (log : Fd) (is : IsLog n log) (few : visited ≤ n) where
  abbrev pub walked : Walked
  walked = walk (n - visited) 0 size (at_end log)

  top_of : sub32 (index_from_offset log.file.size) visited ≡ n - visited
  top_of =
      ap (λ m. sub32 m visited)
        (ap index_from_offset is.size ∙ index_of_end n (omega (arith, is.few)))
      ∙ omega (arith, is.few)

  pub choose-found :
      (i len : ℕ)
      → walked.found ≡ some (i, len)
      → choose visited size log
        ≡ (some (record { index = i; offset = len; visited = walked.visited }), walked.log)
  unfolding choose
  choose-found i len e = ground (arith, is.quiet, top_of)

  choose-append : walked.found ≡ none → choose visited size log ≡ append_entry walked.log
  unfolding choose
  choose-append e = ground (arith, is.quiet, top_of)

pub log_offset_mono : (i n : ℕ) → i ≤ n → log_offset i ≤ log_offset n
unfolding log_offset
log_offset_mono i n h = omega arith

first_offset : log_offset 0 ≡ 6
unfolding log_offset
first_offset = refl

-- The outcome of one round up to the call of `logdb_log_lock`.
pub record ChosenQuietly (n visited size : ℕ) (log : Fd) (out : Option Chosen × Fd) : Type 0 where
  pub chosen : Chosen
  pub found : out.0 ≡ some chosen
  pub choice : Choice n (n - visited) size log chosen.index chosen.offset out.1

module _ (n visited size : ℕ) (log : Fd) (is : IsLog n log) (few : visited ≤ n)
    (fits : size ≤ section_size) where
  found-Choice :
      (i len : ℕ) (w : Walked)
      → w.found ≡ some (i, len)
      → Finds log.file (n - visited) 0 size w.found
      → w.log ≡ at_end log
      → Choice n (n - visited) size log i len w.log
  found-Choice i len w e f same =
      let (below, near, space, later) = subst (Finds log.file (n - visited) 0 size) e f in
      rw same (record {
        quiet = is.quiet;
        space = space;
        grown = λ j. inl refl;
        inside = omega (arith, is.size, log_offset_mono (suc i) n (omega arith), log_offset-suc i);
        header = refl;
        count = n;
        counted = (is.size, omega arith, omega arith, omega arith);
        last = inl (below, omega (arith, near), refl, later);
      })

  append-Choice :
      (w : Walked)
      → w.found ≡ none
      → Finds log.file (n - visited) 0 size w.found
      → w.log ≡ at_end log
      → ChosenQuietly n visited size log (append_entry w.log)
  append-Choice w e f same =
      let full = subst (Finds log.file (n - visited) 0 size) e f in
      let at_n = λ (j : ℕ). entry_at-append log.file n j is.size in
      rw
        (
          same,
          append_entry-quiet n (at_end log)
              (record { size = is.size; few = is.few; quiet = is.quiet }),
        )
        (record {
          chosen = record { index = n; offset = 0; visited = 1 };
          found = refl;
          choice = record {
            quiet = is.quiet;
            space = record { entry = ground (arith, at_n n); room = omega arith };
            grown = λ j. ground (arith, at_n j, entry_at-end log.file n is.size);
            inside = unfold write_at in omega (arith, is.size);
            header =
                read_at-write_at_before 0 6 log.file.size (encode16 0) log.file
                  (omega (arith, is.size, log_offset_mono 0 n (omega arith), first_offset));
            count = suc n;
            counted = (
              unfold write_at in omega (arith, is.size, log_offset-suc n),
              omega arith,
              omega arith,
              omega arith,
            );
            last = inr (refl, refl, λ j h k. full j h (omega arith));
          };
        })

  pub choose-quiet : ChosenQuietly n visited size log (choose visited size log)
  choose-quiet =
      let w = walk (n - visited) 0 size (at_end log) in
      let (f, same) =
        walk-quiet (n - visited) 0 size (at_end log) is.quiet
          (omega (arith, is.size, log_offset_mono (n - visited) n (omega arith))) in
      elim (Option-cases w.found) [
        | inl none_found ↦
            rw (choose-append n visited size log is few none_found)
              (append-Choice w none_found f same)
        | inr ((i, len), hit) ↦ rw (choose-found n visited size log is few i len hit) (record {
          chosen = record { index = i; offset = len; visited = w.visited };
          found = refl;
          choice = found-Choice i len w hit f same;
        })
      ]

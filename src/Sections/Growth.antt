-- ===== src/Sections/Growth.antt =====
-- The sections when an entry of zero bytes is appended to the log.
use logdb.Prelude.{ℕ, ◌≤◌, ◌<◌, ◌≡◌, sym, ap, ◌∙◌, ◌⊎◌, inl, inr, none, some, [], arith}
use logdb.File.{File}
use logdb.Log.Layout.{section_size, log_offset, connection_offset}
use logdb.Log.Entry.{entry_at}
use logdb.Sections.{of_entry, stored, HasShorts}
use logdb.File.Laws.{read_none}

-- A new entry of zero bytes changes no section.
pub stored-grown :
    (db log log' : File) (j : ℕ)
    → (entry_at log' j ≡ entry_at log j) ⊎ ((entry_at log j ≡ none) × (entry_at log' j ≡ some 0))
    → stored db log' j ≡ stored db log j
unfolding stored
stored-grown db log log' j (inl same) = ap (of_entry db j) same
stored-grown db log log' j (inr (before, after)) =
    ap (of_entry db j) after ∙ read_none db (connection_offset j) ∙ sym (ap (of_entry db j) before)

-- Behind the last entry there is no section.
pub stored-none : (db log : File) (n j : ℕ) → log.size ≡ log_offset n → n ≤ j → stored db log j ≡ []
unfolding stored entry_at log_offset
stored-none db log n j size h = ground arith

pub HasShorts-grown :
    (log log' : File)
    → ((j : ℕ)
        → (entry_at log' j ≡ entry_at log j)
          ⊎ ((entry_at log j ≡ none) × (entry_at log' j ≡ some 0)))
    → HasShorts log
    → HasShorts log'
HasShorts-grown log log' grown shorts = record { short = λ j len e. shorter j len e (grown j) }
  where
    shorter :
        (j len : ℕ)
        → entry_at log' j ≡ some len
        → (entry_at log' j ≡ entry_at log j)
          ⊎ ((entry_at log j ≡ none) × (entry_at log' j ≡ some 0))
        → len < section_size
    shorter j len e (inl same) = shorts.short j len (sym same ∙ e)
    shorter j len e (inr (before, after)) = ground arith

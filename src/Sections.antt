-- ===== src/Sections.antt =====
-- What the two files stand for: the valid bytes of each section, which the entry of the section in
-- the log measures, at its offset in the database file.
pub mod Growth
pub mod Laws
use logdb.Prelude.{ℕ, Option, none, some, List, [], ◌<◌, ◌≡◌}
use logdb.File.{File, read_at}
use logdb.Log.Layout.{section_size, connection_offset}
use logdb.Log.Entry.{entry_at}

-- No bytes for a section without an entry.
abbrev pub of_entry : File → ℕ → Option ℕ → List ℕ
of_entry db index none = []
of_entry db index (some len) = read_at (connection_offset index) len db

unfoldable pub stored : File → File → ℕ → List ℕ
stored db log index = of_entry db index (entry_at log index)

-- An entry is an `unsigned short`.
pub record HasShorts (log : File) : Type 0 where
  pub short : (index len : ℕ) → entry_at log index ≡ some len → len < section_size

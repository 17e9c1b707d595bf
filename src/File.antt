-- ===== src/File.antt =====
-- Files as the operating system keeps them: bytes up to a size. A write behind the end fills the
-- hole with zeros. Nothing here models code of the repository; it is what the system calls of
-- src/logdb_io.c act on.
pub mod Laws
use logdb.Prelude.{
  ℕ, zero, suc, ◌+◌, ◌-◌, max, Bool, ◌&&◌, List, [], ◌∷◌, ltb, leb, if◌then◌else◌, length, get_or,
}

pub record File : Type 0 where
  pub size : ℕ
  pub at : ℕ → ℕ

-- The byte at an offset, zero behind the end.
abbrev pub byte : File → ℕ → ℕ
byte f i = if ltb i f.size then f.at i else 0

-- The offset `i` lies in the `n` bytes from `off`.
abbrev pub inside : ℕ → ℕ → ℕ → Bool
inside off n i = leb off i && ltb i (off + n)

unfoldable pub write_at : ℕ → List ℕ → File → File
write_at off [] f = f
write_at off (x ∷ xs) f =
    let bytes = x ∷ xs in
    record {
      size = max f.size (off + length bytes);
      at = λ i. if inside off (length bytes) i then get_or bytes (i - off) 0 else byte f i;
    }

-- The `n` bytes from `off`, zeros behind the end.
unfoldable pub read_at : ℕ → ℕ → File → List ℕ
read_at off zero f = []
read_at off (suc n) f = byte f off ∷ read_at (off + 1) n f

unfoldable pub truncate : ℕ → File → File
truncate n f = record { size = n; at = byte f }

abbrev pub empty_file : File
empty_file = record { size = 0; at = λ _. 0 }

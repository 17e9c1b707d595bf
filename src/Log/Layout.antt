-- ===== src/Log/Layout.antt =====
-- Where things stand in the two files: `logdb_log_offset` and `logdb_log_index_from_offset` of
-- src/logdb_log.c, `logdb_connection_offset` of src/logdb_connection.c, and the sizes of the packed
-- structures of src/logdb_log.h, src/logdb_connection.h, src/logdb_data.h. Numbers are stored in
-- little-endian order, as misc/LogDB.grammar says.
use logdb.Prelude.{
  ℕ, suc, ◌+◌, ◌-◌, ◌*◌, ◌/◌, ◌%◌, ◌<◌, ◌≡◌, ◌≢◌, arith, List, [], ◌∷◌, ltb, if◌then◌else◌, u16,
  u32,
}

abbrev pub log_header_size : ℕ
log_header_size = 6

abbrev pub log_entry_size : ℕ
log_entry_size = 2

abbrev pub header_size : ℕ
header_size = 6

abbrev pub trailer_size : ℕ
trailer_size = 4

abbrev pub data_header_size : ℕ
data_header_size = 8

-- `LOGDB_SECTION_SIZE`
abbrev pub section_size : ℕ
section_size = 65536

-- The product is a `size_t`.
unfoldable pub log_offset : ℕ → ℕ
log_offset index = log_header_size + index * log_entry_size

unfoldable pub index_from_offset : ℕ → ℕ
index_from_offset offset =
    if ltb offset log_header_size then 0 else u32 ((offset - log_header_size) / log_entry_size)

-- The product is an `unsigned int`, which wraps.
unfoldable pub connection_offset : ℕ → ℕ
connection_offset index = header_size + u32 (index * section_size)

abbrev pub encode16 : ℕ → List ℕ
encode16 n = n % 256 ∷ n / 256 % 256 ∷ []

unfoldable pub decode16 : List ℕ → ℕ
decode16 (a ∷ b ∷ _) = a + b * 256
decode16 _ = 0

abbrev pub encode32 : ℕ → List ℕ
encode32 n = n % 256 ∷ n / 256 % 256 ∷ n / 65536 % 256 ∷ n / 16777216 % 256 ∷ []

unfoldable pub decode32 : List ℕ → ℕ
decode32 (a ∷ b ∷ c ∷ d ∷ _) = a + b * 256 + c * 65536 + d * 16777216
decode32 _ = 0

pub decode16-encode16 : (n : ℕ) → decode16 (encode16 n) ≡ u16 n
unfolding decode16
decode16-encode16 n = omega arith

pub decode32-encode32 : (n : ℕ) → decode32 (encode32 n) ≡ u32 n
unfolding decode32
decode32-encode32 n = omega arith

pub log_offset-suc : (index : ℕ) → log_offset (suc index) ≡ log_offset index + 2
unfolding log_offset
log_offset-suc index = omega arith

-- The offset of an entry gives its index back, and the end of the log the number of entries; an
-- odd byte at the end is no entry. Indices are below 2^32.
pub index_from_offset-log_offset :
    (index odd : ℕ)
    → index < 4294967296
    → odd < 2
    → index_from_offset (log_offset index + odd) ≡ index
unfolding index_from_offset log_offset
index_from_offset-log_offset index odd h k = ground arith

-- Two sections below 2^16 have no byte of the database file in common.
pub sections_apart :
    (i j a b : ℕ)
    → i < 65536
    → j < 65536
    → i ≢ j
    → a < section_size
    → b < section_size
    → connection_offset i + a ≢ connection_offset j + b
unfolding connection_offset
sections_apart i j a b hi hj ne ha hb e = ne (omega arith)

-- The section 2^16 after another one is given the same offset in the database file.
pub sections_wrap : (i : ℕ) → connection_offset (i + 65536) ≡ connection_offset i
unfolding connection_offset
sections_wrap i = omega arith

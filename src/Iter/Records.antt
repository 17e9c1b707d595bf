-- ===== src/Iter/Records.antt =====
-- The bytes of records, as `logdb_put` writes them and iteration reads them.
use logdb.Prelude.{ℕ, ◌+◌, ◌<◌, ◌≡◌, List, [], ◌∷◌, ◌++◌, arith, length, length-append}
use logdb.Log.Layout.{encode32}

-- A key and a value.
abbrev pub Rec : Type 0
Rec = List ℕ × List ℕ

abbrev pub header_of : Rec → List ℕ
header_of (key, value) = encode32 (length key) ++ encode32 (length value)

abbrev pub encode_record : Rec → List ℕ
encode_record (key, value) = header_of (key, value) ++ (key ++ value)

abbrev pub encode_records : List Rec → List ℕ
encode_records [] = []
encode_records (r ∷ rs) = encode_record r ++ encode_records rs

-- Keys and values have at least one byte.
abbrev pub AreFull : List Rec → Type 0
AreFull [] = Unit {0}
AreFull ((key, value) ∷ rs) = (0 < length key) × (0 < length value) × AreFull rs

pub length-encode_record : (r : Rec) → length (encode_record r) ≡ 8 + (length r.0 + length r.1)
length-encode_record (key, value) = omega (arith, length-append key value)

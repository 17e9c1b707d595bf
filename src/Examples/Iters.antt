-- ===== src/Examples/Iters.antt =====
-- Iteration over a section of two records.
use logdb.Prelude.{
  ℕ, zero, suc, ◌-◌, ◌<◌, ◌≡◌, refl, true, List, [], ◌∷◌, arith, get_or, ◌==◌, if◌then◌else◌,
}
use logdb.File.{File, read_at}
use logdb.Log.Layout.{log_offset, connection_offset, decode16}
use logdb.Log.Entry.{entry_at}
use logdb.Connection.{Conn}
use logdb.Sections.{stored}
use logdb.Iter.{new_iter}
use logdb.Iter.Dump.{dump_loop}
use logdb.Iter.Records.{Rec, encode_records, AreFull}
use logdb.Iter.Sections.{HasRecords}
use logdb.Iter.Whole.{Lists, dump_loop-records_from}
use logdb.Examples.{conn, open_file, heap}

abbrev pub two_records : List Rec
two_records = (7 ∷ [], 8 ∷ 9 ∷ []) ∷ (5 ∷ [], 6 ∷ []) ∷ []

abbrev pub records : ℕ → List Rec
records zero = two_records
records (suc j) = []

abbrev records_file : File
records_file = record { size = 27; at = λ i. get_or (encode_records two_records) (i - 6) 0 }

-- One entry, of 21 bytes.
abbrev entry_file : File
entry_file = record { size = 8; at = λ i. if i == 6 then 21 else 0 }

abbrev filled : Conn
filled = record conn { db = open_file records_file; log = open_file entry_file }

filled-HasRecords : HasRecords 1 records filled
unfolding log_offset connection_offset entry_at read_at decode16 stored
filled-HasRecords = record {
  log = record { size = refl; few = omega arith; quiet = refl };
  shorts = record { short = λ index len e. ground arith };
  quiet = refl;
  readers = omega arith;
  inside = λ j len e. ground arith;
  encoded = encoded;
  full = full;
}
  where
    encoded : (j : ℕ) → j < 1 → stored records_file entry_file j ≡ encode_records (records j)
    encoded zero below = refl
    encoded (suc j) below = absurd (omega (arith, below))

    full : (j : ℕ) → AreFull (records j)
    full zero = (omega arith, omega arith, (omega arith, omega arith, tt))
    full (suc j) = tt

dump_loop-records_from_example : Lists two_records (dump_loop 3 true 2 new_iter filled heap)
dump_loop-records_from_example =
    dump_loop-records_from true 1 1 records filled filled-HasRecords (omega arith) heap 3 refl
      (omega arith) (omega arith)

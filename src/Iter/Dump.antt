-- ===== src/Iter/Dump.antt =====
-- The loop of stress/dump.c over all records, with the data of each in place of what is printed.
use logdb.Prelude.{ℕ, zero, suc, Bool, ◌||◌, Option, some, List, [], ◌∷◌, ◌==◌, if◌then◌else◌}
use logdb.Connection.{Conn}
use logdb.Heap.{null, Block, Command, unfinished, pure, ◌>>=◌}
use logdb.Buffer.{buffer_data}
use logdb.Iter.{Iter, Stepped, iter_next, iter_current_key, iter_current_value}
use logdb.Iter.Records.{Rec}

-- The results of `main` that the loop can give.
abbrev pub no_buffer : ℕ
no_buffer = 9

abbrev pub no_data : ℕ
no_data = 10

-- A round: whether there is a record, and its key and value or the result of `main`.
pub data Round : Type 0 where
  finished : Round
  fails : ℕ → Round
  shows : Rec → Round

abbrev pub shown : Option Block → Option Block → Round
shown (some k) (some v) = shows (k.bytes, v.bytes)
shown _ _ = fails no_data

-- The body of the loop, behind a call of `iter_next` that returned 1.
unfoldable pub show_record : Bool → ℕ → Iter → Conn → Command (Stepped Round)
show_record debug fuel iter conn = do
  (key, iter1, conn1) ← iter_current_key debug iter conn
  (value, iter2, conn2) ← iter_current_value debug iter1 conn1
  if key == null || value == null
      then pure (fails no_buffer, iter2, conn2)
      else (do k ← buffer_data fuel key; v ← buffer_data fuel value; pure (shown k v, iter2, conn2))

unfoldable pub dump_round : Bool → ℕ → Iter → Conn → Command (Stepped Round)
dump_round debug fuel iter conn = do
  (more, iter1, conn1) ← iter_next debug fuel iter conn
  if more then show_record debug fuel iter1 conn1 else pure (finished, iter1, conn1)

-- The whole loop, a number of rounds at most: the records, and the result if it is not 0.
unfoldable pub dump_loop : ℕ → Bool → ℕ → Iter → Conn → Command (Stepped (List Rec × ℕ))
dump_loop zero debug fuel iter conn = λ heap. unfinished
dump_loop (suc rounds) debug fuel iter conn = do
  (round, iter1, conn1) ← dump_round debug fuel iter conn
  elim round [
    | finished ↦ pure (([], 0), iter1, conn1)
    | fails code ↦ pure (([], code), iter1, conn1)
    | shows r ↦ do
      ((rs, code), iter2, conn2) ← dump_loop rounds debug fuel iter1 conn1
      pure ((r ∷ rs, code), iter2, conn2)
  ]

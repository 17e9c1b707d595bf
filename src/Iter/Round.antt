-- ===== src/Iter/Round.antt =====
-- One round of iteration, from the header of a record to its key and value.
use logdb.Prelude.{
  ℕ, suc, ◌≤◌, ◌<◌, ◌≡◌, refl, inr, subst, Bool, true, List, [], ◌∷◌, ◌++◌, arith, length, drop,
  if◌then◌else◌, append_assoc,
}
use logdb.Connection.{Conn}
use logdb.Heap.{null, Heap, Result, answered, pure, ◌>>=◌}
use logdb.Iter.{Iter, Stepped, dispose_old, read_header, skip_rest, iter_next}
use logdb.Iter.Dump.{Round, finished, show_record, dump_round}
use logdb.Iter.Records.{Rec, header_of, encode_record}
use logdb.Iter.Visit.{
  StandsAt, StandsAt-past, Owns, emptied, past, Disposed, dispose_old-Disposed, header_piece,
  in_lease,
}
use logdb.Iter.Pair.{ReadsIn, Between, Shows, at_same_place, show_record-Shows}

drop-end : (l : List ℕ) → drop (length l) l ≡ []
drop-end [] = refl
drop-end (x ∷ xs) = drop-end xs

-- The rest of a round, behind the lease and the skipping of data that were not read.
abbrev pub rest_of_round : Bool → ℕ → Iter → Conn → Heap → Result (Stepped Round)
rest_of_round debug fuel iter conn =
    (read_header fuel iter conn >>= λ stepped.
    if stepped.0
    then show_record debug fuel stepped.1 stepped.2
    else pure (finished, stepped.1, stepped.2))

-- The header is read.
read_header_lem :
    (fuel : ℕ) (r : Rec) (ys : List ℕ) (conn : Conn) (iter : Iter) (h : Heap)
    (st : StandsAt (header_of r ++ ys) iter conn) (eight : length iter.header ≡ 8)
    (d : Disposed iter (dispose_old (suc fuel) iter h))
    → read_header (suc fuel) iter conn h
      ≡ answered
          (true, record (past (header_of r) (emptied iter)) { header = header_of r }, conn)
          d.after
unfolding read_header
read_header_lem fuel r ys conn iter h st eight d = ground (
  arith,
  d.returns,
  subst (λ n. drop n iter.header ≡ []) eight (drop-end iter.header),
  header_piece r ys (emptied iter) conn d.after (at_same_place iter.header null null st),
)

header_first :
    (r : Rec) (ys : List ℕ) (iter : Iter) (conn : Conn)
    → StandsAt (encode_record r ++ ys) iter conn
    → StandsAt (header_of r ++ (r.0 ++ (r.1 ++ ys))) iter conn
header_first r ys iter conn =
    subst (λ l. StandsAt (header_of r ++ l) iter conn) (append_assoc r.0 r.1 ys)

-- Records of a section, in a round that goes on behind the old one or starts on a new section.
module _ (debug : Bool) (fuel : ℕ) (r : Rec) (ys : List ℕ) (index : ℕ) (conn : Conn)
    (some_key : 0 < length r.0) (some_value : 0 < length r.1) where
  pub rest_of_round-Shows :
      (iter : Iter) (h : Heap)
      → StandsAt (encode_record r ++ ys) iter conn
      → ReadsIn index iter.lease
      → Owns h iter
      → length iter.header ≡ 8
      → Shows r ys index conn (rest_of_round debug (suc fuel) iter conn h)
  rest_of_round-Shows iter h st lease owns eight = record {
    iter = s.iter;
    after = s.after;
    returns = ground (arith, read_header_lem fuel r rest conn iter h at_header eight d, s.returns);
    between = s.between;
  }
    where
      rest : List ℕ
      rest = r.0 ++ (r.1 ++ ys)

      at_header : StandsAt (header_of r ++ rest) iter conn
      at_header = header_first r ys iter conn st

      d : Disposed iter (dispose_old (suc fuel) iter h)
      d = dispose_old-Disposed fuel iter h owns

      behind :
          StandsAt rest (record (past (header_of r) (emptied iter)) { header = header_of r }) conn
      behind =
          at_same_place (header_of r) null null
            (StandsAt-past (header_of r) rest iter conn (omega arith) at_header)

      s : Shows r ys index conn (
          show_record debug
            (suc fuel)
            (record (past (header_of r) (emptied iter)) { header = header_of r })
            conn
            d.after)
      s =
          show_record-Shows debug fuel r.0 r.1 ys index conn some_key some_value _ d.after refl refl
            refl behind lease d.memory d.some_address

  -- A round between two records.
  pub dump_round-Shows :
      (iter : Iter) (h : Heap)
      → Between (encode_record r ++ ys) index conn iter h
      → Shows r ys index conn (dump_round debug (suc fuel) iter conn h)
  unfolding dump_round iter_next skip_rest
  dump_round-Shows iter h b = record {
    iter = s.iter;
    after = s.after;
    returns = ground (arith, long, b.key.some_address, b.value.some_address, s.returns);
    between = s.between;
  }
    where
      long : 8 ≤ iter.lease.len
      long =
          in_lease (header_of r) (r.0 ++ (r.1 ++ ys)) iter conn (omega arith)
            (header_first r ys iter conn b.stands)

      s : Shows r ys index conn (rest_of_round debug (suc fuel) iter conn h)
      s =
          rest_of_round-Shows iter h b.stands b.lease
            (record {
              owned = inr (b.key, b.value, b.apart);
              memory = b.memory;
              some_address = b.some_address;
            })
            b.header

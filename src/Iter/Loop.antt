-- ===== src/Iter/Loop.antt =====
-- The loop of stress/dump.c in steps: its end, one more record, and the records of a section.
use logdb.Prelude.{ℕ, zero, suc, ◌<◌, ◌≡◌, Bool, false, List, [], ◌∷◌, ◌++◌, arith, length}
use logdb.Connection.{Conn}
use logdb.Heap.{Heap, answered}
use logdb.Iter.{Iter}
use logdb.Iter.Dump.{finished, shows, dump_round, dump_loop}
use logdb.Iter.Records.{Rec, encode_records, AreFull}
use logdb.Iter.Pair.{Between}
use logdb.Iter.Visit.{Owns}
use logdb.Iter.Round.{dump_round-Shows}

-- The loop shows these records and ends, on the files of `base`, with an iterator without a lease.
pub record Dumps (base : Conn) (debug : Bool) (fuel : ℕ) (conn : Conn) (iter : Iter) (h : Heap)
    (rs : List Rec) : Type 0 where
  pub last_iter : Iter
  pub last_conn : Conn
  pub last_heap : Heap
  pub idle : last_iter.leasing ≡ false
  pub owns : Owns last_heap last_iter
  pub kept : (last_conn.db ≡ base.db) × (last_conn.log.file ≡ base.log.file)
  pub returns :
      (rounds : ℕ)
      → length rs < rounds
      → dump_loop rounds debug fuel iter conn h ≡ answered ((rs, 0), last_iter, last_conn) last_heap

module _ (base : Conn) (debug : Bool) (fuel : ℕ) (conn : Conn) (iter : Iter) (h : Heap) where
  pub dump_end :
      (iter1 : Iter) (conn1 : Conn) (h1 : Heap)
      → dump_round debug fuel iter conn h ≡ answered (finished, iter1, conn1) h1
      → iter1.leasing ≡ false
      → Owns h1 iter1
      → (conn1.db ≡ base.db) × (conn1.log.file ≡ base.log.file)
      → Dumps base debug fuel conn iter h []
  unfolding dump_loop
  dump_end iter1 conn1 h1 e idle owns kept = record {
    last_iter = iter1;
    last_conn = conn1;
    last_heap = h1;
    idle = idle;
    owns = owns;
    kept = kept;
    returns = returns;
  }
    where
      returns :
          (rounds : ℕ)
          → 0 < rounds
          → dump_loop rounds debug fuel iter conn h ≡ answered (([], 0), iter1, conn1) h1
      returns zero some_rounds = absurd (omega (arith, some_rounds))
      returns (suc rounds) some_rounds = ground (arith, e)

  pub dump_more :
      (r : Rec) (rs : List Rec) (iter1 : Iter) (conn1 : Conn) (h1 : Heap)
      → dump_round debug fuel iter conn h ≡ answered (shows r, iter1, conn1) h1
      → Dumps base debug fuel conn1 iter1 h1 rs
      → Dumps base debug fuel conn iter h (r ∷ rs)
  unfolding dump_loop
  dump_more r rs iter1 conn1 h1 e d = record {
    last_iter = d.last_iter;
    last_conn = d.last_conn;
    last_heap = d.last_heap;
    idle = d.idle;
    owns = d.owns;
    kept = d.kept;
    returns = returns;
  }
    where
      returns :
          (rounds : ℕ)
          → suc (length rs) < rounds
          → dump_loop rounds debug fuel iter conn h
            ≡ answered ((r ∷ rs, 0), d.last_iter, d.last_conn) d.last_heap
      returns zero enough = absurd (omega (arith, enough))
      returns (suc rounds) enough = ground (arith, e, d.returns rounds (omega (arith, enough)))

-- The records of one section, to its end.
pub dump_section :
    (base : Conn) (debug : Bool) (fuel index : ℕ) (conn : Conn) (rs later : List Rec)
    (go_on : (iter : Iter) (h : Heap)
      → Between [] index conn iter h
      → Dumps base debug (suc fuel) conn iter h later)
    (full : AreFull rs) (iter : Iter) (h : Heap)
    → Between (encode_records rs) index conn iter h
    → Dumps base debug (suc fuel) conn iter h (rs ++ later)
dump_section base debug fuel index conn [] later go_on full iter h b = go_on iter h b
dump_section base debug fuel index conn (r ∷ rs) later go_on full iter h b =
    let s = dump_round-Shows debug fuel r (encode_records rs) index conn full.0 full.1 iter h b in
    dump_more base debug (suc fuel) conn iter h r (rs ++ later) s.iter conn s.after s.returns
      (dump_section base debug fuel index conn rs later go_on full.2 s.iter s.after s.between)

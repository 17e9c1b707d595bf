-- ===== src/Iter/Whole.antt =====
-- The whole iteration: the loop of stress/dump.c goes through the records of all sections in order.
use logdb.Prelude.{
  ℕ, zero, suc, ◌+◌, ◌-◌, ◌≤◌, ◌<◌, ◌≡◌, refl, sym, ap, ◌∙◌, inl, inr, subst, Bool, true, false,
  some, List, [], ◌∷◌, ◌++◌, arith, length,
}
use logdb.File.{read_at}
use logdb.File.Laws.{length-read_at}
use logdb.Io.{Fd}
use logdb.Log.Lock.{lock_none}
use logdb.Log.Entry.{entry_at}
use logdb.Connection.{Conn}
use logdb.Connection.Locking.{rdunlock}
use logdb.Heap.{Heap, Result, answered}
use logdb.Sections.Laws.{stored-some}
use logdb.Lease.{Lease, lease_release}
use logdb.Iter.{
  Iter, Stepped, at_entry, no_entry, find_entry, drop_lease, next_lease, iter_next, new_iter,
}
use logdb.Iter.Dump.{finished, dump_round, dump_loop}
use logdb.Iter.Loop.{Dumps, dump_end, dump_more, dump_section}
use logdb.Iter.Records.{Rec, encode_records, AreFull}
use logdb.Iter.Reads.{start_of}
use logdb.Iter.Visit.{StandsAt, Owns}
use logdb.Iter.Pair.{Between, ReadsIn}
use logdb.Iter.Round.{rest_of_round, rest_of_round-Shows}
use logdb.Iter.Sections.{
  HasRecords, records_from, find_entry-Next, lease_on, reading, acquire_read-quiet,
}

-- The next round looks for a section from `i` on; the lease that it drops gives this connection
-- back.
record Due (i : ℕ) (conn c : Conn) (iter : Iter) (h : Heap) : Type 0 where
  short : iter.lease.len < 8
  dropped : drop_lease iter c ≡ (i, record iter { leasing = false }, conn)
  owns : Owns h iter
  header : length iter.header ≡ 8

-- The loop ends, and these are the records that it shows.
pub record Lists (rs : List Rec) (res : Result (Stepped (List Rec × ℕ))) : Type 0 where
  pub iter : Iter
  pub conn : Conn
  pub heap : Heap
  pub returns : res ≡ answered ((rs, 0), iter, conn) heap

module _ (debug : Bool) (fuel n : ℕ) (rs : ℕ → List Rec) (conn : Conn) (has : HasRecords n rs conn)
    (enough : n ≤ fuel) where
  lease_release-read :
      (lease : Lease) → lease.type ≡ lock_none → lease_release lease (reading n rs conn has) ≡ conn
  unfolding lease_release rdunlock
  lease_release-read lease e = rw e (λ i. record conn { readers = same i })
    where
      same : conn.readers + 1 - 1 ≡ conn.readers
      same = omega arith

  -- At the end of a section.
  section-Due :
      (index : ℕ) (iter : Iter) (h : Heap)
      → index < n
      → Between [] index (reading n rs conn has) iter h
      → Due (suc index) conn (reading n rs conn has) iter h
  section-Due index iter h below b = record {
    short = omega (
      arith,
      ap length b.stands.content,
      length-read_at (start_of iter.lease) iter.lease.len conn.db.file,
    );
    dropped =
        ground (arith, b.stands.leasing, b.lease.0, few, lease_release-read iter.lease b.lease.1);
    owns = record {
      owned = inr (b.key, b.value, b.apart);
      memory = b.memory;
      some_address = b.some_address;
    };
    header = b.header;
  }
    where
      few : suc index < 4294967296
      few = omega (arith, below, has.log.few)

  module _ (i m : ℕ) (c : Conn) (iter : Iter) (h : Heap) (due : Due i conn c iter h)
      (total : i + m ≡ n) where
    last_round :
        (log : Fd)
        → find_entry (suc fuel) i conn.log ≡ (no_entry, log)
        → dump_round debug (suc fuel) iter c h
          ≡ answered (finished, record iter { leasing = false }, record conn { log = log }) h
    unfolding dump_round iter_next next_lease
    last_round log e = ground (arith, due.short, due.dropped, e)

    -- The iterator with the lease on a section.
    abbrev leased : ℕ → ℕ → Iter
    leased j len = record iter { lease = lease_on n rs conn has j len; leasing = true }

    first_round :
        (j len : ℕ)
        → find_entry (suc fuel) i conn.log ≡ (at_entry j, conn.log)
        → j < n
        → entry_at conn.log.file j ≡ some len
        → 0 < len
        → dump_round debug (suc fuel) iter c h
          ≡ rest_of_round debug (suc fuel) (leased j len) (reading n rs conn has) h
    unfolding dump_round iter_next next_lease
    first_round j len e below entry some_bytes = ground (
      arith,
      due.short,
      due.dropped,
      e,
      acquire_read-quiet n rs conn has j len below entry some_bytes,
    )

    -- It stands before the records of the section.
    at_section :
        (j len : ℕ)
        → j < n
        → entry_at conn.log.file j ≡ some len
        → StandsAt (encode_records (rs j)) (leased j len) (reading n rs conn has)
    at_section j len below entry = record {
      leasing = refl;
      ready = record {
        fits = record { inside = omega (arith, has.shorts.short j len entry) };
        in_file = omega (arith, has.inside j len entry);
        quiet = has.quiet;
      };
      content =
          ap (λ p. read_at p len conn.db.file) (omega arith)
          ∙ sym (stored-some conn.db.file conn.log.file j entry)
          ∙ has.encoded j below;
    }

    -- The records of the section that is found, before what comes after them.
    found_section :
        (j len : ℕ) (todo later : List Rec)
        → ReadsIn j (leased j len).lease
        → 0 < len
        → StandsAt (encode_records todo) (leased j len) (reading n rs conn has)
        → AreFull todo
        → dump_round debug (suc fuel) iter c h
          ≡ rest_of_round debug (suc fuel) (leased j len) (reading n rs conn has) h
        → ((iter1 : Iter) (h1 : Heap)
            → Between [] j (reading n rs conn has) iter1 h1
            → Dumps conn debug (suc fuel) (reading n rs conn has) iter1 h1 later)
        → Dumps conn debug (suc fuel) c iter h (todo ++ later)
    found_section j len [] later at some_bytes st full e go_on = absurd (
        omega (
          arith,
          some_bytes,
          ap length st.content,
          length-read_at (start_of (lease_on n rs conn has j len)) len conn.db.file,
        ))
    found_section j len (r ∷ todo) later at some_bytes st full e go_on =
        let s =
          rest_of_round-Shows debug fuel r (encode_records todo) j (reading n rs conn has) full.0
            full.1 (leased j len) h st at
            (record {
              owned = due.owns.owned;
              memory = due.owns.memory;
              some_address = due.owns.some_address;
            })
            due.header in
        dump_more conn debug (suc fuel) c iter h r (todo ++ later) s.iter (reading n rs conn has)
          s.after (e ∙ s.returns)
          (dump_section conn debug fuel j (reading n rs conn has) todo later go_on full.2 s.iter
            s.after s.between)

  dump_from :
      (bound i m : ℕ) (c : Conn) (iter : Iter) (h : Heap)
      → Due i conn c iter h
      → i + m ≡ n
      → m < bound
      → Dumps conn debug (suc fuel) c iter h (records_from rs i m)
  dump_from zero i m c iter h due total few = absurd (omega (arith, few))
  dump_from (suc bound) i m c iter h due total few =
      elim (find_entry-Next n rs conn has m (suc fuel) i (omega (arith, total, enough)) total) [
        | inr stop ↦ subst (Dumps conn debug (suc fuel) c iter h) (sym stop.same) (
            dump_end conn debug (suc fuel) c iter h (record iter { leasing = false })
              (record conn { log = stop.log }) h
              (last_round i m c iter h due total stop.log stop.found) refl
              (record {
                owned = due.owns.owned;
                memory = due.owns.memory;
                some_address = due.owns.some_address;
              })
              (refl, stop.kept))
        | inl next ↦
            let j = next.index in
            let below : j < n = omega (arith, next.total) in
            subst (Dumps conn debug (suc fuel) c iter h) (sym next.same) (
              found_section i m c iter h due total j next.len (rs j)
                (records_from rs (suc j) next.behind) (refl, refl) next.some_bytes
                (at_section i m c iter h due total j next.len below next.entry) (has.full j)
                (first_round i m c iter h due total j next.len next.found below next.entry
                  next.some_bytes)
                (λ iter1 h1 b.
                  dump_from bound (suc j) next.behind (reading n rs conn has) iter1 h1
                    (section-Due j iter1 h1 below b) (omega (arith, next.total))
                    (omega (arith, next.fewer, few))))
      ]

  pub dump_all :
      (h : Heap)
      → h.mallocs ≡ []
      → 0 < h.fresh
      → Dumps conn debug (suc fuel) conn new_iter h (records_from rs 0 n)
  dump_all h memory some_address =
      dump_from (suc n) 0 n conn new_iter h
        (record {
          short = omega arith;
          dropped = refl;
          owns = record { owned = inl (refl, refl); memory = memory; some_address = some_address };
          header = refl;
        })
        (omega arith) (omega arith)

  -- From a new iterator, when no call fails, the loop of stress/dump.c ends and gives the records
  -- of all sections, in the order of the sections and of their bytes in a section, and nothing
  -- else. The log has `n` entries, each below 2^16, whose bytes lie in the database file and are
  -- whole records with a byte at least in each key and value, and a read lock is free. The number
  -- of rounds is above that of the records, and the fuel above that of sections.
  pub dump_loop-records_from :
      (h : Heap) (rounds : ℕ)
      → h.mallocs ≡ []
      → 0 < h.fresh
      → length (records_from rs 0 n) < rounds
      → Lists (records_from rs 0 n) (dump_loop rounds debug (suc fuel) new_iter conn h)
  dump_loop-records_from h rounds memory some_address enough_rounds =
      let d = dump_all h memory some_address in
      record {
        iter = d.last_iter;
        conn = d.last_conn;
        heap = d.last_heap;
        returns = d.returns rounds enough_rounds;
      }

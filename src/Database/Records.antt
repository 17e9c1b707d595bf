-- ===== src/Database/Records.antt =====
-- The records of a database that is closed by the last process, opened again, and iterated over.
use logdb.Prelude.{
  ℕ, zero, suc, ◌+◌, ◌≤◌, ◌<◌, ◌≡◌, refl, sym, ap, ◌∙◌, subst, succeeded, Bool, false, some, List,
  [], ◌++◌, arith, length,
}
use logdb.Sections.{stored}
use logdb.Sections.Growth.{stored-none}
use logdb.Connection.{Conn}
use logdb.Heap.{Heap}
use logdb.Disk.{Disk}
use logdb.Database.{connected, logdb_open, logdb_close}
use logdb.Database.Reopen.{IsClosable, ReopenedAs, logdb_close-ReopenedAs}
use logdb.Iter.{new_iter}
use logdb.Iter.Dump.{dump_loop}
use logdb.Iter.Records.{Rec, encode_records, AreFull}
use logdb.Iter.Sections.{HasRecords, records_from, no_records}
use logdb.Iter.Whole.{Lists, dump_loop-records_from}

-- Fewer sections, when the others have no records.
pub same_records :
    (rs : ℕ → List Rec) (i m n : ℕ)
    → m ≤ n
    → ((j : ℕ) → i + m ≤ j → j < i + n → rs j ≡ [])
    → records_from rs i m ≡ records_from rs i n
same_records rs i zero zero fewer no_more = refl
same_records rs i zero (suc n) fewer no_more =
    same_records rs (suc i) zero n (omega arith)
      (λ j a b. no_more j (omega (arith, a)) (omega (arith, b)))
    ∙ sym (ap (λ l. l ++ records_from rs (suc i) n) (no_more i (omega arith) (omega arith)))
same_records rs i (suc m) zero fewer no_more = absurd (omega (arith, fewer))
same_records rs i (suc m) (suc n) fewer no_more =
    ap (λ l. rs i ++ l)
      (same_records rs (suc i) m n (omega (arith, fewer))
        (λ j a b. no_more j (omega (arith, a)) (omega (arith, b))))

-- The connection is closed and opened, and the loop over the records then gives these.
pub record Relists (rs : List Rec) (rounds fuel : ℕ) (debug nosync : Bool) (conn : Conn)
    (disk : Disk) (h : Heap) : Type 0 where
  pub after : Disk
  pub closes : logdb_close conn disk ≡ (some succeeded, after)
  pub new : Conn
  pub last : Disk
  pub opens : logdb_open (record { create = false; nosync = nosync }) after ≡ (connected new, last)
  pub left : ℕ
  pub sections : ℕ → List Rec
  pub has : HasRecords left sections new
  pub walked : left ≤ fuel
  pub same : records_from sections 0 left ≡ rs
  pub lists : Lists rs (dump_loop rounds debug (suc fuel) new_iter new h)

module _ (n : ℕ) (nosync : Bool) (conn : Conn) (disk : Disk) (is : IsClosable n conn disk)
    (rs : ℕ → List Rec)
    (encoded : (j : ℕ) → j < n → stored conn.db.file conn.log.file j ≡ encode_records (rs j))
    (full : (j : ℕ) → AreFull (rs j)) (readers : 0 < disk.max_readers) where
  again : ReopenedAs n nosync conn disk (logdb_close conn disk)
  again = logdb_close-ReopenedAs n nosync conn disk is

  -- The sections that the new log leaves out have no records.
  no_more : (j : ℕ) → again.kept ≤ j → j < n → rs j ≡ []
  no_more j above below = no_records (rs j) (
      sym (encoded j below)
      ∙ sym (again.same j)
      ∙ stored-none again.new.db.file again.new.log.file again.kept j again.is.size above)

  again-HasRecords : HasRecords again.kept rs again.new
  again-HasRecords = record {
    log = again.is;
    shorts = again.shorts;
    quiet = again.quiet;
    readers = omega (arith, again.unread.0, again.unread.1, readers);
    inside = again.inside;
    encoded = λ j below. again.same j ∙ encoded j (omega (arith, below, again.fewer));
    full = full;
  }

  -- When the last process closes a database whose sections hold whole records, with at least one
  -- byte in each key and value, opens it again, and goes through it with a new iterator, and no
  -- call fails, the loop of stress/dump.c ends and gives the records that the sections held before,
  -- in their order, and nothing else. The log is well-formed, with a valid header and less than
  -- 2^16 entries, each below 2^16, the database file has a valid header, and a read lock is
  -- granted. The number of rounds is above that of the records, and the fuel above that of
  -- sections.
  pub dump_loop-Relists :
      (debug : Bool) (fuel rounds : ℕ) (h : Heap)
      → n ≤ fuel
      → h.mallocs ≡ []
      → 0 < h.fresh
      → length (records_from rs 0 n) < rounds
      → Relists (records_from rs 0 n) rounds fuel debug nosync conn disk h
  dump_loop-Relists debug fuel rounds h enough memory some_address enough_rounds = record {
    after = again.after;
    closes = again.closes;
    new = again.new;
    last = again.disk;
    opens = again.opens;
    left = again.kept;
    sections = rs;
    has = again-HasRecords;
    walked = omega (arith, enough, again.fewer);
    same = same;
    lists =
        subst (λ l. Lists l (dump_loop rounds debug (suc fuel) new_iter again.new h)) same
          (dump_loop-records_from debug fuel again.kept rs again.new again-HasRecords
            (omega (arith, enough, again.fewer)) h rounds memory some_address
            (subst (λ l. length l < rounds) (sym same) enough_rounds));
  }
    where
      same : records_from rs 0 again.kept ≡ records_from rs 0 n
      same =
          same_records rs 0 again.kept n again.fewer
            (λ j a b. no_more j (omega (arith, a)) (omega (arith, b)))

-- ===== src/Iter/Pair.antt =====
-- The key and the value of a record, read one behind the other into buffers of their own.
use logdb.Prelude.{ℕ, suc, ◌+◌, ◌<◌, ◌≡◌, ◌≢◌, ap, ◌∙◌, Bool, List, [], ◌++◌, arith, length, drop}
use logdb.Log.Layout.{decode32}
use logdb.Connection.{Conn}
use logdb.Heap.{Ptr, null, Heap, Result, answered, put_cell}
use logdb.Buffer.Single.{Single, data-single, heap_with, fresh_buffer, old_buffer}
use logdb.Log.Lock.{lock_none}
use logdb.Lease.{Lease}
use logdb.Iter.{Iter, Stepped, keylen, valuelen, iter_current_key, iter_current_value}
use logdb.Iter.Dump.{Round, shows, show_record}
use logdb.Iter.Records.{Rec, header_of}
use logdb.Iter.Visit.{StandsAt, StandsAt-past, past, read_piece, in_lease}

-- The header of a record gives its lengths back.
pub lengths_of_header :
    (r : Rec)
    → length r.0 < 4294967296
    → length r.1 < 4294967296
    → (decode32 (header_of r) ≡ length r.0) × (decode32 (drop 4 (header_of r)) ≡ length r.1)
unfolding decode32
lengths_of_header r few_key few_value = omega (arith, few_key, few_value)

-- The key, and behind it the value, are read into buffers of their own.
module _ (debug : Bool) (xs ys : List ℕ) (iter : Iter) (conn : Conn) (h : Heap)
    (some_bytes : 0 < length xs) (st : StandsAt (xs ++ ys) iter conn) (memory : h.mallocs ≡ [])
    (some_address : 0 < h.fresh) where
  pub read_key :
      iter.key ≡ null
      → keylen iter ≡ length xs
      → iter_current_key debug iter conn h
        ≡ answered (h.fresh + 1, record (past xs iter) { key = h.fresh + 1 }, conn) (heap_with xs h)
  unfolding iter_current_key
  read_key unread len = ground (
    arith,
    unread,
    len,
    st.leasing,
    read_piece xs ys iter conn h some_bytes st memory some_address,
  )

  pub read_value :
      iter.value ≡ null
      → iter.key ≢ null
      → valuelen iter ≡ length xs
      → iter_current_value debug iter conn h
        ≡ answered
            (h.fresh + 1, record (past xs iter) { value = h.fresh + 1 }, conn)
            (heap_with xs h)
  unfolding iter_current_value iter_current_key
  read_value unread key len = ground (
    arith,
    unread,
    key,
    len,
    st.leasing,
    read_piece xs ys iter conn h some_bytes st memory some_address,
  )

-- A read lease of this section.
abbrev pub ReadsIn : ℕ → Lease → Type 0
ReadsIn index lease = (lease.index ≡ index) × (lease.type ≡ lock_none)

-- Between two rounds: the iterator stands before these bytes, and holds the key and the value of
-- the record that it has read.
pub record Between (bytes : List ℕ) (index : ℕ) (conn : Conn) (iter : Iter) (h : Heap)
    : Type 0 where
  pub stands : StandsAt bytes iter conn
  pub lease : ReadsIn index iter.lease
  pub key : Single h iter.key
  pub value : Single h iter.value
  pub apart : iter.key ≢ iter.value
  pub header : length iter.header ≡ 8
  pub memory : h.mallocs ≡ []
  pub some_address : 0 < h.fresh

-- A round that gives this record, and stands before these bytes after it.
pub record Shows (r : Rec) (bytes : List ℕ) (index : ℕ) (conn : Conn) (res : Result (Stepped Round))
    : Type 0 where
  pub iter : Iter
  pub after : Heap
  pub returns : res ≡ answered (shows r, iter, conn) after
  pub between : Between bytes index conn iter after

-- The buffers and the header do not move the iterator.
pub at_same_place :
    {bytes : List ℕ} {iter : Iter} {conn : Conn} (header : List ℕ) (key value : Ptr)
    → StandsAt bytes iter conn
    → StandsAt bytes (record iter { header = header; key = key; value = value }) conn
at_same_place header key value st = record {
  leasing = st.leasing;
  ready = st.ready;
  content = st.content;
}

-- A piece is short.
few_bytes :
    (xs ys : List ℕ) (iter : Iter) (conn : Conn)
    → 0 < length xs
    → StandsAt (xs ++ ys) iter conn
    → length xs < 4294967296
few_bytes xs ys iter conn some_bytes st =
    omega (arith, in_lease xs ys iter conn some_bytes st, st.ready.fits.inside)

module _ (debug : Bool) (fuel : ℕ) (k v ys : List ℕ) (index : ℕ) (conn : Conn)
    (some_key : 0 < length k) (some_value : 0 < length v) where
  pub show_record-Shows :
      (iter : Iter) (h : Heap)
      → iter.key ≡ null
      → iter.value ≡ null
      → iter.header ≡ header_of (k, v)
      → StandsAt (k ++ (v ++ ys)) iter conn
      → ReadsIn index iter.lease
      → h.mallocs ≡ []
      → 0 < h.fresh
      → Shows (k, v) ys index conn (show_record debug (suc fuel) iter conn h)
  unfolding show_record put_cell
  show_record-Shows iter h no_key no_value header st lease memory some_address = record {
    iter = iter2;
    after = h2;
    returns = ground (
      arith,
      first,
      second,
      data-single fuel h2 (h.fresh + 1) key,
      data-single fuel h2 (h.fresh + 1 + 1 + 1) value,
    );
    between = record {
      stands = behind_value;
      lease = lease;
      key = key;
      value = value;
      apart = λ e. omega (arith, e);
      header = ap length header;
      memory = memory;
      some_address = omega arith;
    };
  }
    where
      h1 : Heap
      h1 = heap_with k h

      iter1 : Iter
      iter1 = record (past k iter) { key = h.fresh + 1 }

      behind_key : StandsAt (v ++ ys) iter1 conn
      behind_key =
          at_same_place iter.header (h.fresh + 1) iter.value
            (StandsAt-past k (v ++ ys) iter conn some_key st)

      lengths : (keylen iter ≡ length k) × (valuelen iter ≡ length v)
      lengths =
          let both =
            lengths_of_header (k, v) (few_bytes k (v ++ ys) iter conn some_key st)
              (few_bytes v ys iter1 conn some_value behind_key) in
          (ap decode32 header ∙ both.0, ap (λ l. decode32 (drop 4 l)) header ∙ both.1)

      first : iter_current_key debug iter conn h ≡ answered (h.fresh + 1, iter1, conn) h1
      first =
          read_key debug k (v ++ ys) iter conn h some_key st memory some_address no_key lengths.0

      h2 : Heap
      h2 = heap_with v h1

      iter2 : Iter
      iter2 = record (past v iter1) { value = h.fresh + 1 + 1 + 1 }

      second :
          iter_current_value debug iter1 conn h1 ≡ answered (h.fresh + 1 + 1 + 1, iter2, conn) h2
      second =
          read_value debug v ys iter1 conn h1 some_value behind_key memory (omega arith) no_value
            (λ e. omega (arith, e)) lengths.1

      behind_value : StandsAt ys iter2 conn
      behind_value =
          at_same_place iter.header (h.fresh + 1) (h.fresh + 1 + 1 + 1)
            (StandsAt-past v ys iter1 conn some_value behind_key)

      key : Single h2 (h.fresh + 1)
      key = old_buffer v h1 (h.fresh + 1) (λ e. omega (arith, e)) (fresh_buffer k h)

      value : Single h2 (h.fresh + 1 + 1 + 1)
      value = fresh_buffer v h1

-- ===== src/Iter/Visit.antt =====
-- One record of a section: the round of iteration that reads it.
use logdb.Prelude.{
  ℕ, suc, ◌+◌, ◌-◌, ◌≤◌, ◌<◌, ◌≡◌, ◌≢◌, refl, sym, ap, ◌∙◌, ◌⊎◌, inl, inr, true, some, List, [],
  ◌∷◌, ◌++◌, arith, length, length-append, take, drop,
}
use logdb.File.{File, read_at}
use logdb.File.Laws.{length-read_at, drop-read_at, take-read_at}
use logdb.Connection.{Conn}
use logdb.Heap.{null, Heap, Result, answered, put_cell}
use logdb.Buffer.Single.{
  Single, free-single, after_free, other-free, allocator-free, buffer_with, heap_with,
}
use logdb.Iter.{Iter, dispose_old, iter_lease_read, iter_read_buf}
use logdb.Iter.Records.{Rec, header_of}
use logdb.Iter.Reads.{Ready, Ready-moved, start_of, iter_lease_read-quiet, iter_read_buf-quiet}
use logdb.Lease.Transfer.{moved_by}

take-all : (xs ys : List ℕ) → take (length xs) (xs ++ ys) ≡ xs
take-all [] ys = refl
take-all (x ∷ xs) ys = ap (λ l. x ∷ l) (take-all xs ys)

drop-all : (xs ys : List ℕ) → drop (length xs) (xs ++ ys) ≡ ys
drop-all [] ys = refl
drop-all (x ∷ xs) ys = drop-all xs ys

-- A read of two lists in a row.
pub split_read :
    (p n : ℕ) (f : File) (xs ys : List ℕ)
    → read_at p n f ≡ xs ++ ys
    → (n ≡ length xs + length ys)
      × (read_at p (length xs) f ≡ xs)
      × (read_at (p + length xs) (n - length xs) f ≡ ys)
split_read p n f xs ys e = (
  total,
  sym (take-read_at (length xs) n p f (omega (arith, total)))
      ∙ ap (take (length xs)) e
      ∙ take-all xs ys,
  sym (drop-read_at (length xs) (n - length xs) n p f (omega (arith, total)))
      ∙ ap (drop (length xs)) e
      ∙ drop-all xs ys,
)
  where
    total : n ≡ length xs + length ys
    total = sym (length-read_at p n f) ∙ ap length e ∙ length-append xs ys

-- The iterator stands before these bytes, the last ones of its lease.
pub record StandsAt (bytes : List ℕ) (iter : Iter) (conn : Conn) : Type 0 where
  pub leasing : iter.leasing ≡ true
  pub ready : Ready iter.lease conn.db
  pub content : read_at (start_of iter.lease) iter.lease.len conn.db.file ≡ bytes

-- Its key and value are not read, or stand in buffers of their own, and there is memory.
pub record Owns (h : Heap) (iter : Iter) : Type 0 where
  pub owned :
      ((iter.key ≡ null) × (iter.value ≡ null))
      ⊎ (Single h iter.key × Single h iter.value × (iter.key ≢ iter.value))
  pub memory : h.mallocs ≡ []
  pub some_address : 0 < h.fresh

abbrev pub emptied : Iter → Iter
emptied iter = record iter { key = null; value = null }

-- What `dispose_old` leaves.
pub record Disposed (iter : Iter) (r : Result Iter) : Type 0 where
  pub after : Heap
  pub returns : r ≡ answered (emptied iter) after
  pub memory : after.mallocs ≡ []
  pub some_address : 0 < after.fresh

pub dispose_old-Disposed :
    (fuel : ℕ) (iter : Iter) (h : Heap)
    → Owns h iter
    → Disposed iter (dispose_old (suc fuel) iter h)
unfolding dispose_old
dispose_old-Disposed fuel iter h owns = elim owns.owned [
  | inl (key, value) ↦ record {
    after = h;
    returns = ground (arith, key, value);
    memory = owns.memory;
    some_address = owns.some_address;
  }
  | inr (key, value, apart) ↦
      let h1 = after_free fuel h iter.key key in
      let value' : Single h1 iter.value = record {
        buffer = value.buffer;
        there = other-free fuel h iter.key key iter.value (λ e. apart (sym e)) ∙ value.there;
        some_address = value.some_address;
        orig = value.orig;
        next = value.next;
        refcnt = value.refcnt;
      } in
      let h2 = after_free fuel h1 iter.value value' in
      let same1 = allocator-free fuel h iter.key key in
      let same2 = allocator-free fuel h1 iter.value value' in
      record {
        after = h2;
        returns = ground (
          arith,
          key.some_address,
          value.some_address,
          free-single fuel h iter.key key,
          free-single fuel h1 iter.value value',
        );
        memory = same2.1 ∙ same1.1 ∙ owns.memory;
        some_address = omega (arith, same2.0, same1.0, owns.some_address);
      }
]

-- The iterator behind a piece.
abbrev pub past : List ℕ → Iter → Iter
past xs iter = record iter { lease = moved_by (length xs) iter.lease }

-- A piece of the bytes is read.
module _ (xs ys : List ℕ) (iter : Iter) (conn : Conn) (some_bytes : 0 < length xs)
    (st : StandsAt (xs ++ ys) iter conn) where
  pub parts :
      (iter.lease.len ≡ length xs + length ys)
      × (read_at (start_of iter.lease) (length xs) conn.db.file ≡ xs)
      × (read_at (start_of iter.lease + length xs) (iter.lease.len - length xs) conn.db.file ≡ ys)
  parts = split_read (start_of iter.lease) iter.lease.len conn.db.file xs ys st.content

  pub in_lease : length xs ≤ iter.lease.len
  in_lease = omega (arith, parts.0)

  pub StandsAt-past : StandsAt ys (past xs iter) conn
  StandsAt-past = record {
    leasing = st.leasing;
    ready = Ready-moved (length xs) iter.lease conn.db in_lease st.ready;
    content = ap (λ p. read_at p (iter.lease.len - length xs) conn.db.file) (omega arith) ∙ parts.2;
  }

pub read_piece :
    (xs ys : List ℕ) (iter : Iter) (conn : Conn) (h : Heap)
    → 0 < length xs
    → StandsAt (xs ++ ys) iter conn
    → h.mallocs ≡ []
    → 0 < h.fresh
    → iter_read_buf (length xs) iter conn h
      ≡ answered (h.fresh + 1, past xs iter, conn) (heap_with xs h)
read_piece xs ys iter conn h some_bytes st memory some_address =
    iter_read_buf-quiet (length xs) iter conn st.leasing st.ready some_bytes
      (in_lease xs ys iter conn some_bytes st) h memory some_address
    ∙ ap
        (λ (l : List ℕ).
          answered (h.fresh + 1, past xs iter, conn)
            (put_cell (h.fresh + 1)
              (some (record (buffer_with xs h) { block = record { address = h.fresh; bytes = l } }))
              (record h { fresh = h.fresh + 1 + 1 })))
        (parts xs ys iter conn some_bytes st).1

-- The header of a record is read.
pub header_piece :
    (r : Rec) (ys : List ℕ) (iter : Iter) (conn : Conn) (h : Heap)
    → StandsAt (header_of r ++ ys) iter conn
    → iter_lease_read 8 iter conn h ≡ answered ((0, header_of r), past (header_of r) iter, conn) h
header_piece r ys iter conn h st =
    iter_lease_read-quiet 8 iter conn st.leasing st.ready (omega arith)
      (in_lease (header_of r) ys iter conn (omega arith) st) h
    ∙ ap (λ (l : List ℕ). answered ((0, l), past (header_of r) iter, conn) h)
        (parts (header_of r) ys iter conn (omega arith) st).1

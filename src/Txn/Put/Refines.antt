-- ===== src/Txn/Put/Refines.antt =====
-- `logdb_put` against a map from sections to lists of records.
use logdb.Prelude.{
  ℕ, suc, ◌+◌, ◌≤◌, ◌<◌, ◌≡◌, ◌≢◌, refl, sym, ap, subst, ◌∙◌, ℤ, succeeded, List, [], ◌∷◌, ◌++◌,
  append-nil, append_assoc, ◌==◌, if◌then◌else◌, arith, length,
}
use logdb.Connection.{Conn}
use native.Mathlib.Decide.{ℕ_discrete}
use logdb.Txn.Write.{extended}
use logdb.Heap.{Ptr, Heap, Result, answered}
use logdb.Buffer.{length_loop, buffer_free}
use logdb.Buffer.Holds.{Holds, length_loop-Holds}
use logdb.Sections.{stored}
use logdb.Log.Layout.{section_size}
use logdb.Iter.Records.{Rec, encode_record, encode_records, AreFull, length-encode_record}
use logdb.Txn.{Setting, Session, txn_commit, txn_commit_implicit, txn_write, put}
use logdb.Txn.Commit.{commit-succeeds, len_of}
use logdb.Txn.Calm.{IsCalm}
use logdb.Txn.Calm.Extends.{Extends}
use logdb.Txn.Calm.Write.{Writes, txn_write-Extends}
use logdb.Txn.Put.{Given, given_record, head, h3, h3-Holds, put-commits}
use logdb.Txn.Put.Freed.{freed, free-all, freed-kept, freed-allocator}

-- The sections of a calm connection hold these records and no more.
pub record Represents (n : ℕ) (rs : ℕ → List Rec) (c : Conn) : Type 0 where
  pub calm : IsCalm n c
  pub encoded : (j : ℕ) → stored c.db.file c.log.file j ≡ encode_records (rs j)
  pub full : (j : ℕ) → AreFull (rs j)

-- A record at the end of section `i`. A section that it fills to the last byte is lost.
abbrev pub added : ℕ → Rec → (ℕ → List Rec) → ℕ → List Rec
added i r rs j =
    if j == i
    then (if length (encode_records (rs j)) + length (encode_record r) == section_size
        then []
        else rs j ++ (r ∷ []))
    else rs j

pub encode_records-append :
    (rs : List Rec) (r : Rec)
    → encode_records (rs ++ (r ∷ [])) ≡ encode_records rs ++ encode_record r
encode_records-append [] r = append-nil (encode_record r)
encode_records-append (x ∷ xs) r =
    ap (λ l. encode_record x ++ l) (encode_records-append xs r)
    ∙ sym (append_assoc (encode_record x) (encode_records xs) (encode_record r))

AreFull-append :
    (rs : List Rec) (r : Rec)
    → AreFull rs
    → 0 < length r.0
    → 0 < length r.1
    → AreFull (rs ++ (r ∷ []))
AreFull-append [] r full key value = (key, value, tt)
AreFull-append (x ∷ xs) r full key value = (full.0, full.1, AreFull-append xs r full.2 key value)

-- A commit of the bytes of a record adds the record.
module _ (n : ℕ) (rs : ℕ → List Rec) (r : Rec) (c c' : Conn) (rep : Represents n rs c)
    (some_key : 0 < length r.0) (some_value : 0 < length r.1)
    (ex : Extends n (encode_record r) c c') where
  offset_of : length (encode_records (rs ex.index)) ≡ ex.offset
  offset_of = ap length (sym (rep.encoded ex.index)) ∙ ex.before_it

  at_index :
      (j : ℕ)
      → j ≡ ex.index
      → extended ex.index ex.offset (encode_record r) (encode_records (rs j)) j
        ≡ encode_records (added ex.index r rs j)
  at_index j same = elim (ℕ_discrete (ex.offset + length (encode_record r)) section_size) [
    | yes filled ↦ ground (arith, same, filled, offset_of)
    | no partly ↦ ground (arith, same, partly, offset_of, encode_records-append (rs ex.index) r)
  ]

  encoded_new : (j : ℕ) → stored c'.db.file c'.log.file j ≡ encode_records (added ex.index r rs j)
  encoded_new j =
      ex.sections j
      ∙ ap (λ l. extended ex.index ex.offset (encode_record r) l j) (rep.encoded j)
      ∙ elim (ℕ_discrete j ex.index) [
        | yes same ↦ at_index j same
        | no other ↦ ground (arith, other)
      ]

  lost :
      (j : ℕ)
      → j ≡ ex.index
      → length (encode_records (rs j)) + length (encode_record r) ≡ section_size
      → added ex.index r rs j ≡ []
  lost j same filled = ground (arith, same, filled)

  gained :
      (j : ℕ)
      → j ≡ ex.index
      → length (encode_records (rs j)) + length (encode_record r) ≢ section_size
      → added ex.index r rs j ≡ rs j ++ (r ∷ [])
  gained j same partly = ground (arith, same, partly)

  as_before : (j : ℕ) → j ≢ ex.index → added ex.index r rs j ≡ rs j
  as_before j other = ground (arith, other)

  full_new : (j : ℕ) → AreFull (added ex.index r rs j)
  full_new j = elim (ℕ_discrete j ex.index) [
    | yes same ↦
        elim (ℕ_discrete (length (encode_records (rs j)) + length (encode_record r)) section_size) [
          | yes filled ↦ subst AreFull (sym (lost j same filled)) tt
          | no partly ↦
              subst AreFull (sym (gained j same partly))
                (AreFull-append (rs j) r (rep.full j) some_key some_value)
        ]
    | no other ↦ subst AreFull (sym (as_before j other)) (rep.full j)
  ]

  pub Represents-added : Represents ex.count (added ex.index r rs) c'
  Represents-added = record { calm = ex.calm; encoded = encoded_new; full = full_new }

-- One of these sections has the record more, and the buffers are as they were.
pub record Stored (n : ℕ) (rs : ℕ → List Rec) (r : Rec) (h : Heap) (c : Conn)
    (res : Result (ℤ × Session)) : Type 0 where
  pub index : ℕ
  pub count : ℕ
  pub conn : Conn
  pub after : Heap
  pub returns : res ≡ answered (succeeded, record { conn = conn; txns = [] }) after
  pub counted : (n ≤ count) × (count ≤ suc n) × (index < count)
  pub represents : Represents count (added index r rs) conn
  pub fits : length (encode_records (rs index)) + length (encode_record r) ≤ section_size
  pub same_readers : (conn.readers ≡ c.readers) × (conn.max_readers ≡ c.max_readers)
  pub kept : (p : Ptr) → p < h.fresh → after.cell p ≡ h.cell p
  pub memory : (h.fresh ≤ after.fresh) × (after.mallocs ≡ [])

implicit-succeeds :
    (set : Setting) (buf : Ptr) (s s' : Session) (h freed : Heap)
    → txn_commit set buf s.txns s h ≡ answered (succeeded, s') freed
    → txn_commit_implicit set buf s h ≡ answered (succeeded, s') freed
unfolding txn_commit_implicit
implicit-succeeds set buf s s' h freed commits = rw commits refl

-- On an open database of less than 2^16 sections that hold whole records, where nobody else is at
-- work, no entry is locked, no call fails and there is memory, `logdb_put` outside of a transaction,
-- of a key and a value of at least one byte that together fit a section and stand in buffers of their
-- own, succeeds. It adds the record at the end of one of the sections, a new one if need be; the
-- others keep their records, and a section that the record fills to its last byte loses all of its
-- records. The buffers of the caller are as they were, and no transaction is left.
pub put-Stored :
    (set : Setting) (fuel rounds n : ℕ) (rs : ℕ → List Rec) (key value : Ptr) (h : Heap) (c : Conn)
    (g : Given key value h)
    → set.fuel ≡ suc (suc (suc (suc (suc fuel))))
    → set.rounds ≡ suc rounds
    → set.others ≡ []
    → length (encode_record (given_record set.debug fuel key value h g)) ≤ 65536
    → 0 < length g.key_there.buffer.block.bytes
    → 0 < length g.value_there.buffer.block.bytes
    → Represents n rs c
    → n < 65536
    → Stored n rs
        (given_record set.debug fuel key value h g)
        h
        c
        (put set key value (record { conn = c; txns = [] }) h)
put-Stored set fuel rounds n rs key value h c g enough some_rounds alone fits some_key some_value
      rep few =
    record {
      index = ex.index;
      count = ex.count;
      conn = w.conn;
      after = freed set.debug fuel key value h g short;
      returns =
          put-commits set.debug fuel key value h g short set s refl enough
          ∙ implicit-succeeds set buf s (record { conn = w.conn; txns = [] }) heap
              (freed set.debug fuel key value h g short)
              (commit-succeeds set buf (encode_record r) s heap w.conn
                (freed set.debug fuel key value h g short) (λ q. omega (arith, q))
                (omega (arith, length-encode_record r)) measured free w.returns);
      counted = ex.counted;
      represents = Represents-added n rs r c w.conn rep some_key some_value ex;
      fits = omega (arith, ex.fits, offset_of n rs r c w.conn rep some_key some_value ex);
      same_readers = ex.same_readers;
      kept = (freed-kept set.debug fuel key value h g short).0;
      memory = freed-allocator set.debug fuel key value h g short;
    }
  where
    r : Rec
    r = given_record set.debug fuel key value h g

    short : g.key_there.buffer.len + g.value_there.buffer.len < 65536
    short = omega (arith, g.key_len, g.value_len, length-encode_record r, fits)

    buf : Ptr
    buf = head set.debug fuel key value h g

    heap : Heap
    heap = h3 set.debug fuel key value h g

    free : buffer_free set.fuel buf heap ≡ answered tt (freed set.debug fuel key value h g short)
    free = rw enough (free-all set.debug fuel key value h g short)

    s : Session
    s = record { conn = c; txns = [] }

    holds : Holds heap set.fuel buf (encode_record r)
    holds = rw enough (h3-Holds set.debug fuel key value h g short)

    measured : length_loop set.fuel buf 0 heap ≡ answered (length (encode_record r)) heap
    measured =
        length_loop-Holds 0 holds (omega arith)
        ∙ ap (λ k. answered k heap) (len_of set buf (encode_record r) s heap fits)

    w : Writes n (encode_record r) c heap (txn_write set buf (length (encode_record r)) c heap)
    w =
        txn_write-Extends set rounds n c some_rounds alone holds (λ q. omega (arith, q))
          (omega (arith, length-encode_record r)) (omega (arith, fits)) rep.calm few

    ex : Extends n (encode_record r) c w.conn
    ex = w.extension

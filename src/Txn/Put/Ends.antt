-- ===== src/Txn/Put/Ends.antt =====
-- What `logdb_put` makes of the sections and of the heap, outside of a transaction.
use logdb.Prelude.{
  ℕ, suc, ◌+◌, ◌≤◌, ◌<◌, ◌≡◌, ◌≢◌, refl, ◌∙◌, inl, inr, ℤ, pos, true, none, List, [], arith, length,
}
use logdb.Log.Lock.Held.{held}
use logdb.Connection.{Conn}
use logdb.Heap.{Ptr, null, Heap, Result, answered}
use logdb.Buffer.{buffer_free}
use logdb.Buffer.Holds.{Holds}
use logdb.Sections.{HasShorts}
use logdb.Lease.Choose.{IsLog}
use logdb.Iter.Records.{Rec, encode_record, length-encode_record}
use logdb.Txn.{Setting, Session, txn_commit, txn_commit_implicit, txn_close, put}
use logdb.Txn.Write.{Committed}
use logdb.Txn.Commit.{Ends, txn_commit-Ends}
use logdb.Txn.Put.{Given, given_record, head, h3, h3-Holds, put-commits}
use logdb.Txn.Put.Freed.{freed, free-all, freed-kept}

-- The call returns; its record is committed, or nothing. The buffers of the caller are as they
-- were, those of the call are gone, and no transaction is left.
pub record Puts (r : Rec) (key value : Ptr) (h : Heap) (c : Conn) (res : Result (ℤ × Session))
    : Type 0 where
  pub code : ℤ
  pub conn : Conn
  pub after : Heap
  pub returns : res ≡ answered (code, record { conn = conn; txns = [] }) after
  pub committed : Committed (encode_record r) c code conn
  pub kept : (after.cell key ≡ h.cell key) × (after.cell value ≡ h.cell value)
  pub gone :
      (after.cell (h.fresh + 1) ≡ none)
      × (after.cell (h.fresh + 1 + 1 + 1) ≡ none)
      × (after.cell (h.fresh + 1 + 1 + 1 + 1) ≡ none)

-- The end of `logdb_txn_commit_implicit`, with and without success.
close_implicit :
    (set : Setting) (buf : Ptr) (c : Conn) (bytes : List ℕ) (h freed : Heap)
    → buf ≢ null
    → buffer_free set.fuel buf h ≡ answered tt freed
    → (e : Ends bytes
        (record { conn = c; txns = [] })
        h
        freed
        (txn_commit set buf [] (record { conn = c; txns = [] }) h))
    → txn_commit_implicit set buf (record { conn = c; txns = [] }) h
      ≡ answered (e.code, record { conn = e.conn; txns = [] }) freed
unfolding txn_commit_implicit txn_close
close_implicit set buf c bytes h freed some_buf free e = elim e.returns [
  | inl (works, returns) ↦ ground (arith, works, returns)
  | inr (fails, returns) ↦ ground (arith, fails, returns, free, some_buf)
]

-- `logdb_put` outside of a transaction returns, when key and value stand in buffers of their own,
-- the record fits a section, `malloc` works, the log is well-formed with less than 2^16 entries,
-- nobody else is at work, there is memory for a lock, and no call on the log fails; calls on the
-- database file may fail. With 0 the bytes of the record (the two lengths, the key, the value)
-- stand behind the valid bytes of one section or, when they fill the section to its last byte, that
-- section is empty; with -1 every section is as before. In both cases the buffers of the caller are
-- as they were, those of the call are freed, and no transaction is left.
pub put-Puts :
    (set : Setting) (fuel rounds n : ℕ) (key value : Ptr) (h : Heap) (c : Conn)
    (g : Given key value h)
    → set.fuel ≡ suc (suc (suc (suc (suc fuel))))
    → set.rounds ≡ suc rounds
    → set.others ≡ []
    → length (encode_record (given_record set.debug fuel key value h g)) ≤ 65536
    → IsLog n c.log
    → HasShorts c.log.file
    → n < 65536
    → c.readers < c.max_readers
    → c.memory ≡ true
    → ((j : ℕ) → held c.locks j ≡ pos 0)
    → Puts
        (given_record set.debug fuel key value h g)
        key
        value
        h
        c
        (put set key value (record { conn = c; txns = [] }) h)
put-Puts set fuel rounds n key value h c g enough some_rounds alone fits is shorts few readers
      memory unlocked =
    record {
      code = e.code;
      conn = e.conn;
      after = freed set.debug fuel key value h g short;
      returns =
          put-commits set.debug fuel key value h g short set s refl enough
          ∙ close_implicit set buf c bytes heap (freed set.debug fuel key value h g short)
              (λ q. omega (arith, q)) free e;
      committed = e.committed;
      kept = (all.0 key g.old_key, all.0 value g.old_value);
      gone = (all.1, all.2, all.3);
    }
  where
    r : Rec
    r = given_record set.debug fuel key value h g

    bytes : List ℕ
    bytes = encode_record r

    short : g.key_there.buffer.len + g.value_there.buffer.len < 65536
    short = omega (arith, g.key_len, g.value_len, length-encode_record r, fits)

    s : Session
    s = record { conn = c; txns = [] }

    buf : Ptr
    buf = head set.debug fuel key value h g

    heap : Heap
    heap = h3 set.debug fuel key value h g

    free : buffer_free set.fuel buf heap ≡ answered tt (freed set.debug fuel key value h g short)
    free = rw enough (free-all set.debug fuel key value h g short)

    holds : Holds heap set.fuel buf bytes
    holds = rw enough (h3-Holds set.debug fuel key value h g short)

    e : Ends bytes s heap (freed set.debug fuel key value h g short) (txn_commit set buf [] s heap)
    e =
        txn_commit-Ends set rounds n s some_rounds alone holds (λ q. omega (arith, q)) free
          (omega (arith, length-encode_record r)) fits is shorts few readers memory unlocked

    all :
        ((p : Ptr) → p < h.fresh → (freed set.debug fuel key value h g short).cell p ≡ h.cell p)
        × ((freed set.debug fuel key value h g short).cell (h.fresh + 1) ≡ none)
        × ((freed set.debug fuel key value h g short).cell (h.fresh + 1 + 1 + 1) ≡ none)
        × ((freed set.debug fuel key value h g short).cell (h.fresh + 1 + 1 + 1 + 1) ≡ none)
    all = freed-kept set.debug fuel key value h g short

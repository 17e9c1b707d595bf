-- ===== src/Txn/Commit.antt =====
-- The outermost `logdb_txn_commit`, from the lease to its release.
use logdb.Buffer.{length_loop, buffer_free}
use logdb.Prelude.{
  ℕ, suc, ◌≤◌, ◌<◌, ◌≡◌, ◌≢◌, refl, ap, ◌∙◌, inl, inr, ℤ, pos, failed, true, false, List, [],
  if◌then◌else◌, arith, length, Bool-cases, u32, ◌⊎◌, succeeded, ◌+◌,
}
use logdb.Io.{Fd}
use logdb.Log.Layout.{section_size}
use logdb.Log.Lock.Held.{held}
use logdb.Connection.{Conn}
use logdb.Heap.{Ptr, null, Heap, answered, then_run, pure, Result}
use logdb.Buffer.Holds.{Holds, length_loop-Holds}
use logdb.Sections.{HasShorts}
use logdb.Lease.{Lease, lease_release}
use logdb.Lease.Grant.{Acquired, leased, acquire_write}
use logdb.Lease.Acquire.{Granted, acquire_write-Granted}
use logdb.Lease.Choose.{IsLog}
use logdb.Lease.Transfer.{Fits}
use logdb.Txn.{Setting, Sent, publish, txn_write, txn_write_buf, Session, txn_commit, txn_close}
use logdb.Txn.Send.{txn_write_buf-Sends}
use logdb.Txn.Publish.{lease_release-SameFiles, publish-Published, publish-quiet}
use logdb.Txn.Write.{Commits, room, published, unpublished, Committed}

-- The three steps of `txn_write`.
module _ (set : Setting) (buf : Ptr) (len : ℕ) (c : Conn) (h : Heap) where
  abbrev pub acquired : Acquired × Conn
  acquired = acquire_write set.rounds set.others len c

  abbrev pub finish : Conn → Sent → ℤ × Conn
  finish c1 s =
      if s.done
      then publish s.lease (record c1 { db = s.db })
      else (failed, lease_release s.lease (record c1 { db = s.db }))

  pub txn_write-leased :
      (lease : Lease) (s : Sent)
      → acquired.0 ≡ leased lease
      → txn_write_buf set.fuel buf lease acquired.1.db h ≡ answered s h
      → txn_write set buf len c h ≡ answered (finish acquired.1 s) h
  unfolding txn_write
  txn_write-leased lease s granted sent =
      rw (txn_write, granted) (ap (then_run (λ x. pure (finish acquired.1 x))) sent)

-- Behind a lease that was granted in one round.
Commits-behind :
    (set : Setting) (n : ℕ) {h : Heap} {buf : Ptr} {bytes : List ℕ} (c : Conn)
    → Granted n (length bytes) c (acquire_write set.rounds set.others (length bytes) c)
    → Holds h set.fuel buf bytes
    → buf ≢ null
    → HasShorts c.log.file
    → IsLog n c.log
    → n < 65536
    → Commits bytes c h (txn_write set buf (length bytes) c h)
Commits-behind set n {h} {buf} {bytes} c g holds some_buf shorts is few =
    let sends = txn_write_buf-Sends g.lease c1.db holds some_buf fits in
    let s = sends.sent in
    let sent = sends.is_sent in
    let returns = txn_write-leased set buf (length bytes) c h g.lease s g.result sends.returns in
    elim (Bool-cases s.done) [
      | inl done ↦
          let (code, c') = publish s.lease (written s) in
          record {
            code = code;
            conn = c';
            returns = returns ∙ ap (λ r. answered r h) (published-finish s done);
            committed =
                published n bytes c c1 g.lease g.choice few shorts is g.db s sent code c' done
                  (publish-Published s.lease (written s)) g.nosync
                  (publish-quiet s.lease (written s) g.choice.quiet);
          }
      | inr stopped ↦
          let files = lease_release-SameFiles s.lease (written s) in
          record {
            code = failed;
            conn = lease_release s.lease (written s);
            returns = returns ∙ ap (λ r. answered r h) (stopped-finish s stopped);
            committed =
                unpublished n bytes c c1 g.lease g.choice few shorts is g.db s sent _
                  (ap (λ (d : Fd). d.file) files.db) files.log;
          }
    ]
  where
    c1 : Conn
    c1 = (acquire_write set.rounds set.others (length bytes) c).1

    written : Sent → Conn
    written s = record c1 { db = s.db }

    fits : Fits g.lease
    fits = record {
      inside = omega (arith, room n bytes c c1 g.lease g.choice few shorts is g.db, g.len);
    }

    published-finish :
        (s : Sent)
        → s.done ≡ true
        → finish set buf (length bytes) c h c1 s ≡ publish s.lease (written s)
    published-finish s e = rw e refl

    stopped-finish :
        (s : Sent)
        → s.done ≡ false
        → finish set buf (length bytes) c h c1 s ≡ (failed, lease_release s.lease (written s))
    stopped-finish s e = rw e refl

-- The write of the data and its publication.
txn_write-Commits :
    (set : Setting) (rounds n : ℕ) {h : Heap} {buf : Ptr} {bytes : List ℕ} (c : Conn)
    → set.rounds ≡ suc rounds
    → set.others ≡ []
    → Holds h set.fuel buf bytes
    → buf ≢ null
    → IsLog n c.log
    → HasShorts c.log.file
    → n < 65536
    → length bytes ≤ section_size
    → c.readers < c.max_readers
    → c.memory ≡ true
    → ((j : ℕ) → held c.locks j ≡ pos 0)
    → Commits bytes c h (txn_write set buf (length bytes) c h)
txn_write-Commits set rounds n {h} {buf} {bytes} c enough alone holds some_buf is shorts few fits
      readers memory free =
    Commits-behind set n c granted holds some_buf shorts is few
  where
    granted : Granted n (length bytes) c (acquire_write set.rounds set.others (length bytes) c)
    granted =
        rw (enough, alone)
          (acquire_write-Granted rounds n (length bytes) c is fits readers memory free)

code_of_commit :
    {bytes : List ℕ} {c c' : Conn} {code : ℤ}
    → Committed bytes c code c'
    → (code ≡ succeeded) ⊎ (code ≡ failed)
code_of_commit k = elim k.outcome [ inl (works, _, _) ↦ inl works | inr (fails, _) ↦ inr fails ]

-- What `logdb_txn_commit` makes of an outermost transaction. With 0 the transaction is closed and
-- its buffer freed, with -1 it stays the current one.
pub record Ends (bytes : List ℕ) (s : Session) (h freed : Heap) (r : Result (ℤ × Session))
    : Type 0 where
  pub code : ℤ
  pub conn : Conn
  pub committed : Committed bytes s.conn code conn
  pub returns :
      (code ≡ succeeded) × (r ≡ answered (succeeded, record { conn = conn; txns = [] }) freed)
      ⊎ (code ≡ failed) × (r ≡ answered (failed, record { conn = conn; txns = s.txns }) h)

module _ (set : Setting) (buf : Ptr) (bytes : List ℕ) (s : Session) (h : Heap) where
  pub len_of : length bytes ≤ section_size → u32 (0 + length bytes) ≡ length bytes
  len_of fits = omega arith

  pub commit-succeeds :
      (conn : Conn) (freed : Heap)
      → buf ≢ null
      → 0 < length bytes
      → length_loop set.fuel buf 0 h ≡ answered (length bytes) h
      → buffer_free set.fuel buf h ≡ answered tt freed
      → txn_write set buf (length bytes) s.conn h ≡ answered (succeeded, conn) h
      → txn_commit set buf [] s h ≡ answered (succeeded, record { conn = conn; txns = [] }) freed
  unfolding txn_commit txn_close
  commit-succeeds conn freed some_buf some_bytes len free written = ground arith

  commit-fails :
      (conn : Conn)
      → 0 < length bytes
      → length_loop set.fuel buf 0 h ≡ answered (length bytes) h
      → txn_write set buf (length bytes) s.conn h ≡ answered (failed, conn) h
      → txn_commit set buf [] s h ≡ answered (failed, record { conn = conn; txns = s.txns }) h
  unfolding txn_commit
  commit-fails conn some_bytes len written = ground arith

  ends :
      (freed : Heap)
      → buf ≢ null
      → 0 < length bytes
      → length_loop set.fuel buf 0 h ≡ answered (length bytes) h
      → buffer_free set.fuel buf h ≡ answered tt freed
      → Commits bytes s.conn h (txn_write set buf (length bytes) s.conn h)
      → Ends bytes s h freed (txn_commit set buf [] s h)
  ends freed some_buf some_bytes len free c = elim (code_of_commit c.committed) [
    | inl works ↦ record {
      code = c.code;
      conn = c.conn;
      committed = c.committed;
      returns = inl (
        works,
        commit-succeeds c.conn freed some_buf some_bytes len free
            (c.returns ∙ ap (λ k. answered (k, c.conn) h) works),
      );
    }
    | inr fails ↦ record {
      code = c.code;
      conn = c.conn;
      committed = c.committed;
      returns = inr (
        fails,
        commit-fails c.conn some_bytes len (c.returns ∙ ap (λ k. answered (k, c.conn) h) fails),
      );
    }
  ]

-- `logdb_txn_commit` of an outermost transaction with at least one byte of data returns, when its
-- buffer can be freed, the log is well-formed with less than 2^16 entries, the data fit a section,
-- nobody else is at work, there is memory for a lock, and no call on the log fails; calls on the
-- database file may fail. With 0 the data stand behind the valid bytes of one section (durable,
-- unless without syncs) or, when they fill the section to its last byte, that section is empty; all
-- other sections are as before, the buffer is freed and no transaction is left. With -1 every
-- section is as before, and the transaction stays.
pub txn_commit-Ends :
    (set : Setting) (rounds n : ℕ) {h freed : Heap} {buf : Ptr} {bytes : List ℕ} (s : Session)
    → set.rounds ≡ suc rounds
    → set.others ≡ []
    → Holds h set.fuel buf bytes
    → buf ≢ null
    → buffer_free set.fuel buf h ≡ answered tt freed
    → 0 < length bytes
    → length bytes ≤ section_size
    → IsLog n s.conn.log
    → HasShorts s.conn.log.file
    → n < 65536
    → s.conn.readers < s.conn.max_readers
    → s.conn.memory ≡ true
    → ((j : ℕ) → held s.conn.locks j ≡ pos 0)
    → Ends bytes s h freed (txn_commit set buf [] s h)
txn_commit-Ends set rounds n {h} {freed} {buf} {bytes} s enough alone holds some_buf free some_bytes
      fits is shorts few readers memory unlocked =
    ends set buf bytes s h freed some_buf some_bytes
      (length_loop-Holds 0 holds (omega arith)
        ∙ ap (λ k. answered k h) (len_of set buf bytes s h fits))
      free
      (txn_write-Commits set rounds n s.conn enough alone holds some_buf is shorts few fits readers
        memory unlocked)

-- ===== src/Txn/Send.antt =====
-- `logdb_txn_write_buf` writes the bytes that the buffer stands for, in order.
pub mod Whole
use logdb.Prelude.{
  ℕ, suc, ◌+◌, ◌≡◌, ◌≢◌, refl, sym, ap, subst, ◌∙◌, inl, inr, true, false, List, [], ◌++◌,
  append-nil, ◌==◌, if◌then◌else◌, arith, length, take, take-length, Bool-cases,
}
use native.Mathlib.Decide.{ℕ_discrete}
use logdb.Io.{Fd}
use logdb.Heap.{Ptr, null, Buffer, Heap, Result, answered, pure, then_run, load}
use logdb.Buffer.Holds.{Holds, own, shared, nil, not_null, load-cell, Holds-null}
use logdb.Lease.{Lease, lease_write}
use logdb.Lease.Transfer.{Fits, LeaseWritten, lease_write-LeaseWritten}
use logdb.Lease.Pieces.{LeaseWritten-stop, LeaseWritten-append, Fits-written}
use logdb.Txn.{Sent, send, txn_write_buf}

-- The outcome of a write of all these bytes: done, or stopped with `left` of them missing.
pub record IsSent (bytes : List ℕ) (lease : Lease) (db : Fd) (s : Sent) : Type 0 where
  pub left : ℕ
  pub complete : s.done ≡ (left == 0)
  pub written : LeaseWritten bytes lease db left s.lease s.db

send-IsSent :
    (bytes : List ℕ) (lease : Lease) (db : Fd)
    → Fits lease
    → IsSent bytes lease db (send bytes lease db)
send-IsSent bytes lease db fits = record {
  left = (lease_write bytes lease db).0;
  complete = ground arith;
  written = (lease_write-LeaseWritten bytes lease db fits).0;
}

-- The run returns, leaves the heap alone, and has sent the bytes.
pub record Sends (bytes : List ℕ) (lease : Lease) (db : Fd) (h : Heap) (r : Result Sent)
    : Type 0 where
  pub sent : Sent
  pub returns : r ≡ answered sent h
  pub is_sent : IsSent bytes lease db sent

-- What follows a piece.
abbrev pub tail : ℕ → Ptr → Heap → Sent → Result Sent
tail fuel next h s =
    (if s.done
        then (if next == null then pure s else txn_write_buf fuel next s.lease s.db)
        else pure s)
      h

module _ (fuel : ℕ) (next : Ptr) (h : Heap) (s : Sent) where
  tail-stop : s.done ≡ false → tail fuel next h s ≡ answered s h
  tail-stop e = ground arith

  pub tail-end : next ≡ null → tail fuel next h s ≡ answered s h
  tail-end e = ground arith

  pub tail-more :
      s.done ≡ true → next ≢ null → tail fuel next h s ≡ txn_write_buf fuel next s.lease s.db h
  tail-more e ne = ground arith

-- The rest of the list, after a first piece.
Sends-next :
    (xs ys : List ℕ) (fuel : ℕ) (next : Ptr) (lease : Lease) (db : Fd) (h : Heap) (s : Sent)
    → IsSent xs lease db s
    → (next ≡ null → ys ≡ [])
    → (next ≢ null
        → s.done ≡ true
        → Sends ys s.lease s.db h (txn_write_buf fuel next s.lease s.db h))
    → Sends (xs ++ ys) lease db h (tail fuel next h s)
Sends-next xs ys fuel next lease db h s is none_left rest = elim (Bool-cases s.done) [
  | inr stop ↦ record {
    sent = s;
    returns = tail-stop fuel next h s stop;
    is_sent = record {
      left = is.left + length ys;
      complete = stop ∙ ground (arith, is.complete, stop);
      written = LeaseWritten-stop xs ys is.written;
    };
  }
  | inl go ↦ elim (ℕ_discrete next null) [
    | yes at_end ↦ record {
      sent = s;
      returns = tail-end fuel next h s at_end;
      is_sent =
          subst (λ l. IsSent l lease db s)
            (sym (append-nil xs) ∙ ap (λ l. xs ++ l) (sym (none_left at_end))) is;
    }
    | no more ↦
        let r = rest more go in
        record {
          sent = r.sent;
          returns = tail-more fuel next h s go more ∙ r.returns;
          is_sent = record {
            left = r.is_sent.left;
            complete = r.is_sent.complete;
            written = LeaseWritten-append xs ys (all_first go) r.is_sent.written;
          };
        }
  ]
]
  where
    all_first : s.done ≡ true → LeaseWritten xs lease db 0 s.lease s.db
    all_first go =
        subst (λ n. LeaseWritten xs lease db n s.lease s.db) (ground (arith, is.complete, go))
          is.written

-- One round of the loop: the piece of this buffer, and the rest.
module _ (fuel : ℕ) (p : Ptr) (b : Buffer) (lease : Lease) (db : Fd) (h : Heap) where
  abbrev pub piece : Result Sent
  piece =
      (if b.orig == null
          then pure (send (take b.len b.block.bytes) lease db)
          else txn_write_buf fuel b.orig lease db)
        h

  -- The bytes of a buffer of its own.
  pub piece-own :
      b.orig ≡ null
      → b.len ≡ length b.block.bytes
      → piece ≡ answered (send b.block.bytes lease db) h
  piece-own o l = rw (is_null b.orig o) (
      ap (λ k. answered (send k lease db) h)
        (ap (λ n. take n b.block.bytes) l ∙ take-length b.block.bytes))
    where
      is_null : (q : Ptr) → q ≡ null → (q == null) ≡ true
      is_null q h = ground arith

  abbrev pub onward : Sent → Heap → Result Sent
  onward s =
      if s.done
      then (if b.next == null then pure s else txn_write_buf fuel b.next s.lease s.db)
      else pure s

  pub txn_write_buf-round :
      (s : Sent)
      → load p h ≡ answered b h
      → piece ≡ answered s h
      → txn_write_buf (suc fuel) p lease db h ≡ onward s h
  unfolding txn_write_buf
  txn_write_buf-round s loaded e = rw loaded (ap (then_run onward) e)

-- Through a lease that lies in its section, and whatever the system calls do,
-- `logdb_txn_write_buf` of a list of buffers returns after having written a prefix of the bytes
-- that the list stands for: all of them exactly if it reports success. The heap stays.
pub txn_write_buf-Sends :
    {h : Heap} {depth : ℕ} {p : Ptr} {bytes : List ℕ} (lease : Lease) (db : Fd)
    → Holds h depth p bytes
    → p ≢ null
    → Fits lease
    → Sends bytes lease db h (txn_write_buf depth p lease db h)
txn_write_buf-Sends lease db nil ne fits = absurd (ne refl)
txn_write_buf-Sends {h} lease db (own {depth} {p} {b} {more} ne e none_shared len rest) _ fits =
    let s = send b.block.bytes lease db in
    let is = send-IsSent b.block.bytes lease db fits in
    rw
      (txn_write_buf-round depth p b lease db h s (load-cell h p ne e)
        (piece-own depth p b lease db h none_shared len))
      (Sends-next b.block.bytes more depth b.next lease db h s is (Holds-null rest) λ next_ne go.
        txn_write_buf-Sends s.lease s.db rest next_ne (Fits-written b.block.bytes fits is.written))
txn_write_buf-Sends {h} lease db (shared {depth} {p} {b} {bytes} {more} ne e from first rest) _
      fits =
    let r = txn_write_buf-Sends lease db first from fits in
    let copied : piece depth p b lease db h ≡ answered r.sent h =
      rw (not_null b.orig from) r.returns in
    rw (txn_write_buf-round depth p b lease db h r.sent (load-cell h p ne e) copied) (
      Sends-next bytes more depth b.next lease db h r.sent r.is_sent (Holds-null rest) λ next_ne go.
        txn_write_buf-Sends r.sent.lease r.sent.db rest next_ne
          (Fits-written bytes fits r.is_sent.written))

-- ===== src/Txn/Send/Whole.antt =====
-- `logdb_txn_write_buf` when no call fails and the lease has room for all bytes.
use logdb.Prelude.{
  ℕ, ◌+◌, ◌≤◌, ◌≡◌, ◌≢◌, refl, sym, ap, ◌∙◌, true, List, [], ◌++◌, append-nil, arith, length,
  length-append,
}
use mathlib.Core.Path.{ap₂}
use native.Mathlib.Decide.{ℕ_discrete}
use logdb.Io.{Fd}
use logdb.Heap.{Ptr, null, Heap, answered}
use logdb.Buffer.Holds.{Holds, own, shared, nil, not_null, load-cell, Holds-null}
use logdb.Lease.{Lease}
use logdb.Lease.Transfer.{moved_by, Fits}
use logdb.Lease.Whole.{filled, lease_write-quiet, filled-append, moved_by-append}
use logdb.Txn.{Sent, send, txn_write_buf}
use logdb.Txn.Send.{tail, tail-end, tail-more, piece-own, txn_write_buf-round}

abbrev pub all_sent : List ℕ → Lease → Fd → Sent
all_sent bytes lease db = record {
  done = true;
  lease = moved_by (length bytes) lease;
  db = filled bytes lease db;
}

all_sent-append :
    (xs ys : List ℕ) (lease : Lease) (db : Fd)
    → all_sent ys (moved_by (length xs) lease) (filled xs lease db) ≡ all_sent (xs ++ ys) lease db
all_sent-append xs ys lease db =
    ap₂ (λ l d. record { done = true; lease = l; db = d }) (moved_by-append xs ys lease)
      (filled-append xs ys lease db)

send-quiet :
    (bytes : List ℕ) (lease : Lease) (db : Fd)
    → Fits lease
    → length bytes ≤ lease.len
    → db.script ≡ []
    → send bytes lease db ≡ all_sent bytes lease db
send-quiet bytes lease db fits room quiet =
    ground (arith, lease_write-quiet bytes lease db fits room quiet)

Fits-moved : (n : ℕ) (lease : Lease) → Fits lease → n ≤ lease.len → Fits (moved_by n lease)
Fits-moved n lease fits room = record { inside = omega (arith, fits.inside, room) }

-- The rest of the list, after a first piece.
next-all :
    (xs ys : List ℕ) (fuel : ℕ) (next : Ptr) (lease : Lease) (db : Fd) (h : Heap)
    → (next ≡ null → ys ≡ [])
    → (next ≢ null
        → txn_write_buf fuel next (moved_by (length xs) lease) (filled xs lease db) h
          ≡ answered (all_sent ys (moved_by (length xs) lease) (filled xs lease db)) h)
    → tail fuel next h (all_sent xs lease db) ≡ answered (all_sent (xs ++ ys) lease db) h
next-all xs ys fuel next lease db h none_left rest = elim (ℕ_discrete next null) [
  | yes at_end ↦
      tail-end fuel next h (all_sent xs lease db) at_end
      ∙ ap (λ l. answered (all_sent l lease db) h)
          (sym (append-nil xs) ∙ ap (λ l. xs ++ l) (sym (none_left at_end)))
  | no more ↦
      tail-more fuel next h (all_sent xs lease db) refl more
      ∙ rest more
      ∙ ap (λ s. answered s h) (all_sent-append xs ys lease db)
]

-- Through a lease in its section with room for the bytes of the list, and when no call fails, all
-- of them are written at the offset of the lease, and the lease moves behind them.
pub txn_write_buf-all :
    {h : Heap} {depth : ℕ} {p : Ptr} {bytes : List ℕ} (lease : Lease) (db : Fd)
    → Holds h depth p bytes
    → p ≢ null
    → Fits lease
    → length bytes ≤ lease.len
    → db.script ≡ []
    → txn_write_buf depth p lease db h ≡ answered (all_sent bytes lease db) h
txn_write_buf-all lease db nil ne fits room quiet = absurd (ne refl)
txn_write_buf-all {h} lease db (own {depth} {p} {b} {more} ne e none_shared len rest) _ fits room
      quiet =
    txn_write_buf-round depth p b lease db h (all_sent b.block.bytes lease db) (load-cell h p ne e)
      (piece-own depth p b lease db h none_shared len
        ∙ ap (λ s. answered s h) (send-quiet b.block.bytes lease db fits short quiet))
    ∙ next-all b.block.bytes more depth b.next lease db h (Holds-null rest) (λ next_ne.
      txn_write_buf-all (moved_by (length b.block.bytes) lease) (filled b.block.bytes lease db) rest
        next_ne (Fits-moved (length b.block.bytes) lease fits short) (omega (arith, sum)) quiet)
  where
    sum : length b.block.bytes + length more ≤ lease.len
    sum = omega (arith, room, length-append b.block.bytes more)

    short : length b.block.bytes ≤ lease.len
    short = omega (arith, sum)
txn_write_buf-all {h} lease db (shared {depth} {p} {b} {bytes} {more} ne e from first rest) _ fits
      room quiet =
    txn_write_buf-round depth p b lease db h (all_sent bytes lease db) (load-cell h p ne e)
      (rw (not_null b.orig from) (txn_write_buf-all lease db first from fits short quiet))
    ∙ next-all bytes more depth b.next lease db h (Holds-null rest) (λ next_ne.
      txn_write_buf-all (moved_by (length bytes) lease) (filled bytes lease db) rest next_ne
        (Fits-moved (length bytes) lease fits short) (omega (arith, sum)) quiet)
  where
    sum : length bytes + length more ≤ lease.len
    sum = omega (arith, room, length-append bytes more)

    short : length bytes ≤ lease.len
    short = omega (arith, sum)

-- ===== src/Txn/Faults.antt =====
-- `logdb_txn_commit` of an inner transaction, when the outer one has no buffer yet.
use logdb.Buffer.Single.{Single}
use logdb.Prelude.{◌<◌, ◌≡◌, succeeded, none, List, ◌∷◌, ℤ}
use logdb.Heap.{Ptr, Heap, Result, answered}
use logdb.Txn.{Session}

-- A buffer that owns its data, at least one byte, and that nothing else refers to.
pub record Alone (h : Heap) (p : Ptr) : Type 0 where
  pub single : Single h p
  pub some_bytes : 0 < single.buffer.len
  pub short : single.buffer.len < 4294967296

-- What the call leaves: the address of a freed buffer as the buffer of the outer transaction.
pub record Dangles (p : Ptr) (outer : List Ptr) (s : Session) (r : Result (ℤ × Session))
    : Type 0 where
  pub after : Heap
  pub returns : r ≡ answered (succeeded, record s { txns = p ∷ outer }) after
  pub gone : after.cell p ≡ none

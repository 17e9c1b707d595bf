-- ===== src/Stress.antt =====
-- stress/stress.c: threads that put numbered records into one database. A turn of a thread is the
-- start of `thread_func`, a round of its loop, or its end.
pub mod Iteration
pub mod AnyTurn
pub mod Creation
pub mod Dump
pub mod Ends
pub mod Idle
pub mod Main
pub mod OneTurn
pub mod Program
pub mod Round
pub mod Runs
pub mod Threads
pub mod Turns
pub mod Whole
use logdb.Prelude.{
  ℕ, zero, suc, ◌+◌, is_zero, Bool, Option, List, [], ◌∷◌, ltb, if◌then◌else◌, length,
}
use logdb.Connection.{Conn}
use logdb.Heap.{Ptr, Block, Result, Command, pure, ◌>>=◌, ◌>>◌}
use logdb.Log.Layout.{encode32}
use logdb.Buffer.{free_disposer, buffer_new_direct, buffer_new_copy, buffer_free}
use logdb.Txn.{Setting, put}

-- The variables of a running `thread_func`, and the transactions of its thread.
pub record Task : Type 0 where
  pub key : Block
  pub keybuf : Ptr
  pub i : ℕ
  pub txns : List Ptr

pub data Worker : Type 0 where
  starting ended : Block → Worker
  working : Task → Worker

-- What the threads share: the connection, and the failures that are printed, with the key and the
-- iteration of each.
pub record Shared : Type 0 where
  pub conn : Conn
  pub printed : List (List ℕ × ℕ)

-- The start of `thread_func`; the key is followed by its NUL.
unfoldable pub start : Block → Command Worker
start key = do
  keybuf ← buffer_new_direct key (length key.bytes) free_disposer
  pure (working (record { key = key; keybuf = keybuf; i = 0; txns = [] }))

-- A round of the loop of `thread_func`.
unfoldable pub iterate : Setting → Task → Shared → Command (Task × Shared)
iterate set t s = do
  valuebuf ← buffer_new_copy (encode32 t.i)
  (code, s') ← put set t.keybuf valuebuf (record { conn = s.conn; txns = t.txns })
  buffer_free set.fuel valuebuf
  pure (
    record t { i = t.i + 1; txns = s'.txns },
    record {
      conn = s'.conn;
      printed = if is_zero code then s.printed else (t.key.bytes, t.i) ∷ s.printed;
    },
  )

-- One turn of a thread; `count` is the number of rounds.
unfoldable pub turn : Setting → ℕ → Worker → Shared → Command (Worker × Shared)
turn set count (starting key) s = do w ← start key; pure (w, s)
turn set count (working t) s =
    if ltb t.i count
    then (do (t', s') ← iterate set t s; pure (working t', s'))
    else (do buffer_free set.fuel t.keybuf; pure (ended t.key, s))
turn set count (ended key) s = pure (ended key, s)

-- A turn of the thread at this place of the list, if there is one.
unfoldable pub turn_of : Setting → ℕ → ℕ → List Worker → Shared → Command (List Worker × Shared)
turn_of set count k [] s = pure ([], s)
turn_of set count zero (w ∷ ws) s = do (w', s') ← turn set count w s; pure (w' ∷ ws, s')
turn_of set count (suc k) (w ∷ ws) s = do (ws', s') ← turn_of set count k ws s; pure (w ∷ ws', s')

-- The threads take turns in this order.
unfoldable pub run : Setting → ℕ → List ℕ → List Worker → Shared → Command (List Worker × Shared)
run set count [] ws s = pure (ws, s)
run set count (k ∷ ks) ws s = do (ws', s') ← turn_of set count k ws s; run set count ks ws' s'

-- ===== src/Txn.antt =====
-- src/logdb_txn.c: nested transactions. The transactions of a thread are the list of their buffers,
-- the current one first; `outer` is the rest of the list.
pub mod Calm
pub mod Commit
pub mod Faults
pub mod Publish
pub mod Put
pub mod Send
pub mod Write
use logdb.Prelude.{
  ℕ, zero, suc, ◌+◌, ◌-◌, ℤ, pos, negsuc, succeeded, failed, is_zero, is_failed, Bool, true, false,
  not, ◌&&◌, ◌||◌, Option, none, some, List, [], ◌∷◌, ◌++◌, ◌==◌, ltb, if◌then◌else◌, u16, u32,
  length, take,
}
use logdb.Io.{Fd, Outcome, error, outcome, spend}
use logdb.Log.Layout.{encode32}
use logdb.Log.Entry.{log_write_entry}
use logdb.Connection.{Conn}
use logdb.Heap.{
  Ptr, null, Block, Buffer, Heap, Result, answered, crashed, unfinished, Command, pure, ◌>>=◌, ◌>>◌,
  store, load, malloc, dispose,
}
use logdb.Buffer.{buffer_new_copy, buffer_length, length_loop, buffer_append, buffer_free}
use logdb.Lease.{Lease, lease_write, lease_release}
use logdb.Lease.Grant.{Acquired, leased, denied, looping, acquire_write}

-- A thread on a connection.
pub record Session : Type 0 where
  pub conn : Conn
  pub txns : List Ptr

-- What a call does not decide itself: the build, the fuel of walks over buffers, the rounds that
-- `logdb_lease_acquire_write` is given, and what others do in each of them.
pub record Setting : Type 0 where
  pub debug : Bool
  pub fuel : ℕ
  pub rounds : ℕ
  pub others : List (Conn → Conn)

-- What is left of a write: whether all was written, the lease, and the database file.
pub record Sent : Type 0 where
  pub done : Bool
  pub lease : Lease
  pub db : Fd

abbrev pub send : List ℕ → Lease → Fd → Sent
send bytes lease db =
    let (left, lease', db') = lease_write bytes lease db in
    record { done = left == 0; lease = lease'; db = db' }

-- `logdb_txn_write_buf`
unfoldable pub txn_write_buf : ℕ → Ptr → Lease → Fd → Command Sent
txn_write_buf zero p lease db = λ _. unfinished
txn_write_buf (suc fuel) p lease db = do
  b ← load p
  s ←
      if b.orig == null
      then pure (send (take b.len b.block.bytes) lease db)
      else txn_write_buf fuel b.orig lease db
  if s.done
      then (if b.next == null then pure s else txn_write_buf fuel b.next s.lease s.db)
      else pure s

-- `fsync`
unfoldable pub sys_fsync : Fd → ℤ × Fd
sys_fsync fd = elim (outcome fd) [
  | error ↦ (failed, spend fd)
  | _ ↦ (succeeded, record (spend fd) { synced = fd.file })
]

-- `logdb_txn_close` of a transaction with this buffer, on a connection.
unfoldable pub txn_close : Setting → Ptr → List Ptr → Session → Command Session
txn_close set buf outer s = do
  if buf == null then pure tt else buffer_free set.fuel buf
  pure (record s { txns = outer })

-- `logdb_txn_begin_implicit` and the allocation of a transaction: `none` is `NULL`.
unfoldable pub txn_new : Command Bool
unfolding malloc
txn_new = do txn ← malloc; pure (not (txn == null))

-- The steps of `logdb_txn_commit` behind the write of the data: the syncs, the new entry, and the
-- release of the lease on each way out.
unfoldable pub publish : Lease → Conn → ℤ × Conn
publish lease c =
    let durable = not c.nosync in
    let (synced, db) = if durable then sys_fsync c.db else (succeeded, c.db) in
    let c1 = record c { db = db } in
    if is_failed synced
    then (failed, lease_release lease c1)
    else (let (written, log) = log_write_entry (u16 lease.offset) lease.index c1.log in
        let c2 = record c1 { log = log } in
        if is_zero written
        then (let c3 = if durable then record c2 { log = (sys_fsync c2.log).1 } else c2 in
            (succeeded, lease_release lease c3))
        else (failed, lease_release lease c2))

-- The outermost transaction: lease, write, publish.
unfoldable pub txn_write : Setting → Ptr → ℕ → Conn → Command (ℤ × Conn)
txn_write set buf len c =
    let (acquired, c') = acquire_write set.rounds set.others len c in
    elim acquired [
      | denied ↦ pure (failed, c')
      | looping ↦ (λ _. unfinished)
      | leased lease ↦ do
        s ← txn_write_buf set.fuel buf lease c'.db
        let c'' = record c' { db = s.db }
        pure (if s.done then publish s.lease c'' else (failed, lease_release s.lease c''))
    ]

-- `logdb_txn_commit`
unfoldable pub txn_commit : Setting → Ptr → List Ptr → Session → Command (ℤ × Session)
txn_commit set buf outer s = do
  len ← buffer_length set.fuel buf
  if len == 0 then (do s' ← txn_close set buf outer s; pure (succeeded, s')) else elim outer [
    | o ∷ os ↦ do
      joined ← buffer_append set.debug set.fuel o buf
      s' ← txn_close set buf (joined ∷ os) s
      pure (succeeded, s')
    | [] ↦ do
      (code, c) ← txn_write set buf len s.conn
      let s' = record s { conn = c }
      if is_zero code
          then (do s'' ← txn_close set buf [] s'; pure (succeeded, s''))
          else pure (code, s')
  ]

-- `logdb_txn_commit_implicit`
unfoldable pub txn_commit_implicit : Setting → Ptr → Session → Command (ℤ × Session)
txn_commit_implicit set buf s = do
  (code, s') ← txn_commit set buf s.txns s
  if is_zero code then pure (code, s') else do s'' ← txn_close set buf s'.txns s'; pure (code, s'')

-- `logdb_begin`: `set_result` is what `pthread_setspecific` returns.
unfoldable pub begin : ℕ → Session → Command (ℤ × Session)
begin set_result s = do
  allocated ← txn_new
  pure (
      if not allocated
      then (failed, s)
      else if set_result == 0
      then (succeeded, record s { txns = null ∷ s.txns })
      else (pos set_result, s))

-- `logdb_put`
unfoldable pub put : Setting → Ptr → Ptr → Session → Command (ℤ × Session)
put set key value s =
    if set.debug && ((key == null) || (value == null)) then pure (failed, s) else do
      keylen ← buffer_length set.fuel key
      valuelen ← buffer_length set.fuel value
      headerbuf ← buffer_new_copy (encode32 keylen ++ encode32 valuelen)
      if headerbuf == null then pure (failed, s) else do
        allocated ← txn_new
        if allocated
            then (do
              first ← buffer_append set.debug set.fuel headerbuf key
              buf ← buffer_append set.debug set.fuel first value
              txn_commit_implicit set buf s)
            else (do buffer_free set.fuel headerbuf; pure (failed, s))

-- `logdb_commit`
unfoldable pub commit : Setting → Session → Command (ℤ × Session)
commit set s = elim s.txns [ [] ↦ pure (failed, s) | buf ∷ outer ↦ txn_commit set buf outer s ]

-- `logdb_rollback`
unfoldable pub rollback : Setting → Session → Command (ℤ × Session)
rollback set s = elim s.txns [
  | [] ↦ pure (failed, s)
  | buf ∷ outer ↦ do s' ← txn_close set buf outer s; pure (succeeded, s')
]

-- `logdb_txn_destruct`, by which `logdb_txn_rollback_all` closes all transactions of the thread.
unfoldable pub txn_destruct : Setting → List Ptr → Command (Unit {0})
txn_destruct set [] = pure tt
txn_destruct set (buf ∷ outer) = do
  txn_destruct set outer
  if buf == null then pure tt else buffer_free set.fuel buf

-- ===== src/Iter.antt =====
-- src/logdb_iter.c: iteration over the records of all sections. A record is a header with the
-- lengths of the key and of the value, the key, and the value (src/logdb_data.h).
pub mod Dump
pub mod Loop
pub mod Reads
pub mod Pair
pub mod Records
pub mod Round
pub mod Sections
pub mod Visit
pub mod Whole
use logdb.Prelude.{
  ℕ, zero, suc, ◌+◌, Bool, true, false, not, ◌&&◌, ◌||◌, Option, none, some, List, [], ◌∷◌, ◌++◌,
  ◌==◌, ltb, leb, if◌then◌else◌, u32, length, take, drop, is_some,
}
use logdb.Io.{Fd}
use logdb.Log.Layout.{data_header_size, decode32}
use logdb.Log.Entry.{log_read_entry}
use logdb.Log.Lock.{lock_none}
use logdb.Connection.{Conn}
use logdb.Heap.{
  Ptr, null, Heap, Result, answered, crashed, unfinished, Command, pure, ◌>>=◌, ◌>>◌, malloc,
}
use logdb.Buffer.{free_disposer, buffer_new_direct, buffer_free}
use logdb.Lease.{Lease, acquire_read, lease_read, lease_seek, lease_release}

-- `logdb_iter_t`; `leasing` says that the lease has a connection, and `record` is the header of the
-- current record, as its bytes.
pub record Iter : Type 0 where
  pub lease : Lease
  pub leasing : Bool
  pub header : List ℕ
  pub key : Ptr
  pub value : Ptr

abbrev pub keylen : Iter → ℕ
keylen iter = decode32 iter.header

abbrev pub valuelen : Iter → ℕ
valuelen iter = decode32 (drop 4 iter.header)

-- `calloc` in `logdb_iter_all`
abbrev pub new_iter : Iter
new_iter = record {
  lease = record { index = 0; offset = 0; len = 0; type = lock_none };
  leasing = false;
  header = 0 ∷ 0 ∷ 0 ∷ 0 ∷ 0 ∷ 0 ∷ 0 ∷ 0 ∷ [];
  key = null;
  value = null;
}

-- `logdb_iter_all`
unfoldable pub iter_all : Command (Option Iter)
iter_all = do iter ← malloc; pure (if iter == null then none else some new_iter)

-- What a function of the iterator leaves: its result, the iterator and the connection.
abbrev pub Stepped : Type 0 → Type 0
Stepped A = A × Iter × Conn

-- `logdb_lease_read` of the iterator's lease. The length is tested before the connection is used.
unfoldable pub iter_lease_read : ℕ → Iter → Conn → Command (Stepped (ℕ × List ℕ))
iter_lease_read len iter conn =
    if not iter.leasing && leb len iter.lease.len
    then (λ heap. crashed)
    else (let (notread, got, lease, db) = lease_read len iter.lease conn.db in
        pure ((notread, got), record iter { lease = lease }, record conn { db = db }))

-- `logdb_iter_read_buf`
unfoldable pub iter_read_buf : ℕ → Iter → Conn → Command (Stepped Ptr)
iter_read_buf len iter conn = do
  buf ← malloc
  if buf == null then pure (null, iter, conn) else do
    ((notread, got), iter', conn') ← iter_lease_read len iter conn
    if notread == 0
        then (do
          result ← buffer_new_direct (record { address = buf; bytes = got }) len free_disposer
          pure (result, iter', conn'))
        else pure (null, iter', conn')

-- `while (1)`: the next entry that is not 0, and whether there is one.
pub data Sought : Type 0 where
  at_entry : ℕ → Sought
  no_entry endless : Sought

unfoldable pub find_entry : ℕ → ℕ → Fd → Sought × Fd
find_entry zero index log = (endless, log)
find_entry (suc fuel) index log =
    let (entry, log') = log_read_entry index log in
    elim entry [
      | none ↦ (no_entry, log')
      | some len ↦ elim (len == 0) [
        | true ↦ find_entry fuel (u32 (index + 1)) log'
        | false ↦ (at_entry index, log')
      ]
    ]

-- The release of the lease, and the index after it.
abbrev pub drop_lease : Iter → Conn → ℕ × Iter × Conn
drop_lease iter conn =
    if iter.leasing
    then (
      u32 (iter.lease.index + 1),
      record iter { leasing = false },
      lease_release iter.lease conn,
    )
    else (0, iter, conn)

-- The lease on the next section: whether there is one.
unfoldable pub next_lease : ℕ → Iter → Conn → Command (Stepped Bool)
next_lease fuel iter conn =
    let (index, iter1, conn1) = drop_lease iter conn in
    let (sought, log) = find_entry fuel index conn1.log in
    let conn2 = record conn1 { log = log } in
    elim sought [
      | endless ↦ (λ heap. unfinished)
      | no_entry ↦ pure (false, iter1, conn2)
      | at_entry i ↦
          let (lease, conn3) = acquire_read i 0 conn2 in
          pure (elim lease [
            | none ↦ (false, iter1, conn3)
            | some l ↦ (true, record iter1 { lease = l; leasing = true }, conn3)
          ])
    ]

-- Past the key and the value, as far as they were not read: whether the offsets are valid.
abbrev pub skip_to : Bool → Ptr → ℕ → Iter → Bool × Iter
skip_to debug buf len iter =
    if buf == null
    then (let (offset, lease) = lease_seek debug len iter.lease in
        (is_some offset, record iter { lease = lease }))
    else (true, iter)

unfoldable pub skip_rest : Bool → Iter → Bool × Iter
skip_rest debug iter =
    let (key_valid, iter1) = skip_to debug iter.key (keylen iter) iter in
    if key_valid then skip_to debug iter1.value (valuelen iter1) iter1 else (false, iter1)

-- `logdb_buffer_free` of the old key and value.
unfoldable pub dispose_old : ℕ → Iter → Command Iter
dispose_old fuel iter = do
  if iter.key == null then pure tt else buffer_free fuel iter.key
  if iter.value == null then pure tt else buffer_free fuel iter.value
  pure (record iter { key = null; value = null })

-- The old data are disposed, and the header of the next record is read over the old header.
unfoldable pub read_header : ℕ → Iter → Conn → Command (Stepped Bool)
read_header fuel iter conn = do
  iter1 ← dispose_old fuel iter
  ((notread, got), iter2, conn2) ← iter_lease_read data_header_size iter1 conn
  pure (notread == 0, record iter2 { header = got ++ drop (length got) iter2.header }, conn2)

-- `logdb_iter_next`: whether it returns 1.
unfoldable pub iter_next : Bool → ℕ → Iter → Conn → Command (Stepped Bool)
iter_next debug fuel iter conn =
    if ltb iter.lease.len data_header_size
    then (do
      (leased, iter', conn') ← next_lease fuel iter conn
      if leased then read_header fuel iter' conn' else pure (false, iter', conn'))
    else (let (valid, iter') = skip_rest debug iter in
        if valid then read_header fuel iter' conn else pure (false, iter', conn))

-- `logdb_iter_current_key`; its test of the connection is there in a debug build only.
unfoldable pub iter_current_key : Bool → Iter → Conn → Command (Stepped Ptr)
iter_current_key debug iter conn =
    if iter.key == null
    then (if debug && not iter.leasing then pure (null, iter, conn) else do
      (key, iter', conn') ← iter_read_buf (keylen iter) iter conn
      pure (key, record iter' { key = key }, conn'))
    else pure (iter.key, iter, conn)

-- `logdb_iter_current_value`
unfoldable pub iter_current_value : Bool → Iter → Conn → Command (Stepped Ptr)
iter_current_value debug iter conn =
    if iter.value == null
    then (if debug && not iter.leasing then pure (null, iter, conn) else do
      (key, iter1, conn1) ← iter_current_key debug iter conn
      (value, iter2, conn2) ← iter_read_buf (valuelen iter1) iter1 conn1
      pure (value, record iter2 { value = value }, conn2))
    else pure (iter.value, iter, conn)

-- `logdb_iter_free`
unfoldable pub iter_free : ℕ → Iter → Conn → Command Conn
iter_free fuel iter conn = do
  iter1 ← dispose_old fuel iter
  pure (if iter1.leasing then lease_release iter1.lease conn else conn)

-- ===== src/Connection/Locking.antt =====
-- `logdb_log_lock` and `logdb_log_unlock` of src/logdb_log.c, with the call of `fcntl`, and the
-- read lock on the connection.
use logdb.Prelude.{
  ℕ, ◌+◌, ◌-◌, ℤ, succeeded, failed, is_zero, is_failed, Bool, true, false, none, some, ltb,
  if◌then◌else◌,
}
use logdb.Io.{Fd, full, part, error, outcome, spend}
use logdb.Log.Lock.{LockType, inproc_lock, inproc_unlock, refused}
use logdb.Connection.{Conn}

-- `fcntl (fd, F_SETLK, …)`: it fails if another process has the lock.
abbrev pub sys_call : Fd → ℤ × Fd
sys_call fd =
    (elim (outcome fd) [ error ↦ failed | full ↦ succeeded | part _ ↦ succeeded ], spend fd)

-- `logdb_log_inproc_unlock` on the connection's locks.
unfoldable pub conn_inproc_unlock : LockType → ℕ → Conn → Conn
conn_inproc_unlock type index c = elim (inproc_unlock type index c.locks) [
  | none ↦ record c { aborted = true }
  | some table ↦ record c { locks = table }
]

unfoldable pub log_lock : LockType → ℕ → Conn → ℤ × Conn
unfolding conn_inproc_unlock
log_lock type index c =
    let (code, table) = inproc_lock c.memory type index c.locks in
    let c' = record c { locks = table } in
    if is_zero code
    then (let (ret, log) = sys_call c.log in
        let c'' = record c' { log = log } in
        if is_failed ret then (refused, conn_inproc_unlock type index c'') else (succeeded, c''))
    else (code, c')

unfoldable pub log_unlock : LockType → ℕ → Conn → Conn
unfolding conn_inproc_unlock
log_unlock type index c =
    let (ret, log) = sys_call c.log in conn_inproc_unlock type index (record c { log = log })

-- `pthread_rwlock_rdlock (&conn->lock)` and `pthread_rwlock_unlock`
unfoldable pub rdlock : Conn → Bool × Conn
rdlock c =
    if ltb c.readers c.max_readers then (true, record c { readers = c.readers + 1 }) else (false, c)

unfoldable pub rdunlock : Conn → Conn
rdunlock c = record c { readers = c.readers - 1 }

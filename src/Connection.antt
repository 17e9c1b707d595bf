-- ===== src/Connection.antt =====
-- `logdb_connection_t` of src/logdb_connection.h, with what its fields stand for: the two
-- descriptors, the locks of the log, and the count of the read locks on `conn->lock`.
pub mod Locking
use logdb.Prelude.{ℕ, Bool, List}
use logdb.Io.{Fd}
use logdb.Log.Lock.{LockNode}

pub record Conn : Type 0 where
  pub db : Fd
  pub log : Fd
  -- `log->lock`
  pub locks : List LockNode
  -- read locks that are held on `conn->lock`, and how many the implementation grants
  pub readers : ℕ
  pub max_readers : ℕ
  -- whether `calloc` gives memory for the next lock structure
  pub memory : Bool
  -- `LOGDB_OPEN_NOSYNC` is among the flags
  pub nosync : Bool
  -- the process has called `abort` or used a wild pointer
  pub aborted : Bool

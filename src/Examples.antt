-- ===== src/Examples.antt =====
-- Small files, a connection and a heap, on which the theorems of the other modules are tried: a log
-- of one entry of 3 bytes, and a database file that ends behind these.
pub mod Files
pub mod Iters
pub mod Leases
pub mod Locks
pub mod Logs
pub mod Puts
pub mod Reopened
pub mod Stressed
pub mod Txns
use logdb.Prelude.{
  ℕ, zero, suc, ◌+◌, ◌-◌, ◌<◌, ◌≡◌, ◌≢◌, refl, pos, Bool, true, false, Option, none, some, List, [],
  ◌∷◌, ◌==◌, ltb, leb, if◌then◌else◌, arith,
}
use logdb.File.{File, byte, read_at}
use logdb.Io.{Fd}
use logdb.Log.Layout.{section_size, log_offset, decode16}
use logdb.Log.Lock.{LockNode}
use logdb.Log.Lock.Held.{held}
use logdb.Log.Entry.{entry_at}
use logdb.Connection.{Conn}
use logdb.Heap.{Ptr, null, Block, Buffer, Heap}
use logdb.Buffer.Holds.{Holds, nil, own}
use logdb.Sections.{HasShorts}
use logdb.Lease.Choose.{IsLog}
use logdb.Lease.Walk.{HasSpace, IsFull}

abbrev pub log_file : File
log_file = record { size = 8; at = λ i. if i == 6 then 3 else 0 }

abbrev pub db_file : File
db_file = record { size = 9; at = λ _. 7 }

abbrev pub open_file : File → Fd
open_file f = record { file = f; synced = f; pos = 0; script = []; junk = pos 0 }

abbrev pub conn : Conn
conn = record {
  db = open_file db_file;
  log = open_file log_file;
  locks = [];
  readers = 0;
  max_readers = 8;
  memory = true;
  nosync = false;
  aborted = false;
}

-- The entry of `log_file`, and none behind it.
pub log_file-entry : entry_at log_file 0 ≡ some 3
unfolding entry_at read_at decode16 log_offset
log_file-entry = refl

pub log_file-HasShorts : HasShorts log_file
unfolding entry_at read_at decode16 log_offset
log_file-HasShorts = record { short = short }
  where
    short : (index len : ℕ) → entry_at log_file index ≡ some len → len < section_size
    short index len e = ground arith

pub log_file-IsLog : IsLog 1 (open_file log_file)
unfolding log_offset
log_file-IsLog = record { size = refl; few = omega arith; quiet = refl }

pub unlocked : (j : ℕ) → held [] j ≡ pos 0
unfolding held
unlocked j = refl

-- One buffer, of two bytes, at the address 1.
abbrev pub buffer : Buffer
buffer = record {
  block = record { address = 100; bytes = 4 ∷ 5 ∷ [] };
  len = 2;
  disposer = none;
  orig = null;
  next = null;
  refcnt = 1;
}

abbrev pub heap : Heap
heap = record {
  cell = λ p. if p == 1 then some buffer else none;
  fresh = 2;
  mallocs = [];
  disposed = [];
}

pub one_not_null : ◌≢◌ {A = Ptr} 1 null
one_not_null e = omega (arith, e)

pub heap-Holds : Holds heap 2 1 (4 ∷ 5 ∷ [])
heap-Holds = own one_not_null refl refl refl nil

-- ===== src/Examples/Txns.antt =====
-- The theorems on src/logdb_txn.c and src/logdb_buffer.c, on one buffer of two bytes.
use logdb.Prelude.{◌+◌, ◌≡◌, refl, false, none, some, [], ◌∷◌, arith, u32}
use logdb.Io.{Fd, error, part}
use logdb.Log.Lock.{lock_write}
use logdb.Heap.{Heap, answered, put_cell, load}
use logdb.Buffer.{length_loop, buffer_free}
use logdb.Buffer.Holds.{length_loop-Holds}
use logdb.Lease.{Lease}
use logdb.Txn.{Session, Setting, txn_write_buf, publish, txn_commit}
use logdb.Txn.Send.{Sends, txn_write_buf-Sends}
use logdb.Txn.Publish.{Published, publish-Published}
use logdb.Txn.Commit.{Ends, txn_commit-Ends}
use logdb.Examples.{
  db_file, open_file, conn, log_file-IsLog, log_file-HasShorts, unlocked, buffer, heap,
  one_not_null, heap-Holds,
}

abbrev lease : Lease
lease = record { index = 0; offset = 3; len = 2; type = lock_write }

abbrev failing : Fd
failing = record (open_file db_file) { script = part 1 ∷ error ∷ [] }

txn_write_buf-Sends_example :
    Sends (4 ∷ 5 ∷ []) lease failing heap (txn_write_buf 2 1 lease failing heap)
txn_write_buf-Sends_example =
    txn_write_buf-Sends lease failing heap-Holds one_not_null (record { inside = omega arith })

publish-Published_example : let (code, c') = publish lease conn in Published lease conn code c'
publish-Published_example = publish-Published lease conn

length_loop-Holds_example : length_loop 2 1 0 heap ≡ answered (u32 (0 + 2)) heap
length_loop-Holds_example = length_loop-Holds 0 heap-Holds (omega arith)

abbrev session : Session
session = record { conn = conn; txns = 0 ∷ 0 ∷ [] }

abbrev setting : Setting
setting = record { debug = false; fuel = 2; rounds = 1; others = [] }

abbrev freed : Heap
freed = put_cell 1 none (put_cell 1 (some (record buffer { refcnt = 0 })) heap)

frees : buffer_free 2 1 heap ≡ answered tt freed
unfolding buffer_free load
frees = refl

txn_commit-Ends_example :
    Ends (4 ∷ 5 ∷ []) session heap freed (txn_commit setting 1 [] session heap)
txn_commit-Ends_example =
    txn_commit-Ends setting 0 1 session refl refl heap-Holds one_not_null frees (omega arith)
      (omega arith) log_file-IsLog log_file-HasShorts (omega arith) (omega arith) refl unlocked

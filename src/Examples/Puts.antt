-- ===== src/Examples/Puts.antt =====
-- `logdb_put` of a key of two bytes and a value of one.
use logdb.Prelude.{refl, true, none, some, [], ◌∷◌, ◌==◌, if◌then◌else◌, arith}
use logdb.Heap.{Buffer, Heap}
use logdb.Txn.{Setting, put}
use logdb.Txn.Put.{Given}
use logdb.Txn.Put.Ends.{Puts, put-Puts}
use logdb.Examples.{conn, log_file-IsLog, log_file-HasShorts, unlocked, buffer, one_not_null}

abbrev pub value_buffer : Buffer
value_buffer = record buffer { block = record { address = 101; bytes = 6 ∷ [] }; len = 1 }

abbrev pub two_buffers : Heap
two_buffers = record {
  cell = λ p. if p == 1 then some buffer else if p == 2 then some value_buffer else none;
  fresh = 3;
  mallocs = [];
  disposed = [];
}

abbrev pub given : Given 1 2 two_buffers
given = record {
  key_there = record {
    buffer = buffer;
    there = refl;
    some_address = one_not_null;
    orig = refl;
    next = refl;
    refcnt = refl;
  };
  value_there = record {
    buffer = value_buffer;
    there = refl;
    some_address = λ e. omega (arith, e);
    orig = refl;
    next = refl;
    refcnt = refl;
  };
  key_len = refl;
  value_len = refl;
  apart = λ e. omega (arith, e);
  old_key = omega arith;
  old_value = omega arith;
  memory = refl;
}

abbrev pub careful : Setting
careful = record { debug = true; fuel = 5; rounds = 1; others = [] }

put-Puts_example :
    Puts
      (4 ∷ 5 ∷ [], 6 ∷ [])
      1
      2
      two_buffers
      conn
      (put careful 1 2 (record { conn = conn; txns = [] }) two_buffers)
put-Puts_example =
    put-Puts careful 0 0 1 1 2 two_buffers conn given refl refl refl (omega arith) log_file-IsLog
      log_file-HasShorts (omega arith) (omega arith) refl unlocked

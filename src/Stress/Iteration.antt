-- ===== src/Stress/Iteration.antt =====
-- A round of the loop of `thread_func` of stress/stress.c, on a calm connection.
use logdb.Prelude.{ℕ, suc, ◌+◌, ◌≤◌, ◌<◌, ◌≡◌, refl, ap, subst, ◌∙◌, some, List, [], arith, length}
use logdb.Connection.{Conn}
use logdb.Heap.{Ptr, Block, Heap, answered, malloc, put_cell}
use logdb.Log.Layout.{encode32}
use logdb.Buffer.{buffer_new_copy, buffer_new_direct, buffer_free}
use logdb.Buffer.Single.{
  Single, heap_with, buffer_with, after_free, free-single, other-free, allocator-free,
}
use logdb.Iter.Records.{Rec, length-encode_record}
use logdb.Txn.{Setting, put}
use logdb.Txn.Put.{Given}
use logdb.Txn.Put.Refines.{Represents, Stored, added, put-Stored}
use logdb.Stress.{Task, Shared, iterate}

-- The key of a thread stands in a buffer of its own.
pub record IsReady (h : Heap) (t : Task) : Type 0 where
  pub single : Single h t.keybuf
  pub len : single.buffer.len ≡ length single.buffer.block.bytes
  pub same : single.buffer.block ≡ t.key
  pub old : t.keybuf < h.fresh
  pub no_txns : t.txns ≡ []

pub buffer_new_copy-fresh :
    (xs : List ℕ) (h : Heap)
    → 0 < h.fresh
    → h.mallocs ≡ []
    → buffer_new_copy xs h ≡ answered (h.fresh + 1) (heap_with xs h)
unfolding buffer_new_copy malloc buffer_new_direct
buffer_new_copy-fresh xs h some_address memory = ground (arith, some_address, memory)

-- The record of a round.
abbrev pub record_of : Block → ℕ → Rec
record_of key i = (key.bytes, encode32 i)

-- A buffer that is the same in another heap.
abbrev pub moved : {h k : Heap} {p : Ptr} (a : Single h p) → k.cell p ≡ h.cell p → Single k p
moved a same = record {
  buffer = a.buffer;
  there = same ∙ a.there;
  some_address = a.some_address;
  orig = a.orig;
  next = a.next;
  refcnt = a.refcnt;
}

pub new_cell :
    (xs : List ℕ) (h : Heap) → (heap_with xs h).cell (h.fresh + 1) ≡ some (buffer_with xs h)
unfolding put_cell
new_cell xs h = ground arith

-- The buffer that was just made.
abbrev pub new_single : (xs : List ℕ) (h : Heap) → Single (heap_with xs h) (h.fresh + 1)
new_single xs h = record {
  buffer = buffer_with xs h;
  there = new_cell xs h;
  some_address = λ e. omega (arith, e);
  orig = refl;
  next = refl;
  refcnt = refl;
}

-- One more record, and the buffers of others as they were.
pub record Iterated (set : Setting) (n : ℕ) (rs : ℕ → List Rec) (t : Task) (s : Shared) (h : Heap)
    : Type 0 where
  pub index : ℕ
  pub count : ℕ
  pub conn : Conn
  pub after : Heap
  pub returns :
      iterate set t s h
      ≡ answered
          (record t { i = t.i + 1; txns = [] }, record { conn = conn; printed = s.printed })
          after
  pub counted : (n ≤ count) × (count ≤ suc n) × (index < count)
  pub represents : Represents count (added index (record_of t.key t.i) rs) conn
  pub kept : (p : Ptr) → p < h.fresh → after.cell p ≡ h.cell p
  pub memory : (h.fresh ≤ after.fresh) × (after.mallocs ≡ [])

module _ (set : Setting) (fuel rounds n : ℕ) (rs : ℕ → List Rec) (t : Task) (s : Shared) (h : Heap)
    (enough : set.fuel ≡ suc (suc (suc (suc (suc fuel))))) (some_rounds : set.rounds ≡ suc rounds)
    (alone : set.others ≡ []) (fits : 12 + length t.key.bytes ≤ 65536)
    (some_key : 0 < length t.key.bytes) (rep : Represents n rs s.conn) (few : n < 65536)
    (memory : h.mallocs ≡ []) (ready : IsReady h t) where
  abbrev h1 : Heap
  h1 = heap_with (encode32 t.i) h

  abbrev valuebuf : Ptr
  valuebuf = h.fresh + 1

  key_kept : h1.cell t.keybuf ≡ h.cell t.keybuf
  unfolding put_cell
  key_kept = ground (arith, ready.old)

  older : (h.fresh ≤ h1.fresh) × (valuebuf < h1.fresh) × (h1.mallocs ≡ [])
  unfolding put_cell
  older = (omega arith, omega arith, memory)

  abbrev buffers : Given t.keybuf valuebuf h1
  buffers = record {
    key_there = moved ready.single key_kept;
    value_there = new_single (encode32 t.i) h;
    key_len = ready.len;
    value_len = refl;
    apart = λ e. omega (arith, e, ready.old);
    old_key = omega (arith, ready.old, older.0);
    old_value = older.1;
    memory = older.2;
  }

  same_len : length ready.single.buffer.block.bytes ≡ length t.key.bytes
  same_len = ap (λ (b : Block). length b.bytes) ready.same

  stored :
      Stored n rs
        (record_of ready.single.buffer.block t.i)
        h1
        s.conn
        (put set t.keybuf valuebuf (record { conn = s.conn; txns = [] }) h1)
  stored =
      put-Stored set fuel rounds n rs t.keybuf valuebuf h1 s.conn buffers enough some_rounds alone
        (omega
          (arith, fits, same_len, length-encode_record (record_of ready.single.buffer.block t.i)))
        (omega (arith, some_key, same_len)) (omega arith) rep few

  abbrev value : Single stored.after valuebuf
  value = moved (new_single (encode32 t.i) h) (stored.kept valuebuf older.1)

  abbrev last : Heap
  last = after_free 0 stored.after valuebuf value

  frees : buffer_free set.fuel valuebuf stored.after ≡ answered tt last
  frees = rw enough (free-single (suc (suc (suc (suc fuel)))) stored.after valuebuf value)

  returns :
      iterate set t s h
      ≡ answered
          (record t { i = t.i + 1; txns = [] }, record { conn = stored.conn; printed = s.printed })
          last
  unfolding iterate
  returns =
      rw
        (
          buffer_new_copy-fresh (encode32 t.i) h (omega (arith, ready.old)) memory,
          ready.no_txns,
          stored.returns,
          frees,
        )
        refl

  kept : (p : Ptr) → p < h.fresh → last.cell p ≡ h.cell p
  unfolding put_cell
  kept p old =
      other-free 0 stored.after valuebuf value p (λ e. omega (arith, e, old))
      ∙ stored.kept p (omega (arith, old))
      ∙ ground (arith, old)

  memory_left : (h.fresh ≤ last.fresh) × (last.mallocs ≡ [])
  unfolding put_cell
  memory_left =
      let a = allocator-free 0 stored.after valuebuf value in
      (omega (arith, a.0, stored.memory.0), a.1 ∙ stored.memory.1)

  pub iterate-Iterated : Iterated set n rs t s h
  iterate-Iterated = record {
    index = stored.index;
    count = stored.count;
    conn = stored.conn;
    after = last;
    returns = returns;
    counted = stored.counted;
    represents =
        subst
          (λ (b : Block).
            Represents stored.count (added stored.index (record_of b t.i) rs) stored.conn)
          ready.same stored.represents;
    kept = kept;
    memory = memory_left;
  }

-- ===== src/Stress/Idle.antt =====
-- The turns in which a thread of stress/stress.c writes nothing: its start, its end, and those
-- behind it.
use mathlib.Core.List.{Perm}
use mathlib.Core.List.Perm
use logdb.Prelude.{
  ℕ, suc, ◌+◌, ◌-◌, ◌≤◌, ◌<◌, ◌≡◌, ◌≢◌, refl, sym, ap, subst, ◌∙◌, some, List, [], append-nil,
  arith, length,
}
use logdb.Heap.{Ptr, null, Block, Buffer, Heap, answered, malloc, put_cell}
use logdb.Buffer.{free_disposer, buffer_new_direct, buffer_free}
use logdb.Buffer.Single.{after_free, free-single, other-free, allocator-free}
use logdb.Iter.Records.{Rec}
use logdb.Iter.Sections.{records_from}
use logdb.Txn.{Setting}
use logdb.Txn.Put.Refines.{Represents}
use logdb.Stress.{Task, Worker, starting, working, ended, Shared, start, turn}
use logdb.Stress.Iteration.{IsReady}
use logdb.Stress.Turns.{
  no_group, rounds_of, IsKey, Turned, one_thread, IsAt, Misses, written, left_of, key_of,
}

module _ (set : Setting) (fuel count n : ℕ) (rs : ℕ → List Rec) (s : Shared) (h : Heap)
    (enough : set.fuel ≡ suc (suc (suc (suc (suc fuel))))) (rep : Represents n rs s.conn)
    (memory : h.mallocs ≡ []) (some_address : 0 < h.fresh) where
  abbrev pub Turns : Worker → Type 0
  Turns w = Turned (one_thread count) n rs w s h (turn set count w s)

  -- A turn that writes nothing.
  idle :
      (w next : Worker) (after : Heap)
      → turn set count w s h ≡ answered (next, s) after
      → written count next ≡ written count w
      → IsAt count after next
      → (touched : Ptr) → ((q : Ptr) → q < h.fresh → q ≢ touched → after.cell q ≡ h.cell q)
      → ((q : Ptr) → q < h.fresh → Misses q w → (q ≢ touched) × Misses q next)
      → (h.fresh ≤ after.fresh) × (after.mallocs ≡ [])
      → (left_of count next ≡ left_of count w - 1) × (key_of next ≡ key_of w)
      → Turns w
  idle w next after returns wrote is_at touched kept own left goes = record {
    next = next;
    shared = s;
    after = after;
    returns = returns;
    silent = refl;
    count = n;
    counted = (omega arith, omega arith);
    sections = rs;
    represents = rep;
    wrote = [];
    lost = [];
    lost_sections = 0;
    lost_size = omega arith;
    in_groups = no_group;
    same =
        subst (λ l. Perm l (records_from rs 0 n)) (sym (append-nil (records_from rs 0 n))) Perm.rfl;
    wrote_it = subst (λ l. Perm l (written count w)) (sym wrote) Perm.rfl;
    is_at = is_at;
    touched = touched;
    kept = kept;
    own = own;
    memory = left;
    goes = goes;
  }

  pub turn-ended : (key : Block) → IsKey key → Turns (ended key)
  unfolding turn
  turn-ended key is_key =
      idle (ended key) (ended key) h refl refl is_key h.fresh (λ q old other. refl)
        (λ q old miss. (λ e. omega (arith, e, old), tt)) (omega arith, memory) (omega arith, refl)

  -- The start: the key gets a buffer.
  module _ (key : Block) (is_key : IsKey key) where
    abbrev new_task : Task
    new_task = record { key = key; keybuf = h.fresh; i = 0; txns = [] }

    abbrev key_buffer : Buffer
    key_buffer = record {
      block = key;
      len = length key.bytes;
      disposer = free_disposer;
      orig = null;
      next = null;
      refcnt = 1;
    }

    abbrev with_key : Heap
    with_key = put_cell h.fresh (some key_buffer) (record h { fresh = h.fresh + 1 })

    starts : turn set count (starting key) s h ≡ answered (working new_task, s) with_key
    unfolding turn start buffer_new_direct malloc
    starts = ground (arith, memory, some_address)

    is_ready : IsReady with_key new_task
    unfolding put_cell
    is_ready = record {
      single = record {
        buffer = key_buffer;
        there = ground arith;
        some_address = λ e. omega (arith, e, some_address);
        orig = refl;
        next = refl;
        refcnt = refl;
      };
      len = refl;
      same = refl;
      old = omega arith;
      no_txns = refl;
    }

    pub turn-starting : Turns (starting key)
    unfolding put_cell
    turn-starting =
        idle (starting key) (working new_task) with_key starts refl (is_ready, is_key, omega arith)
          h.fresh (λ q old other. ground (arith, other))
          (λ q old miss. (λ e. omega (arith, e, old), λ e. omega (arith, e, old)))
          (omega arith, memory) (omega arith, refl)

  -- The end: the buffer of the key is freed.
  module _ (t : Task) (ready : IsReady h t) (is_key : IsKey t.key) (at_end : t.i ≡ count) where
    abbrev without_key : Heap
    without_key = after_free 0 h t.keybuf ready.single

    frees : buffer_free set.fuel t.keybuf h ≡ answered tt without_key
    frees = rw enough (free-single (suc (suc (suc (suc fuel)))) h t.keybuf ready.single)

    ends : turn set count (working t) s h ≡ answered (ended t.key, s) without_key
    unfolding turn
    ends = ground (arith, at_end, frees)

    allocator : (without_key.fresh ≡ h.fresh) × (without_key.mallocs ≡ h.mallocs)
    allocator = allocator-free 0 h t.keybuf ready.single

    pub turn-ending : Turns (working t)
    turn-ending =
        idle (working t) (ended t.key) without_key ends (ap (λ k. rounds_of t.key k) (sym at_end))
          is_key t.keybuf (λ q old other. other-free 0 h t.keybuf ready.single q other)
          (λ q old miss. (λ e. miss (sym e), tt)) (omega (arith, allocator.0), allocator.1 ∙ memory)
          (omega (arith, at_end), refl)

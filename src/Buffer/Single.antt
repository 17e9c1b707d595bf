-- ===== src/Buffer/Single.antt =====
-- A buffer that owns its data: its length, its data, and its end.
use logdb.Prelude.{
  ℕ, suc, ◌+◌, ◌-◌, ◌<◌, ◌≡◌, ◌≢◌, refl, Option, none, some, List, ◌∷◌, arith, length,
}
use logdb.Heap.{Ptr, null, Buffer, Heap, answered, load, put_cell}
use logdb.Buffer.{free_disposer, length_loop, buffer_data, buffer_free}

-- It stands by itself, and one reference to it is held.
pub record Single (h : Heap) (p : Ptr) : Type 0 where
  pub buffer : Buffer
  pub there : h.cell p ≡ some buffer
  pub some_address : p ≢ null
  pub orig : buffer.orig ≡ null
  pub next : buffer.next ≡ null
  pub refcnt : buffer.refcnt ≡ 1

module _ (fuel : ℕ) (h : Heap) (p : Ptr) (a : Single h p) where
  pub length-single :
      a.buffer.len < 4294967296 → length_loop (suc (suc fuel)) p 0 h ≡ answered a.buffer.len h
  unfolding length_loop load
  length-single short = ground (arith, a.there, a.orig, a.next, a.some_address, short)

  pub data-single : buffer_data (suc fuel) p h ≡ answered (some a.buffer.block) h
  unfolding buffer_data load
  data-single = ground (arith, a.there, a.orig, a.next, a.some_address)

  abbrev pub after_dispose : Option ℕ → Heap → Heap
  after_dispose none k = k
  after_dispose (some d) k = record k { disposed = (d, a.buffer.block.address) ∷ k.disposed }

  abbrev pub after_free : Heap
  after_free = put_cell p none (
      after_dispose a.buffer.disposer
        (put_cell p (some (record a.buffer { refcnt = a.buffer.refcnt - 1 })) h))

  pub free-single : buffer_free (suc fuel) p h ≡ answered tt after_free
  unfolding buffer_free load
  free-single = ground (arith, a.there, a.orig, a.next, a.some_address, a.refcnt)

  pub gone-single : after_free.cell p ≡ none
  unfolding put_cell
  gone-single = ground arith

  -- Other buffers and the allocator are left alone.
  pub other-free : (q : Ptr) → q ≢ p → after_free.cell q ≡ h.cell q
  unfolding put_cell
  other-free q ne = ground arith

  pub allocator-free : (after_free.fresh ≡ h.fresh) × (after_free.mallocs ≡ h.mallocs)
  unfolding put_cell
  allocator-free = ground arith

-- A buffer of new bytes, and the heap with it.
abbrev pub buffer_with : List ℕ → Heap → Buffer
buffer_with xs h = record {
  block = record { address = h.fresh; bytes = xs };
  len = length xs;
  disposer = free_disposer;
  orig = null;
  next = null;
  refcnt = 1;
}

abbrev pub heap_with : List ℕ → Heap → Heap
heap_with xs h =
    put_cell (h.fresh + 1) (some (buffer_with xs h)) (record h { fresh = h.fresh + 1 + 1 })

-- The new buffer, and an older one in the heap with it.
pub fresh_buffer : (xs : List ℕ) (h : Heap) → Single (heap_with xs h) (h.fresh + 1)
unfolding put_cell
fresh_buffer xs h = record {
  buffer = buffer_with xs h;
  there = ground arith;
  some_address = λ e. omega (arith, e);
  orig = refl;
  next = refl;
  refcnt = refl;
}

pub old_buffer :
    (xs : List ℕ) (h : Heap) (p : Ptr) → p ≢ h.fresh + 1 → Single h p → Single (heap_with xs h) p
unfolding put_cell
old_buffer xs h p apart a = record {
  buffer = a.buffer;
  there = ground (arith, a.there, apart);
  some_address = a.some_address;
  orig = a.orig;
  next = a.next;
  refcnt = a.refcnt;
}

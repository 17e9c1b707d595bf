-- ===== src/Buffer/Append.antt =====
-- `logdb_buffer_append` of one buffer to a list, when memory is there: the copy and the link to it.
use logdb.Prelude.{ℕ, ◌+◌, ◌<◌, ◌≡◌, ◌≢◌, Bool, none, some, [], arith}
use logdb.Heap.{Ptr, null, Buffer, Heap, answered, put_cell, load, malloc}
use logdb.Buffer.{
  length_loop, last_loop, buffer_append, buffer_copy, buffer_new_direct, buffer_retain,
}

-- The copy of a buffer: it has the data of the original and refers to it.
abbrev pub copy_of : Ptr → Buffer → Buffer
copy_of p b = record {
  block = b.block;
  len = b.len;
  disposer = none;
  orig = p;
  next = null;
  refcnt = 1;
}

-- The heap with a copy at the next address, and one more reference to the original.
abbrev pub heap_copied : Ptr → Buffer → Heap → Heap
heap_copied p b h = put_cell h.fresh (some (copy_of p b)) (
    put_cell p (some (record b { refcnt = b.refcnt + 1 })) (
      put_cell h.fresh (some (record (copy_of p b) { orig = null }))
        (record h { fresh = h.fresh + 1 })))

pub buffer_copy-quiet :
    (p : Ptr) (b : Buffer) (h : Heap)
    → h.cell p ≡ some b
    → p ≢ null
    → p < h.fresh
    → h.mallocs ≡ []
    → buffer_copy p h ≡ answered h.fresh (heap_copied p b h)
unfolding buffer_copy load buffer_new_direct buffer_retain malloc put_cell
buffer_copy-quiet p b h there some_address old memory = ground (arith, there, memory)

-- A list of buffers that a buffer is appended to: its last one, and the two lengths.
pub record CanAppend (fuel : ℕ) (p q last : Ptr) (lb b : Buffer) (h : Heap) : Type 0 where
  pub len1 : ℕ
  pub length1 : length_loop fuel p 0 h ≡ answered len1 h
  pub length2 : length_loop fuel q 0 h ≡ answered b.len h
  pub short : len1 + b.len < 4294967296
  pub ends : last_loop fuel q p h ≡ answered last h
  pub there : h.cell last ≡ some lb
  pub some_address : last ≢ null
  pub other : last ≢ q
  pub old : last < h.fresh
  pub start : p ≢ null
  pub apart : p ≢ q

-- The last buffer is linked to the copy.
abbrev pub heap_linked : Ptr → Buffer → Ptr → Buffer → Heap → Heap
heap_linked last lb q b h = put_cell last (some (record lb { next = h.fresh })) (heap_copied q b h)

pub buffer_append-quiet :
    (debug : Bool) (fuel : ℕ) (p q last : Ptr) (lb b : Buffer) (h : Heap)
    → CanAppend fuel p q last lb b h
    → h.cell q ≡ some b
    → q ≢ null
    → q < h.fresh
    → h.mallocs ≡ []
    → buffer_append debug fuel p q h ≡ answered p (heap_linked last lb q b h)
unfolding buffer_append load put_cell
buffer_append-quiet debug fuel p q last lb b h can there some_address old memory = ground (
  arith,
  can.length1,
  can.length2,
  can.short,
  can.ends,
  can.there,
  can.some_address,
  can.other,
  can.old,
  can.start,
  can.apart,
  buffer_copy-quiet q b h there some_address old memory,
)

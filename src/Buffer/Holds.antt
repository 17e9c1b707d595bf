-- ===== src/Buffer/Holds.antt =====
-- The bytes that a buffer stands for, and the length that the code computes of them.
use logdb.Prelude.{
  ℕ, suc, ◌+◌, ◌<◌, ◌≡◌, ◌≢◌, refl, ap, false, some, List, [], ◌++◌, ◌==◌, arith, u32, length,
  length-append,
}
use logdb.Heap.{Ptr, null, Buffer, Heap, answered, load}
use logdb.Buffer.{length_loop}

-- From `p` the links `orig` and `next` lead to these bytes, in at most `depth` steps.
pub data Holds (h : Heap) : ℕ → Ptr → List ℕ → Type 0 where
  nil : {depth : ℕ} → Holds h (suc depth) null []
  own :
      {depth : ℕ} {p : Ptr} {b : Buffer} {more : List ℕ}
      → p ≢ null
      → h.cell p ≡ some b
      → b.orig ≡ null
      → b.len ≡ length b.block.bytes
      → Holds h depth b.next more
      → Holds h (suc depth) p (b.block.bytes ++ more)
  shared :
      {depth : ℕ} {p : Ptr} {b : Buffer} {bytes more : List ℕ}
      → p ≢ null
      → h.cell p ≡ some b
      → b.orig ≢ null
      → Holds h depth b.orig bytes
      → Holds h depth b.next more
      → Holds h (suc depth) p (bytes ++ more)

pub not_null : (p : Ptr) → p ≢ null → (p == null) ≡ false
not_null p h = ground arith

pub load-cell :
    (h : Heap) (p : Ptr) {b : Buffer} → p ≢ null → h.cell p ≡ some b → load p h ≡ answered b h
unfolding load
load-cell h p ne e = ground arith

-- `logdb_buffer_length` of a list of buffers returns, given as many steps as the links need: the
-- number of the bytes that the list stands for, added to the start, modulo 2^32. The heap stays.
pub length_loop-Holds :
    {h : Heap} {depth : ℕ} {p : Ptr} {bytes : List ℕ} (acc : ℕ)
    → Holds h depth p bytes
    → acc < 4294967296
    → length_loop depth p acc h ≡ answered (u32 (acc + length bytes)) h
unfolding length_loop
length_loop-Holds {h} acc nil small = ap (λ n. answered n h) (omega arith)
length_loop-Holds {h} acc (own {depth} {p} {b} {more} ne e none_shared len rest) small =
    rw (not_null p ne, load-cell h p ne e)
      (ground (arith, length_loop-Holds (u32 (acc + b.len)) rest, length-append b.block.bytes more))
length_loop-Holds {h} acc (shared {depth} {p} {b} {bytes} {more} ne e from first rest) small =
    rw
      (
        not_null p ne,
        load-cell h p ne e,
        not_null b.orig from,
        length_loop-Holds 0 first (omega arith),
      )
      (ground (
        arith,
        length_loop-Holds (u32 (acc + u32 (0 + length bytes))) rest,
        length-append bytes more,
      ))

pub Holds-null :
    {h : Heap} {depth : ℕ} {p : Ptr} {bytes : List ℕ}
    → Holds h depth p bytes
    → p ≡ null
    → bytes ≡ []
Holds-null nil e = refl
Holds-null (own ne _ _ _ _) e = absurd (ne e)
Holds-null (shared ne _ _ _ _) e = absurd (ne e)

-- ===== src/Buffer/Release.antt =====
-- The end of a list that starts with a buffer of its own and goes on with copies of others.
use logdb.Prelude.{
  ℕ, suc, ◌-◌, ◌<◌, ◌≡◌, ◌≢◌, refl, ap, ◌⊎◌, inl, inr, none, some, List, ◌∷◌, arith, ◌==◌,
}
use logdb.Heap.{Ptr, null, Buffer, Heap, answered, put_cell, load}
use logdb.Buffer.{buffer_free}
use logdb.Buffer.Single.{buffer_with}
use logdb.Buffer.Holds.{not_null, load-cell}
use logdb.Buffer.Append.{copy_of}

free-shared :
    (fuel : ℕ) (q : Ptr) (b : Buffer) (h : Heap)
    → h.cell q ≡ some b
    → q ≢ null
    → 1 < b.refcnt
    → buffer_free (suc fuel) q h
      ≡ answered tt (put_cell q (some (record b { refcnt = b.refcnt - 1 })) h)
unfolding buffer_free load
free-shared fuel q b h there some_q shared_q = ground (arith, there, some_q, shared_q)

-- The heap in which a copy is about to go, without and with the release of its original.
abbrev pub released : Ptr → Ptr → Ptr → Buffer → Heap → Heap
released c next q b h = put_cell c (some (record (copy_of q b) { next = next; refcnt = 0 })) h

abbrev pub behind_copy : Ptr → Ptr → Ptr → Buffer → Buffer → Heap → Heap
behind_copy c next q b qb h =
    put_cell q (some (record qb { refcnt = qb.refcnt - 1 })) (released c next q b h)

-- A copy is freed whose original others hold too, with the list behind it.
module _ (fuel : ℕ) (c next q : Ptr) (b qb : Buffer) (h : Heap) (some_c : c ≢ null)
    (some_q : q ≢ null) (apart : c ≢ q)
    (there : h.cell c ≡ some (record (copy_of q b) { next = next })) (original : h.cell q ≡ some qb)
    (shared_q : 1 < qb.refcnt) where
  still_there : (released c next q b h).cell q ≡ some qb
  unfolding put_cell
  still_there = ground (arith, original, apart)

  -- One step, whatever the rest is.
  free-copy :
      (steps : ℕ) (after : Heap)
      → buffer_free steps q (released c next q b h) ≡ answered tt (behind_copy c next q b qb h)
      → (next ≡ null) × (after ≡ behind_copy c next q b qb h)
        ⊎ (next ≢ null) × (buffer_free steps next (behind_copy c next q b qb h) ≡ answered tt after)
      → buffer_free (suc steps) c h ≡ answered tt (put_cell c none after)
  unfolding buffer_free
  free-copy steps after original_freed (inl (e, same)) =
      rw
        (
          not_null c some_c,
          load-cell h c some_c there,
          not_null q some_q,
          original_freed,
          ap (λ (p : Ptr). p == null) e,
          same,
        )
        refl
  free-copy steps after original_freed (inr (more, rest)) =
      rw
        (
          not_null c some_c,
          load-cell h c some_c there,
          not_null q some_q,
          original_freed,
          not_null next more,
          rest,
        )
        refl

  pub free_step :
      (after : Heap)
      → (next ≡ null) × (after ≡ behind_copy c next q b qb h)
        ⊎ (next ≢ null)
          × (buffer_free (suc fuel) next (behind_copy c next q b qb h) ≡ answered tt after)
      → buffer_free (suc (suc fuel)) c h ≡ answered tt (put_cell c none after)
  free_step after =
      free-copy (suc fuel) after
        (free-shared fuel q qb (released c next q b h) still_there some_q shared_q)

-- The buffer with the header is freed, with the list behind it.
pub free-header :
    (fuel : ℕ) (p next : Ptr) (xs : List ℕ) (from h after : Heap)
    → p ≢ null
    → next ≢ null
    → h.cell p ≡ some (record (buffer_with xs from) { next = next })
    → buffer_free fuel next
        (record (put_cell p (some (record (buffer_with xs from) { next = next; refcnt = 0 })) h) {
          disposed = (0, from.fresh) ∷ h.disposed;
        })
      ≡ answered tt after
    → buffer_free (suc fuel) p h ≡ answered tt (put_cell p none after)
unfolding buffer_free put_cell
free-header fuel p next xs from h after some_p some_next there rest =
    rw (not_null p some_p, load-cell h p some_p there, not_null next some_next, rest) refl

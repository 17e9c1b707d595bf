-- ===== src/Txn/Put/Freed.antt =====
-- The heap that `logdb_put` leaves.
use logdb.Prelude.{
  ℕ, suc, ◌+◌, ◌-◌, ◌≤◌, ◌<◌, ◌≡◌, refl, inl, inr, Bool, none, some, [], ◌∷◌, ◌++◌, arith,
}
use logdb.Heap.{Ptr, null, Buffer, Heap, answered, put_cell}
use logdb.Buffer.{buffer_free}
use logdb.Log.Layout.{encode32}
use logdb.Buffer.Release.{behind_copy, free_step, free-header}
use logdb.Txn.Put.{Given, head, header_buffer, h3, cells}

module _ (debug : Bool) (fuel : ℕ) (key value : Ptr) (h : Heap) (g : Given key value h)
    (short : g.key_there.buffer.len + g.value_there.buffer.len < 65536) where
  abbrev pub c1 : Ptr
  c1 = h.fresh + 1 + 1 + 1

  abbrev pub c2 : Ptr
  c2 = h.fresh + 1 + 1 + 1 + 1

  abbrev pub kb2 : Buffer
  kb2 = record g.key_there.buffer { refcnt = g.key_there.buffer.refcnt + 1 }

  abbrev pub vb2 : Buffer
  vb2 = record g.value_there.buffer { refcnt = g.value_there.buffer.refcnt + 1 }

  abbrev pub h4 : Heap
  h4 =
      record (put_cell (head debug fuel key value h g)
        (some (record (header_buffer debug fuel key value h g) { next = c1; refcnt = 0 }))
        (h3 debug fuel key value h g)) { disposed = (0, h.fresh) ∷ h.disposed }

  abbrev pub h5 : Heap
  h5 = behind_copy c1 c2 key g.key_there.buffer kb2 h4

  abbrev pub h6 : Heap
  h6 = put_cell c2 none (behind_copy c2 null value g.value_there.buffer vb2 h5)

  -- The heap behind `logdb_put`.
  abbrev pub freed : Heap
  freed = put_cell (h.fresh + 1) none (put_cell c1 none h6)

  pub free-all :
      buffer_free
        (suc (suc (suc (suc (suc fuel)))))
        (head debug fuel key value h g)
        (h3 debug fuel key value h g)
      ≡ answered tt freed
  unfolding put_cell
  free-all =
      free-header (suc (suc (suc (suc fuel)))) (h.fresh + 1) c1 (encode32 kb.len ++ encode32 vb.len)
        h (h3 debug fuel key value h g) (put_cell c1 none h6) (λ e. omega (arith, e))
        (λ e. omega (arith, e)) (cells debug fuel key value h g short).0
        (free_step (suc (suc fuel)) c1 c2 key kb kb2 h4 (λ e. omega (arith, e))
          g.key_there.some_address (λ e. omega (arith, e, g.old_key))
          (ground (arith, (cells debug fuel key value h g short).1))
          (ground (arith, (cells debug fuel key value h g short).3, g.old_key))
          (omega (arith, g.key_there.refcnt)) h6
          (inr (
            λ e. omega (arith, e),
            free_step (suc fuel) c2 null value vb vb2 h5 (λ e. omega (arith, e))
                g.value_there.some_address (λ e. omega (arith, e, g.old_value))
                (ground (arith, (cells debug fuel key value h g short).2, g.old_key))
                (ground (arith, (cells debug fuel key value h g short).4, g.old_value, g.apart))
                (omega (arith, g.value_there.refcnt)) (behind_copy c2 null value vb vb2 h5)
                (inl (refl, refl)),
          )))
    where
      kb : Buffer
      kb = g.key_there.buffer

      vb : Buffer
      vb = g.value_there.buffer

  -- What was in the heap is as it was, and what was new is gone.
  pub freed-kept :
      ((p : Ptr) → p < h.fresh → freed.cell p ≡ h.cell p)
      × (freed.cell (h.fresh + 1) ≡ none)
      × (freed.cell c1 ≡ none)
      × (freed.cell c2 ≡ none)
  unfolding put_cell
  freed-kept = (
    λ p old. ground (
      arith,
      old,
      g.key_there.there,
      g.value_there.there,
      same_buffer g.key_there.buffer,
      same_buffer g.value_there.buffer,
    ),
    ground arith,
    ground arith,
    ground arith,
  )
    where
      same_buffer : (b : Buffer) → record b { refcnt = b.refcnt + 1 - 1 } ≡ b
      same_buffer b = λ i. record b { refcnt = same i }
        where
          same : b.refcnt + 1 - 1 ≡ b.refcnt
          same = omega arith

  -- The addresses that the call took are not given out again, and `malloc` works on.
  pub freed-allocator : (h.fresh ≤ freed.fresh) × (freed.mallocs ≡ [])
  unfolding put_cell
  freed-allocator = (omega arith, g.memory)

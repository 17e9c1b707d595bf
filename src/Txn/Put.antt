-- ===== src/Txn/Put.antt =====
-- `logdb_put` outside of a transaction, of a key and a value that stand in buffers of their own.
pub mod Ends
pub mod Freed
pub mod Ledger
pub mod Refines
use logdb.Prelude.{
  ℕ, zero, suc, ◌+◌, ◌-◌, ◌≤◌, ◌<◌, ◌≡◌, ◌≢◌, refl, sym, ap, subst, ◌∙◌, ◌⊎◌, inl, inr, Bool, true,
  false, not, ◌&&◌, ◌||◌, Option, none, some, List, [], ◌∷◌, ◌++◌, append-nil, arith, length, ltb,
  ◌==◌, if◌then◌else◌, u32,
}
use logdb.Heap.{Ptr, null, Block, Buffer, Heap, Result, answered, put_cell, load, store, malloc}
use logdb.Buffer.{
  free_disposer, buffer_free, buffer_new_copy, length_loop, last_loop, buffer_append, buffer_copy,
  buffer_new_direct, buffer_retain,
}
use logdb.Buffer.Single.{Single, buffer_with, heap_with, length-single}
use logdb.Log.Layout.{encode32}
use logdb.Buffer.Holds.{not_null, load-cell, Holds, nil, own, shared}
use logdb.Txn.{Session, Setting, put, txn_new, txn_commit_implicit}
use logdb.Iter.Records.{Rec, encode_record}
use logdb.Buffer.Append.{copy_of, heap_copied, heap_linked, CanAppend, buffer_append-quiet}

-- A key and a value, each in a buffer of its own, that `logdb_put` is called with.
pub record Given (key value : Ptr) (h : Heap) : Type 0 where
  pub key_there : Single h key
  pub value_there : Single h value
  pub key_len : key_there.buffer.len ≡ length key_there.buffer.block.bytes
  pub value_len : value_there.buffer.len ≡ length value_there.buffer.block.bytes
  pub apart : key ≢ value
  pub old_key : key < h.fresh
  pub old_value : value < h.fresh
  pub memory : h.mallocs ≡ []

module _ (debug : Bool) (fuel : ℕ) (key value : Ptr) (h : Heap) (g : Given key value h) where
  abbrev pub kb : Buffer
  kb = g.key_there.buffer

  abbrev pub vb : Buffer
  vb = g.value_there.buffer

  -- The record that is written.
  abbrev pub given_record : Rec
  given_record = (kb.block.bytes, vb.block.bytes)

  abbrev pub head : Ptr
  head = h.fresh + 1

  abbrev pub header_buffer : Buffer
  header_buffer = buffer_with (encode32 kb.len ++ encode32 vb.len) h

  -- The heap with the header and the transaction, with the key, and with the value.
  abbrev pub h1 : Heap
  h1 = record (heap_with (encode32 kb.len ++ encode32 vb.len) h) { fresh = h.fresh + 1 + 1 + 1 }

  abbrev pub h2 : Heap
  h2 = heap_linked head header_buffer key kb h1

  abbrev pub h3 : Heap
  h3 = heap_linked (h.fresh + 1 + 1 + 1) (copy_of key kb) value vb h2

  header_new :
      buffer_new_copy (encode32 kb.len ++ encode32 vb.len) h
      ≡ answered head (heap_with (encode32 kb.len ++ encode32 vb.len) h)
  unfolding buffer_new_copy malloc buffer_new_direct
  header_new = ground (arith, g.memory, g.key_there.some_address, g.old_key)

  module _ (short : kb.len + vb.len < 65536) where
    key_appended :
        buffer_append debug (suc (suc (suc (suc (suc fuel))))) head key h1 ≡ answered head h2
    unfolding length_loop last_loop load put_cell
    key_appended =
        buffer_append-quiet debug (suc (suc (suc (suc (suc fuel))))) head key head header_buffer kb
          h1
          (record {
            len1 = 8;
            length1 = ground arith;
            length2 = ground (
              arith, g.key_there.there, g.key_there.orig, g.key_there.next,
              g.key_there.some_address, g.old_key, short,
            );
            short = omega (arith, short);
            ends = ground arith;
            there = ground arith;
            some_address = λ e. omega (arith, e);
            other = λ e. omega (arith, e, g.old_key);
            old = omega arith;
            start = λ e. omega (arith, e);
            apart = λ e. omega (arith, e, g.old_key);
          })
          (ground (arith, g.key_there.there, g.old_key)) g.key_there.some_address
          (omega (arith, g.old_key)) g.memory

    value_appended :
        buffer_append debug (suc (suc (suc (suc (suc fuel))))) head value h2 ≡ answered head h3
    unfolding length_loop last_loop load put_cell
    value_appended =
        buffer_append-quiet debug (suc (suc (suc (suc (suc fuel))))) head value
          (h.fresh + 1 + 1 + 1) (copy_of key kb) vb h2
          (record {
            len1 = 8 + kb.len;
            length1 = ground (
              arith, g.key_there.there, g.key_there.orig, g.key_there.next,
              g.key_there.some_address, g.old_key, short,
            );
            length2 = ground (
              arith, g.value_there.there, g.value_there.orig, g.value_there.next,
              g.value_there.some_address, g.old_value, g.apart, short,
            );
            short = omega (arith, short);
            ends = ground (arith, g.old_key, g.old_value, g.key_there.some_address);
            there = ground (arith, g.old_key);
            some_address = λ e. omega (arith, e);
            other = λ e. omega (arith, e, g.old_value);
            old = omega arith;
            start = λ e. omega (arith, e);
            apart = λ e. omega (arith, e, g.old_value);
          })
          (ground (arith, g.value_there.there, g.old_value, g.apart)) g.value_there.some_address
          (omega (arith, g.old_value)) g.memory

    -- The buffers as they stand in the last heap.
    pub cells :
        (h3.cell head ≡ some (record header_buffer { next = h.fresh + 1 + 1 + 1 }))
        × (h3.cell (h.fresh + 1 + 1 + 1)
            ≡ some (record (copy_of key kb) { next = h.fresh + 1 + 1 + 1 + 1 }))
        × (h3.cell (h.fresh + 1 + 1 + 1 + 1) ≡ some (copy_of value vb))
        × (h3.cell key ≡ some (record kb { refcnt = kb.refcnt + 1 }))
        × (h3.cell value ≡ some (record vb { refcnt = vb.refcnt + 1 }))
    unfolding put_cell
    cells = (
      ground (arith, g.old_key, g.old_value),
      ground (arith, g.old_key, g.old_value),
      ground (arith, g.old_key, g.old_value),
      ground (arith, g.old_key, g.old_value, g.apart),
      ground (arith, g.old_key, g.old_value, g.apart),
    )

    -- They hold the record.
    pub h3-Holds : Holds h3 (suc (suc (suc (suc (suc fuel))))) head (encode_record given_record)
    h3-Holds = subst (Holds h3 (suc (suc (suc (suc (suc fuel))))) head) same (
        own (λ e. omega (arith, e)) (cells.0) refl refl
          (shared (λ e. omega (arith, e)) (cells.1) g.key_there.some_address
            (own g.key_there.some_address cells.3 g.key_there.orig g.key_len
              (at_null g.key_there.next))
            (shared (λ e. omega (arith, e)) (cells.2) g.value_there.some_address
              (own g.value_there.some_address cells.4 g.value_there.orig g.value_len
                (at_null g.value_there.next))
              nil)))
      where
        at_null : {p : Ptr} {depth : ℕ} → p ≡ null → Holds h3 (suc depth) p []
        at_null {p} {depth} e = subst (λ q. Holds h3 (suc depth) q []) (sym e) nil

        same :
            (encode32 kb.len ++ encode32 vb.len)
              ++ ((kb.block.bytes ++ []) ++ ((vb.block.bytes ++ []) ++ []))
            ≡ encode_record given_record
        same = λ i.
            (encode32 (g.key_len i) ++ encode32 (g.value_len i))
            ++ (append-nil kb.block.bytes i
                ++ (append-nil (vb.block.bytes ++ []) ∙ append-nil vb.block.bytes) i)

    begun : txn_new (heap_with (encode32 kb.len ++ encode32 vb.len) h) ≡ answered true h1
    unfolding txn_new malloc put_cell
    begun = ground (arith, g.memory)

    pub put-commits :
        (set : Setting) (s : Session)
        → set.debug ≡ debug
        → set.fuel ≡ suc (suc (suc (suc (suc fuel))))
        → put set key value s h ≡ txn_commit_implicit set head s h3
    unfolding put
    put-commits set s e f =
        rw
          (
            put,
            not_null key g.key_there.some_address,
            not_null value g.value_there.some_address,
            neither set.debug,
            measured_key,
            measured_value,
            header_new,
            not_null head (λ e. omega (arith, e)),
            begun,
            first,
            second,
          )
          refl
      where
        neither : (b : Bool) → (b && (false || false)) ≡ false
        neither b = ground arith

        measured_key : length_loop set.fuel key 0 h ≡ answered kb.len h
        measured_key =
            rw f (length-single (suc (suc (suc fuel))) h key g.key_there (omega (arith, short)))

        measured_value : length_loop set.fuel value 0 h ≡ answered vb.len h
        measured_value =
            rw f (length-single (suc (suc (suc fuel))) h value g.value_there (omega (arith, short)))

        first : buffer_append set.debug set.fuel head key h1 ≡ answered head h2
        first = rw (e, f) key_appended

        second : buffer_append set.debug set.fuel head value h2 ≡ answered head h3
        second = rw (e, f) value_appended

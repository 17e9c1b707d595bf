-- ===== src/Buffer.antt =====
-- src/logdb_buffer.c. The walks over the links `orig` and `next` are given fuel, one unit for each
-- link.
pub mod Append
pub mod Holds
pub mod Release
pub mod Single
use logdb.Prelude.{
  ℕ, zero, suc, ◌+◌, ◌-◌, Bool, true, false, ◌||◌, ◌&&◌, Option, none, some, List, [], ◌∷◌, ◌++◌,
  ◌==◌, ltb, if◌then◌else◌, u32, length, take,
}
use logdb.Heap.{
  Ptr, null, Block, Buffer, Heap, Result, answered, crashed, unfinished, Command, pure, ◌>>=◌, ◌>>◌,
  store, load, malloc, dispose,
}

-- `&free`
abbrev pub free_disposer : Option ℕ
free_disposer = some 0

-- `logdb_buffer_new_direct`
unfoldable pub buffer_new_direct : Block → ℕ → Option ℕ → Command Ptr
unfolding malloc
buffer_new_direct block length disposer = do
  buf ← malloc
  if buf == null then pure null else do
    store buf (
        some (record {
          block = block;
          len = length;
          disposer = disposer;
          orig = null;
          next = null;
          refcnt = 1;
        }))
    pure buf

-- `logdb_buffer_new_copy`, of bytes that the caller keeps
unfoldable pub buffer_new_copy : List ℕ → Command Ptr
unfolding malloc buffer_new_direct
buffer_new_copy bytes = do
  copy ← malloc
  if copy == null then pure null else do
    result ←
        buffer_new_direct (record { address = copy; bytes = bytes }) (length bytes) free_disposer
    if result == null then dispose 0 copy >> pure null else pure result

-- `logdb_buffer_retain`
unfoldable pub buffer_retain : Ptr → Command (Unit {0})
unfolding load
buffer_retain p = do b ← load p; store p (some (record b { refcnt = b.refcnt + 1 }))

-- `logdb_buffer_copy`
unfoldable pub buffer_copy : Ptr → Command Ptr
unfolding load buffer_new_direct buffer_retain
buffer_copy p = do
  b ← load p
  result ← buffer_new_direct b.block b.len none
  if result == null then pure null else do
    buffer_retain p
    r ← load result
    store result (some (record r { orig = p }))
    pure result

-- The loop of `logdb_buffer_length`; `len` is an `unsigned int`.
unfoldable pub length_loop : ℕ → Ptr → ℕ → Command ℕ
length_loop zero p len = λ _. unfinished
length_loop (suc fuel) p len = if p == null then pure len else do
  b ← load p
  l ← if b.orig == null then pure b.len else length_loop fuel b.orig 0
  length_loop fuel b.next (u32 (len + l))

abbrev pub buffer_length : ℕ → Ptr → Command ℕ
buffer_length fuel p = length_loop fuel p 0

-- `while (buf->next)`: the last buffer of the list, or `NULL` if `buffer2` is met.
unfoldable pub last_loop : ℕ → Ptr → Ptr → Command Ptr
last_loop zero buffer2 p = λ _. unfinished
last_loop (suc fuel) buffer2 p = do
  b ← load p
  if b.next == null
      then pure p
      else (if b.next == buffer2 then pure null else last_loop fuel buffer2 b.next)

-- `logdb_buffer_append`; its first test is there in a debug build only.
unfoldable pub buffer_append : Bool → ℕ → Ptr → Ptr → Command Ptr
buffer_append debug fuel buffer1 buffer2 =
    if debug && (buffer2 == null || buffer1 == buffer2)
    then pure null
    else if buffer1 == null
    then pure buffer2
    else do
      len1 ← buffer_length fuel buffer1
      len2 ← buffer_length fuel buffer2
      if ltb (4294967295 - len1) len2 then pure null else do
        last ← last_loop fuel buffer2 buffer1
        if last == null then pure null else do
          copy ← buffer_copy buffer2
          b ← load last
          store last (some (record b { next = copy }))
          pure buffer1

-- `logdb_buffer_free`
unfoldable pub buffer_free : ℕ → Ptr → Command (Unit {0})
buffer_free zero p = λ _. unfinished
buffer_free (suc fuel) p = if p == null then pure tt else do
  b ← load p
  store p (some (record b { refcnt = b.refcnt - 1 }))
  if ltb 1 b.refcnt then pure tt else do
    elim b.disposer [ none ↦ pure tt | some d ↦ dispose d b.block.address ]
    if b.orig == null then pure tt else buffer_free fuel b.orig
    if b.next == null then pure tt else buffer_free fuel b.next
    store p none

-- The end of `logdb_buffer_data`: the old data is disposed, and the buffer is alone with the new.
unfoldable pub replace_data : Ptr → ℕ → Block → Command (Option Block)
unfolding load
replace_data p newlen block = do
  b ← load p
  elim b.disposer [ none ↦ pure tt | some d ↦ dispose d b.block.address ]
  store p (some (record b { block = block; len = newlen; next = null; disposer = free_disposer }))
  pure (some block)

-- `logdb_buffer_data`, and the loop that copies the list into one block. `none` is `NULL`.
unfoldable mutual
  unfolding load malloc length_loop

  pub buffer_data : ℕ → Ptr → Command (Option Block)
  buffer_data zero p = λ _. unfinished
  buffer_data (suc fuel) p = do
    b ← load p
    if b.orig == null
        then (if b.next == null then pure (some b.block) else do
          newlen ← buffer_length fuel p
          newdata ← malloc
          if newdata == null then pure none else do
            gathered ← gather fuel p
            elim gathered [
              | none ↦ dispose 0 newdata >> pure none
              | some bytes ↦ replace_data p newlen (record { address = newdata; bytes = bytes })
            ])
        else buffer_data fuel b.orig

  pub gather : ℕ → Ptr → Command (Option (List ℕ))
  gather zero p = λ _. unfinished
  gather (suc fuel) p = if p == null then pure (some []) else do
    b ← load p
    piece ← if b.orig == null then pure (some (take b.len b.block.bytes)) else (do
      len ← buffer_length fuel b.orig
      block ← buffer_data fuel b.orig
      pure (elim block [ none ↦ none | some d ↦ some (take len d.bytes) ]))
    elim piece [
      | none ↦ pure none
      | some bytes ↦ do
        rest ← gather fuel b.next
        pure (elim rest [ none ↦ none | some more ↦ some (bytes ++ more) ])
    ]

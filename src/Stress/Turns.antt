-- ===== src/Stress/Turns.antt =====
-- What a turn of one thread, or of one in a list of threads, makes of the database and the heap.
use mathlib.Core.List.{Perm}
use logdb.Prelude.{ℕ, zero, suc, ◌+◌, ◌-◌, ◌*◌, ◌≤◌, ◌<◌, ◌≡◌, ◌≢◌, List, [], ◌∷◌, ◌++◌, length}
use logdb.Heap.{Ptr, Block, Heap, Command, answered}
use logdb.Log.Layout.{section_size}
use logdb.Iter.Records.{Rec, encode_records}
use logdb.Iter.Sections.{records_from}
use logdb.Txn.Put.Refines.{Represents}
use logdb.Stress.{Worker, starting, working, ended, Shared}
use logdb.Stress.Iteration.{IsReady, record_of}

-- The records of the first rounds with this key, the last one first.
abbrev pub rounds_of : Block → ℕ → List Rec
rounds_of key zero = []
rounds_of key (suc i) = record_of key i ∷ rounds_of key i

-- A key is a string, and its record fits a section.
abbrev pub IsKey : Block → Type 0
IsKey key = (0 < length key.bytes) × (12 + length key.bytes ≤ section_size)

-- The records that a thread has put, of `count` in all.
abbrev pub written : ℕ → Worker → List Rec
written count (starting key) = []
written count (working t) = rounds_of t.key t.i
written count (ended key) = rounds_of key count

-- The turns until it has ended.
abbrev pub left_of : ℕ → Worker → ℕ
left_of count (starting key) = count + 2
left_of count (working t) = (count - t.i) + 1
left_of count (ended key) = 0

abbrev pub IsAt : ℕ → Heap → Worker → Type 0
IsAt count h (starting key) = IsKey key
IsAt count h (working t) = IsReady h t × IsKey t.key × (t.i ≤ count)
IsAt count h (ended key) = IsKey key

-- Its key is not in this buffer.
abbrev pub Misses : Ptr → Worker → Type 0
Misses p (starting key) = Unit {0}
Misses p (working t) = t.keybuf ≢ p
Misses p (ended key) = Unit {0}

abbrev pub key_of : Worker → Block
key_of (starting key) = key
key_of (working t) = t.key
key_of (ended key) = key

-- What is asked of threads, where `g` is one of them or a list.
pub record Threads (G : Type 0) : Type 1 where
  pub is_at : Heap → G → Type 0
  pub misses : Ptr → G → Type 0
  pub writes : G → List Rec
  pub goes : G → G → Type 0

-- Records in `sections` groups, each of which fills a section to the last byte.
pub data InGroups : List Rec → ℕ → Type 0 where
  no_group : InGroups [] 0
  one_group :
      (group lost : List Rec) (sections : ℕ)
      → length (encode_records group) ≡ section_size
      → InGroups lost sections
      → InGroups (group ++ lost) (sections + 1)

-- A turn returns and prints nothing. What it wrote is in the sections, up to groups that fill one
-- to the last byte; at most one buffer of the threads is not as it was.
pub record Turned {G : Type 0} (threads : Threads G) (n : ℕ) (rs : ℕ → List Rec) (g : G)
    (s : Shared) (h : Heap) (command : Command (G × Shared)) : Type 0 where
  pub next : G
  pub shared : Shared
  pub after : Heap
  pub returns : command h ≡ answered (next, shared) after
  pub silent : shared.printed ≡ s.printed
  pub count : ℕ
  pub counted : (n ≤ count) × (count ≤ suc n)
  pub sections : ℕ → List Rec
  pub represents : Represents count sections shared.conn
  pub wrote : List Rec
  pub lost : List Rec
  pub lost_sections : ℕ
  pub lost_size : length (encode_records lost) ≡ lost_sections * section_size
  pub in_groups : InGroups lost lost_sections
  pub same : Perm (records_from sections 0 count ++ lost) (wrote ++ records_from rs 0 n)
  pub wrote_it : Perm (threads.writes next) (wrote ++ threads.writes g)
  pub is_at : threads.is_at after next
  pub touched : Ptr
  pub kept : (q : Ptr) → q < h.fresh → q ≢ touched → after.cell q ≡ h.cell q
  pub own : (q : Ptr) → q < h.fresh → threads.misses q g → (q ≢ touched) × threads.misses q next
  pub memory : (h.fresh ≤ after.fresh) × (after.mallocs ≡ [])
  pub goes : threads.goes g next

abbrev pub one_thread : ℕ → Threads Worker
one_thread count = record {
  is_at = IsAt count;
  misses = Misses;
  writes = written count;
  goes = λ w w'. (left_of count w' ≡ left_of count w - 1) × (key_of w' ≡ key_of w);
}

-- ===== src/Heap.antt =====
-- The memory that holds the structures of src/logdb_buffer.h, and commands that use it. A freed
-- address is never given out again, so a use after `free` is a fault.
use logdb.Prelude.{
  ℕ, ◌+◌, Bool, true, Option, none, some, List, [], ◌∷◌, ◌==◌, if◌then◌else◌, false,
}

-- What a data pointer points to. The bytes stay as they are until the disposer is called.
pub record Block : Type 0 where
  pub address : ℕ
  pub bytes : List ℕ

-- An address of a buffer.
abbrev pub Ptr : Type 0
Ptr = ℕ

-- `logdb_buffer_t`; a disposer is named by a number, and 0 names `free`.
pub record Buffer : Type 0 where
  pub block : Block
  pub len : ℕ
  pub disposer : Option ℕ
  pub orig : Ptr
  pub next : Ptr
  pub refcnt : ℕ

pub record Heap : Type 0 where
  pub cell : Ptr → Option Buffer
  pub fresh : ℕ
  -- whether the coming calls of `malloc` succeed; after the end of the list they do
  pub mallocs : List Bool
  -- the disposers that were called, with the address of the data, the last one first
  pub disposed : List (ℕ × ℕ)

-- How a piece of code ends: in a crash, with the fuel used up, or with a value.
pub data Result (A : Type 0) : Type 0 where
  crashed unfinished : Result A
  answered : A → Heap → Result A

abbrev pub Command : Type 0 → Type 0
Command A = Heap → Result A

-- The rest of the code goes on from the value and the heap that the first part leaves.
abbrev pub then_run : {A B : Type 0} → (A → Command B) → Result A → Result B
then_run rest crashed = crashed
then_run rest unfinished = unfinished
then_run rest (answered value heap) = rest value heap

infixl 5 ◌>>=◌
abbrev pub ◌>>=◌ : {A B : Type 0} → Command A → (A → Command B) → Command B
first >>= rest = λ heap. then_run rest (first heap)

abbrev pub null : Ptr
null = 0

abbrev pub malloc_next : List Bool → Bool
malloc_next [] = true
malloc_next (b ∷ bs) = b

abbrev pub malloc_rest : List Bool → List Bool
malloc_rest [] = []
malloc_rest (b ∷ bs) = bs

-- A new address, or `NULL`.
unfoldable pub malloc : Command Ptr
malloc h =
    let h' = record h { mallocs = malloc_rest h.mallocs } in
    if malloc_next h.mallocs
    then answered h.fresh (record h' { fresh = h.fresh + 1 })
    else answered null h'

infixl 5 ◌>>◌
abbrev pub ◌>>◌ : {A B : Type 0} → Command A → Command B → Command B
first >> second = first >>= (λ done. second)

abbrev pub dispose : ℕ → ℕ → Command (Unit {0})
dispose disposer address h = answered tt (record h { disposed = (disposer, address) ∷ h.disposed })

abbrev pub pure : {A : Type 0} → A → Command A
pure value heap = answered value heap

-- Nothing is at `NULL`, and nothing at an address that holds no buffer.
unfoldable pub load : Ptr → Command Buffer
load address heap = elim (address == null) [
  | true ↦ crashed
  | false ↦ elim (heap.cell address) [ some found ↦ answered found heap | none ↦ crashed ]
]

unfoldable pub put_cell : Ptr → Option Buffer → Heap → Heap
put_cell address content heap = record heap {
  cell = λ other. if other == address then content else heap.cell other;
}

abbrev pub store : Ptr → Option Buffer → Command (Unit {0})
store address content heap = answered tt (put_cell address content heap)

-- ===== src/Stress/Creation.antt =====
-- The threads that `main` of stress/stress.c creates, and what it does before and behind them.
use logdb.Prelude.{
  ℕ, zero, suc, ◌+◌, ◌*◌, ◌≤◌, ◌<◌, ◌≡◌, refl, sym, ap, ◌∙◌, true, List, [], ◌∷◌, arith, length,
  length-append,
}
use logdb.Connection.{Conn}
use logdb.Heap.{Heap, Block, answered, malloc}
use logdb.Log.Layout.{section_size}
use logdb.Disk.{Disk}
use logdb.Database.Fresh.{empty_disk, made_disk, made_conn, logdb_open-fresh}
use logdb.Buffer.Holds.{not_null}
use logdb.Txn.{Setting}
use logdb.Stress.{Worker, starting, ended, run}
use logdb.Stress.Turns.{rounds_of}
use logdb.Stress.Ends.{all_starting, all_ended, all_rounds, AreKeys}
use logdb.Stress.Main.{Plan, made, create_threads, have_ended, close_last, stress_on, stress_main}

-- The keys of the threads, each in a block of its own.
abbrev pub keys_from : (ℕ → List ℕ) → ℕ → ℕ → ℕ → List Block
keys_from name address zero i = []
keys_from name address (suc m) i =
    record { address = address; bytes = name i } ∷ keys_from name (address + 1) m (suc i)

-- Every key is a string, and fits a section with its value.
pub AreKeys-keys_from :
    (name : ℕ → List ℕ) (address m i : ℕ)
    → ((k : ℕ) → (0 < length (name k)) × (12 + length (name k) ≤ section_size))
    → AreKeys (keys_from name address m i)
AreKeys-keys_from name address zero i good = tt
AreKeys-keys_from name address (suc m) i good =
    (good i, AreKeys-keys_from name (address + 1) m (suc i) good)

pub length-keys_from :
    (name : ℕ → List ℕ) (address m i : ℕ) → length (keys_from name address m i) ≡ m
length-keys_from name address zero i = refl
length-keys_from name address (suc m) i =
    ap (λ k. suc k) (length-keys_from name (address + 1) m (suc i))

length-rounds_of : (key : Block) (n : ℕ) → length (rounds_of key n) ≡ n
length-rounds_of key zero = refl
length-rounds_of key (suc n) = ap (λ k. suc k) (length-rounds_of key n)

pub length-all_rounds : (n : ℕ) (keys : List Block) → length (all_rounds n keys) ≡ length keys * n
length-all_rounds n [] = omega arith
length-all_rounds n (key ∷ keys) =
    length-append (rounds_of key n) (all_rounds n keys)
    ∙ grind (arith, length-rounds_of key n, length-all_rounds n keys)

pub malloc-fresh :
    (h : Heap) → h.mallocs ≡ [] → malloc h ≡ answered h.fresh (record h { fresh = h.fresh + 1 })
unfolding malloc
malloc-fresh h memory =
    ground (arith, memory)
    ∙ ap (λ l. answered h.fresh (record h { fresh = h.fresh + 1; mallocs = l })) (sym memory)

zero_more : (a : ℕ) → a ≡ a + 0
zero_more a = omega arith

suc_more : (a m : ℕ) → a + 1 + m ≡ a + suc m
suc_more a m = omega arith

-- All threads are created.
pub creates_all :
    (p : Plan) (m i : ℕ) (h : Heap)
    → ((k : ℕ) → p.creates k ≡ true)
    → h.mallocs ≡ []
    → 0 < h.fresh
    → create_threads p m i h
      ≡ answered
          (made (all_starting (keys_from p.name h.fresh m i)))
          (record h { fresh = h.fresh + m })
unfolding create_threads malloc
creates_all p zero i h creates memory some_address =
    λ k. answered (made []) (record h { fresh = zero_more h.fresh k })
creates_all p (suc m) i h creates memory some_address =
    rw
      (
        malloc-fresh h memory,
        not_null h.fresh (λ e. omega (arith, e, some_address)),
        creates i,
        creates_all p m (suc i) (record h { fresh = h.fresh + 1 }) creates memory (omega arith),
      )
      (λ k.
        answered
          (made (
            starting (record { address = h.fresh; bytes = p.name i })
            ∷ all_starting (keys_from p.name (h.fresh + 1) m (suc i))))
          (record h { fresh = suc_more h.fresh m k }))

pub ended-have_ended : (keys : List Block) → have_ended (all_ended keys) ≡ true
ended-have_ended [] = refl
ended-have_ended (key ∷ keys) = ended-have_ended keys

pub begins :
    (set : Setting) (p : Plan) (max_readers : ℕ) (h : Heap)
    → h.mallocs ≡ []
    → 0 < h.fresh
    → p.arguments ≡ 5
    → 0 < p.threads
    → 0 < p.count
    → stress_main set p (empty_disk max_readers) h
      ≡ stress_on set p
          (made_conn max_readers)
          (made_disk max_readers)
          (record h { fresh = h.fresh + 1 })
unfolding stress_main
begins set p max_readers h memory some_address arguments some_threads some_rounds = ground (
  arith,
  arguments,
  some_threads,
  some_rounds,
  malloc-fresh h memory,
  some_address,
  logdb_open-fresh max_readers,
)

pub ends_with :
    (set : Setting) (p : Plan) (conn : Conn) (disk : Disk) (h h1 : Heap) (ws ws' : List Worker)
    (conn' : Conn) (after : Heap)
    → create_threads p p.threads 0 h ≡ answered (made ws) h1
    → run set p.count p.turns ws (record { conn = conn; printed = [] }) h1
      ≡ answered (ws', record { conn = conn'; printed = [] }) after
    → have_ended ws' ≡ true
    → p.joins ≡ true
    → stress_on set p conn disk h ≡ answered (close_last conn' disk []) after
unfolding stress_on
ends_with set p conn disk h h1 ws ws' conn' after creates runs over joins =
    ground (arith, creates, runs, ended, joins)

-- ===== src/Stress/Runs.antt =====
-- The threads of stress/stress.c taking turns, in any order.
use mathlib.Core.List.{Perm}
use mathlib.Core.List.Perm
use logdb.Prelude.{
  ℕ, suc, ◌+◌, ◌-◌, ◌*◌, ◌≤◌, ◌<◌, ◌≡◌, refl, sym, subst, ◌∙◌, List, [], ◌∷◌, ◌++◌, append-nil,
  append_assoc, arith, length, length-append, ◌==◌, if◌then◌else◌,
}
use logdb.Heap.{Heap, Result, answered}
use logdb.Log.Layout.{section_size}
use logdb.Iter.Records.{Rec, encode_record, encode_records}
use logdb.Iter.Sections.{records_from}
use logdb.Txn.{Setting}
use logdb.Txn.Put.Refines.{Represents}
use logdb.Stress.{Worker, Shared, turn_of, run}
use logdb.Stress.Turns.{Turned, InGroups, no_group, one_group}
use logdb.Stress.Threads.{AllAt, all_written, left_at, keys_of, thread_list}
use logdb.Stress.AnyTurn.{any-turn}

-- How often a thread has its turn.
abbrev pub times : ℕ → List ℕ → ℕ
times j [] = 0
times j (k ∷ ks) = if j == k then suc (times j ks) else times j ks

length-encode_records :
    (a b : List Rec)
    → length (encode_records (a ++ b)) ≡ length (encode_records a) + length (encode_records b)
length-encode_records [] b = omega arith
length-encode_records (r ∷ a) b = omega (
  arith,
  length-append (encode_record r) (encode_records (a ++ b)),
  length-append (encode_record r) (encode_records a),
  length-encode_records a b,
)

InGroups-append :
    {a b : List Rec} {m n : ℕ} → InGroups a m → InGroups b n → InGroups (a ++ b) (m + n)
InGroups-append {b} {n} no_group rest = subst (InGroups b) (none_before n) rest
  where
    none_before : (n : ℕ) → n ≡ 0 + n
    none_before n = omega arith
InGroups-append {b} {n} (one_group group lost sections filled more) rest =
    subst (InGroups ((group ++ lost) ++ b)) (one_behind sections n) (
      subst (λ l. InGroups l (sections + n + 1)) (sym (append_assoc group lost b))
        (one_group group (lost ++ b) (sections + n) filled (InGroups-append more rest)))
  where
    one_behind : (m n : ℕ) → m + n + 1 ≡ m + 1 + n
    one_behind m n = omega arith

-- Of what all of them wrote, the sections have everything but the records of some groups, each of
-- which fills a section to the last byte.
pub record Ran (rounds n : ℕ) (rs : ℕ → List Rec) (ks : List ℕ) (ws : List Worker) (s : Shared)
    (res : Result (List Worker × Shared)) : Type 0 where
  pub threads : List Worker
  pub shared : Shared
  pub after : Heap
  pub returns : res ≡ answered (threads, shared) after
  pub silent : shared.printed ≡ s.printed
  pub count : ℕ
  pub counted : (n ≤ count) × (count ≤ n + length ks)
  pub sections : ℕ → List Rec
  pub represents : Represents count sections shared.conn
  pub wrote : List Rec
  pub lost : List Rec
  pub lost_sections : ℕ
  pub lost_size : length (encode_records lost) ≡ lost_sections * section_size
  pub in_groups : InGroups lost lost_sections
  pub same : Perm (records_from sections 0 count ++ lost) (wrote ++ records_from rs 0 n)
  pub wrote_it : Perm (all_written rounds threads) (wrote ++ all_written rounds ws)
  pub is_at : AllAt rounds after threads
  pub left : (j : ℕ) → left_at rounds j threads ≡ left_at rounds j ws - times j ks
  pub keys : keys_of threads ≡ keys_of ws
  pub memory : after.mallocs ≡ []
  pub some_address : 0 < after.fresh

-- What two parts write, one behind the other.
both :
    (a0 a1 a2 l1 l2 w1 w2 : List Rec)
    → Perm (a1 ++ l1) (w1 ++ a0)
    → Perm (a2 ++ l2) (w2 ++ a1)
    → Perm (a2 ++ (l2 ++ l1)) ((w2 ++ w1) ++ a0)
both a0 a1 a2 l1 l2 w1 w2 first second =
    subst (λ l. Perm l ((w2 ++ w1) ++ a0)) (append_assoc a2 l2 l1)
      (Perm.trans (Perm.append_right l1 second) (
        subst (λ l. Perm l ((w2 ++ w1) ++ a0)) (sym (append_assoc w2 a1 l1))
          (subst (λ l. Perm (w2 ++ (a1 ++ l1)) l) (sym (append_assoc w2 w1 a0))
            (Perm.append_left w2 first))))

-- A turn, and those behind it.
behind_turn :
    (set : Setting) (rounds k : ℕ) (ks : List ℕ) (n : ℕ) (rs : ℕ → List Rec) (ws : List Worker)
    (s : Shared) (h : Heap)
    (t : Turned (thread_list rounds k) n rs ws s h (turn_of set rounds k ws s))
    → Ran rounds t.count t.sections ks t.next t.shared (run set rounds ks t.next t.shared t.after)
    → Ran rounds n rs (k ∷ ks) ws s (run set rounds (k ∷ ks) ws s h)
unfolding run
behind_turn set rounds k ks n rs ws s h t r = record {
  threads = r.threads;
  shared = r.shared;
  after = r.after;
  returns = rw t.returns r.returns;
  silent = r.silent ∙ t.silent;
  count = r.count;
  counted = (omega (arith, r.counted, t.counted), omega (arith, r.counted, t.counted));
  sections = r.sections;
  represents = r.represents;
  wrote = r.wrote ++ t.wrote;
  lost = r.lost ++ t.lost;
  lost_sections = r.lost_sections + t.lost_sections;
  lost_size = omega (arith, length-encode_records r.lost t.lost, r.lost_size, t.lost_size);
  in_groups = InGroups-append r.in_groups t.in_groups;
  same =
      both (records_from rs 0 n) (records_from t.sections 0 t.count)
        (records_from r.sections 0 r.count) t.lost r.lost t.wrote r.wrote t.same r.same;
  wrote_it =
      subst (λ l. Perm (all_written rounds r.threads) l)
        (sym (append_assoc r.wrote t.wrote (all_written rounds ws)))
        (Perm.trans r.wrote_it (Perm.append_left r.wrote t.wrote_it));
  is_at = r.is_at;
  left = λ j. ground (arith, r.left j, t.goes.0 j);
  keys = r.keys ∙ t.goes.1;
  memory = r.memory;
  some_address = r.some_address;
}

module _ (set : Setting) (fuel tries rounds : ℕ)
    (enough : set.fuel ≡ suc (suc (suc (suc (suc fuel))))) (some_rounds : set.rounds ≡ suc tries)
    (alone : set.others ≡ []) where
  -- Whatever the order of the turns, if there are at most 2^16 sections even after a new one for
  -- each turn, nobody else is at work, no call fails and there is memory: the turns return and
  -- print nothing, and behind them the sections hold whole records on a connection that is ready
  -- for the next call of `logdb_put`. What the threads have put in these turns, with the records
  -- from before, is what the sections hold together with groups of records that fill a section to
  -- the last byte each, up to the order. The keys of running threads stand in buffers of their own,
  -- before and after, and a thread needs one turn less for each that it had.
  pub run-Ran :
      (ks : List ℕ) (n : ℕ) (rs : ℕ → List Rec) (ws : List Worker) (s : Shared) (h : Heap)
      → Represents n rs s.conn
      → n + length ks ≤ 65536
      → h.mallocs ≡ []
      → 0 < h.fresh
      → AllAt rounds h ws
      → Ran rounds n rs ks ws s (run set rounds ks ws s h)
  unfolding run
  run-Ran [] n rs ws s h rep few memory some_address at_it = record {
    threads = ws;
    shared = s;
    after = h;
    returns = refl;
    silent = refl;
    count = n;
    counted = (omega arith, omega arith);
    sections = rs;
    represents = rep;
    wrote = [];
    lost = [];
    lost_sections = 0;
    lost_size = omega arith;
    in_groups = no_group;
    same =
        subst (λ l. Perm l (records_from rs 0 n)) (sym (append-nil (records_from rs 0 n))) Perm.rfl;
    wrote_it = Perm.rfl;
    is_at = at_it;
    left = λ j. omega arith;
    keys = refl;
    memory = memory;
    some_address = some_address;
  }
  run-Ran (k ∷ ks) n rs ws s h rep few memory some_address at_it =
      let t =
        any-turn set fuel tries rounds n rs s h enough some_rounds alone rep (omega (arith, few))
          memory some_address k ws at_it in
      behind_turn set rounds k ks n rs ws s h t (
        run-Ran ks t.count t.sections t.next t.shared t.after t.represents
          (omega (arith, few, t.counted)) t.memory.1 (omega (arith, some_address, t.memory.0))
          t.is_at)

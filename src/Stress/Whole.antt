-- ===== src/Stress/Whole.antt =====
-- The threads of stress/stress.c from start to end, and the records that are then in the database.
use mathlib.Core.List.{Perm}
use mathlib.Core.List.Perm
use native.Mathlib.Decide.{dec_lt}
use logdb.Prelude.{
  ℕ, suc, ◌+◌, ◌*◌, ◌≤◌, ◌<◌, ◌≡◌, ap, subst, ◌∙◌, Bool, List, [], ◌++◌, append-nil, arith, length,
  length-append,
}
use logdb.Connection.{Conn}
use logdb.Heap.{Heap, Block, Result, answered}
use logdb.Log.Layout.{section_size}
use logdb.Iter.{new_iter}
use logdb.Iter.Dump.{dump_loop}
use logdb.Iter.Records.{Rec, encode_records}
use logdb.Iter.Sections.{HasRecords, records_from}
use logdb.Iter.Whole.{Lists, dump_loop-records_from}
use logdb.Txn.{Setting}
use logdb.Txn.Put.Refines.{Represents}
use logdb.Stress.{Worker, Shared, run}
use logdb.Stress.Turns.{InGroups}
use logdb.Stress.Threads.{all_written, left_at}
use logdb.Stress.Runs.{times, Ran, run-Ran}
use logdb.Stress.Ends.{
  length-Perm, all_starting, all_ended, all_rounds, AreKeys, starting-AllAt, starting_keys,
  starting_written, ended_written, starting_left, starting_outside, are_ended,
}

-- All threads have ended, nothing was printed, and the sections hold what they wrote and the
-- records from before, but for groups that fill a section to the last byte each.
pub record Completed (rounds n : ℕ) (rs : ℕ → List Rec) (keys : List Block) (ks : List ℕ)
    (res : Result (List Worker × Shared)) : Type 0 where
  pub conn : Conn
  pub after : Heap
  pub returns : res ≡ answered (all_ended keys, record { conn = conn; printed = [] }) after
  pub count : ℕ
  pub counted : count ≤ n + length ks
  pub sections : ℕ → List Rec
  pub represents : Represents count sections conn
  pub lost : List Rec
  pub lost_sections : ℕ
  pub lost_size : length (encode_records lost) ≡ lost_sections * section_size
  pub in_groups : InGroups lost lost_sections
  pub same :
      Perm (records_from sections 0 count ++ lost) (all_rounds rounds keys ++ records_from rs 0 n)
  pub memory : after.mallocs ≡ []
  pub some_address : 0 < after.fresh

pub run-Completed :
    (set : Setting) (walk tries rounds n : ℕ) (rs : ℕ → List Rec) (keys : List Block) (ks : List ℕ)
    (conn : Conn) (h : Heap)
    → set.fuel ≡ suc (suc (suc (suc (suc walk))))
    → set.rounds ≡ suc tries
    → set.others ≡ []
    → Represents n rs conn
    → n + length ks ≤ 65536
    → h.mallocs ≡ []
    → 0 < h.fresh
    → AreKeys keys
    → ((j : ℕ) → j < length keys → rounds + 2 ≤ times j ks)
    → Completed rounds n rs keys ks
        (run set rounds ks (all_starting keys) (record { conn = conn; printed = [] }) h)
run-Completed set walk tries rounds n rs keys ks conn h enough some_rounds alone rep few memory
      some_address are turns =
    record {
      conn = r.shared.conn;
      after = r.after;
      returns = r.returns ∙ ap (λ (g : List Worker × Shared). answered g r.after) same_end;
      count = r.count;
      counted = r.counted.1;
      sections = r.sections;
      represents = r.represents;
      lost = r.lost;
      lost_sections = r.lost_sections;
      lost_size = r.lost_size;
      in_groups = r.in_groups;
      same = wrote_all;
      memory = r.memory;
      some_address = r.some_address;
    }
  where
    s : Shared
    s = record { conn = conn; printed = [] }

    r : Ran rounds n rs ks (all_starting keys) s (run set rounds ks (all_starting keys) s h)
    r =
        run-Ran set walk tries rounds enough some_rounds alone ks n rs (all_starting keys) s h rep
          few memory some_address (starting-AllAt rounds h keys are)

    none_left : (j : ℕ) → left_at rounds j r.threads ≡ 0
    none_left j = elim (dec_lt j (length keys)) [
      | yes inside ↦ omega (arith, r.left j, starting_left rounds j keys, turns j inside)
      | no outside ↦
          omega (arith, r.left j, starting_outside rounds j keys (omega (arith, outside)))
    ]

    end : r.threads ≡ all_ended keys
    end = are_ended rounds r.threads none_left ∙ ap all_ended (r.keys ∙ starting_keys keys)

    same_end :
        ◌≡◌ {A = List Worker × Shared}
          (r.threads, r.shared)
          (all_ended keys, record { conn = r.shared.conn; printed = [] })
    same_end = λ i. (end i, record { conn = r.shared.conn; printed = r.silent i })

    wrote_it : Perm (all_rounds rounds keys) r.wrote
    wrote_it =
        subst (λ l. Perm l r.wrote)
          (ap (λ ws. all_written rounds ws) end ∙ ended_written rounds keys)
          (subst (λ l. Perm (all_written rounds r.threads) l)
            (ap (λ l. r.wrote ++ l) (starting_written rounds keys) ∙ append-nil r.wrote) r.wrote_it)

    wrote_all :
        Perm
          (records_from r.sections 0 r.count ++ r.lost)
          (all_rounds rounds keys ++ records_from rs 0 n)
    wrote_all = Perm.trans r.same (Perm.append_right (records_from rs 0 n) (Perm.symm wrote_it))

-- All threads have ended, nothing was printed, and the loop of stress/dump.c lists what they wrote
-- and the records from before, but for groups that fill a section to the last byte each.
pub record Stressed (debug : Bool) (fuel dump_rounds rounds n : ℕ) (rs : ℕ → List Rec)
    (keys : List Block) (res : Result (List Worker × Shared)) : Type 0 where
  pub conn : Conn
  pub after : Heap
  pub returns : res ≡ answered (all_ended keys, record { conn = conn; printed = [] }) after
  pub listed : List Rec
  pub lists : Lists listed (dump_loop dump_rounds debug (suc fuel) new_iter conn after)
  pub lost : List Rec
  pub lost_sections : ℕ
  pub lost_size : length (encode_records lost) ≡ lost_sections * section_size
  pub in_groups : InGroups lost lost_sections
  pub same : Perm (listed ++ lost) (all_rounds rounds keys ++ records_from rs 0 n)

pub Represents-HasRecords :
    (n : ℕ) (rs : ℕ → List Rec) (c : Conn) → Represents n rs c → HasRecords n rs c
Represents-HasRecords n rs c rep = record {
  log = rep.calm.log;
  shorts = rep.calm.shorts;
  quiet = rep.calm.db;
  readers = rep.calm.readers;
  inside = rep.calm.inside;
  encoded = λ j below. rep.encoded j;
  full = rep.full;
}

-- When the threads of stress/stress.c have their turns in any order, each thread often enough for
-- its start, its rounds and its end, on a database of whole records with at most 2^16 sections even
-- after a new one for each turn, where nobody else is at work, no call fails and there is memory,
-- then all threads end and no failure is printed. The loop of stress/dump.c over the database then
-- ends; together with groups of records that fill a section to the last byte each, it lists each
-- record that a thread put (its key, and a number below `count` as the value), and each record from
-- before, in some order. A key has at least one byte, and fits a section with its value. The loop
-- of stress/dump.c gets fuel for 2^16 sections, and more rounds than records.
pub run-Stressed :
    (set : Setting) (walk tries fuel dump_rounds rounds n : ℕ) (debug : Bool) (rs : ℕ → List Rec)
    (keys : List Block) (ks : List ℕ) (conn : Conn) (h : Heap)
    → set.fuel ≡ suc (suc (suc (suc (suc walk))))
    → set.rounds ≡ suc tries
    → set.others ≡ []
    → Represents n rs conn
    → n + length ks ≤ 65536
    → h.mallocs ≡ []
    → 0 < h.fresh
    → AreKeys keys
    → ((j : ℕ) → j < length keys → rounds + 2 ≤ times j ks)
    → 65536 ≤ fuel
    → length (all_rounds rounds keys ++ records_from rs 0 n) < dump_rounds
    → Stressed debug fuel dump_rounds rounds n rs keys
        (run set rounds ks (all_starting keys) (record { conn = conn; printed = [] }) h)
run-Stressed set walk tries fuel dump_rounds rounds n debug rs keys ks conn h enough some_rounds
      alone rep few memory some_address are turns walks more =
    let r =
      run-Completed set walk tries rounds n rs keys ks conn h enough some_rounds alone rep few
        memory some_address are turns in
    record {
      conn = r.conn;
      after = r.after;
      returns = r.returns;
      listed = records_from r.sections 0 r.count;
      lists =
          dump_loop-records_from debug fuel r.count r.sections r.conn
            (Represents-HasRecords r.count r.sections r.conn r.represents)
            (omega (arith, r.counted, few, walks)) r.after dump_rounds r.memory r.some_address
            (omega (
              arith,
              length-Perm r.same,
              length-append (records_from r.sections 0 r.count) r.lost,
              more,
            ));
      lost = r.lost;
      lost_sections = r.lost_sections;
      lost_size = r.lost_size;
      in_groups = r.in_groups;
      same = r.same;
    }

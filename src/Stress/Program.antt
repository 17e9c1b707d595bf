-- ===== src/Stress/Program.antt =====
-- stress/stress.c as a whole, on a disk without the database, and stress/dump.c after it.
use mathlib.Core.List.{Perm}
use logdb.Prelude.{
  ℕ, suc, ◌+◌, ◌*◌, ◌≤◌, ◌<◌, ◌≡◌, refl, sym, ap, subst, ◌∙◌, ℤ, succeeded, Bool, true, false,
  Option, some, List, [], ◌++◌, append-nil, arith, length, length-append,
}
use logdb.File.{empty_file}
use logdb.Connection.{Conn}
use logdb.Heap.{Heap, Block, Result, answered}
use logdb.Log.Layout.{section_size}
use logdb.Disk.{Disk}
use logdb.Database.{connected, logdb_open}
use logdb.Database.Fresh.{empty_disk, made_disk, made_conn, made_conn-Represents}
use logdb.Database.Reopen.{IsClosable}
use logdb.Database.Records.{Relists, dump_loop-Relists}
use logdb.Iter.Records.{Rec, encode_records}
use logdb.Iter.Sections.{records_from}
use logdb.Txn.{Setting}
use logdb.Txn.Put.Refines.{Represents}
use logdb.Stress.{run}
use logdb.Stress.Turns.{InGroups}
use logdb.Stress.Runs.{times}
use logdb.Stress.Ends.{all_starting, all_ended, all_rounds, length-Perm}
use logdb.Stress.Whole.{Completed, run-Completed}
use logdb.Stress.Main.{Plan, Exit, close_last, stress_on, stress_main}
use logdb.Stress.Dump.{Shows, dump_main, dump_main-Shows}
use logdb.Stress.Creation.{
  keys_from, AreKeys-keys_from, length-keys_from, length-all_rounds, creates_all, ended-have_ended,
  begins, ends_with,
}

-- A disk on which no call fails can close the connection of a calm database.
Represents-IsClosable :
    (max_readers n : ℕ) (rs : ℕ → List Rec) (c : Conn)
    → Represents n rs c
    → n < 65536
    → IsClosable n c (made_disk max_readers)
Represents-IsClosable max_readers n rs c rep few = record {
  files = record {
    log = rep.calm.log;
    few = few;
    valid = rep.calm.valid;
    shorts = rep.calm.shorts;
    db = rep.calm.db;
    calls = refl;
    path = empty_file;
    there = refl;
    memory = λ k. refl;
  };
  log_script = refl;
  script = refl;
  calls = refl;
  header = rep.calm.header;
}

-- The program returns 0 and prints nothing; another process opens the database that it left, and
-- stress/dump.c shows what the threads wrote, but for groups of records that fill a section to the
-- last byte each.
pub record Dumped (p : Plan) (max_readers fuel dump_rounds : ℕ) (debug : Bool) (h dump_heap : Heap)
    (res : Result Exit) : Type 0 where
  pub disk : Disk
  pub after : Heap
  pub exits : res ≡ answered (record { code = some succeeded; printed = []; disk = disk }) after
  pub new : Conn
  pub last : Disk
  pub opens : logdb_open (record { create = false; nosync = false }) disk ≡ (connected new, last)
  pub listed : List Rec
  pub shows : Shows listed new last (dump_main debug dump_rounds (suc fuel) 2 disk dump_heap)
  pub lost : List Rec
  pub lost_sections : ℕ
  pub lost_size : length (encode_records lost) ≡ lost_sections * section_size
  pub in_groups : InGroups lost lost_sections
  pub same : Perm (listed ++ lost) (all_rounds p.count (keys_from p.name (h.fresh + 1) p.threads 0))

module _ (set : Setting) (walk tries fuel dump_rounds max_readers : ℕ) (debug : Bool) (p : Plan)
    (h dump_heap : Heap) (enough : set.fuel ≡ suc (suc (suc (suc (suc walk)))))
    (some_tries : set.rounds ≡ suc tries) (alone : set.others ≡ []) (some_readers : 0 < max_readers)
    (memory : h.mallocs ≡ []) (some_address : 0 < h.fresh)
    (strings : (k : ℕ) → (0 < length (p.name k)) × (12 + length (p.name k) ≤ section_size))
    (turns : (j : ℕ) → j < p.threads → p.count + 2 ≤ times j p.turns)
    (few : length p.turns < 65536) where
  abbrev keys : List Block
  keys = keys_from p.name (h.fresh + 1) p.threads 0

  abbrev conn : Conn
  conn = made_conn max_readers

  abbrev started : Heap
  started = record h { fresh = h.fresh + 1 + p.threads }

  done :
      Completed p.count 0
        (λ _. [])
        keys
        p.turns
        (run set p.count p.turns (all_starting keys) (record { conn = conn; printed = [] }) started)
  done =
      run-Completed set walk tries p.count 0 (λ _. []) keys p.turns conn started enough some_tries
        alone (made_conn-Represents max_readers some_readers) (omega (arith, few)) memory
        (omega arith) (AreKeys-keys_from p.name (h.fresh + 1) p.threads 0 strings)
        (λ j below.
          turns j (omega (arith, below, length-keys_from p.name (h.fresh + 1) p.threads 0)))

  exits :
      p.arguments ≡ 5
      → 0 < p.threads
      → 0 < p.count
      → ((k : ℕ) → p.creates k ≡ true)
      → p.joins ≡ true
      → stress_main set p (empty_disk max_readers) h
        ≡ answered (close_last done.conn (made_disk max_readers) []) done.after
  unfolding stress_main stress_on
  exits arguments some_threads some_rounds creates joins =
      begins set p max_readers h memory some_address arguments some_threads some_rounds
      ∙ ends_with set p conn (made_disk max_readers) (record h { fresh = h.fresh + 1 }) started
          (all_starting keys) (all_ended keys) done.conn done.after
          (creates_all p p.threads 0 (record h { fresh = h.fresh + 1 }) creates memory
            (omega arith))
          done.returns (ended-have_ended keys) joins

  -- `main` of stress/stress.c on a disk without the database, its threads in this order, and then
  -- `main` of stress/dump.c. No call fails, there is memory, and both are called with the right
  -- number of arguments. Each thread has its turn often enough for its start, its rounds and its
  -- end, with less than 2^16 turns in all; the keys are strings that fit a section with their
  -- values. Then stress.c returns 0 and prints nothing, and dump.c opens the database, and ends.
  -- Together with groups of records whose bytes fill a section exactly, it shows each record that a
  -- thread put (its key, and a number below `count` as the value), in some order. Its result is
  -- that of the close of a connection to the same files. dump.c gets fuel for 2^16 sections, and
  -- more rounds than there are records.
  pub stress_main-Dumped :
      p.arguments ≡ 5
      → 0 < p.threads
      → 0 < p.count
      → ((k : ℕ) → p.creates k ≡ true)
      → p.joins ≡ true
      → 65536 ≤ fuel
      → dump_heap.mallocs ≡ []
      → 0 < dump_heap.fresh
      → p.threads * p.count < dump_rounds
      → Dumped p max_readers fuel dump_rounds debug h dump_heap
          (stress_main set p (empty_disk max_readers) h)
  stress_main-Dumped arguments some_threads some_rounds creates joins walks dump_memory dump_address
        more =
      record {
        disk = again.after;
        after = done.after;
        exits =
            exits arguments some_threads some_rounds creates joins
            ∙ ap
                (λ (r : Option ℤ × Disk).
                  answered (record { code = r.0; printed = []; disk = r.1 }) done.after)
                again.closes;
        new = again.new;
        last = again.last;
        opens = again.opens;
        listed = records_from done.sections 0 done.count;
        shows =
            subst
              (λ l.
                Shows l again.new again.last
                  (dump_main debug dump_rounds (suc fuel) 2 again.after dump_heap))
              again.same
              (dump_main-Shows debug fuel again.left dump_rounds again.sections again.new
                again.after again.last dump_heap again.opens again.has again.walked dump_memory
                dump_address (subst (λ l. length l < dump_rounds) (sym again.same) fewer_records));
        lost = done.lost;
        lost_sections = done.lost_sections;
        lost_size = done.lost_size;
        in_groups = done.in_groups;
        same =
            subst (λ l. Perm (records_from done.sections 0 done.count ++ done.lost) l)
              (append-nil (all_rounds p.count keys)) done.same;
      }
    where
      fewer_records : length (records_from done.sections 0 done.count) < dump_rounds
      fewer_records = omega (
        arith,
        length-Perm done.same,
        length-append (records_from done.sections 0 done.count) done.lost,
        length-append (all_rounds p.count keys) [],
        length-all_rounds p.count keys,
        ap (λ k. k * p.count) (length-keys_from p.name (h.fresh + 1) p.threads 0),
        more,
      )

      again :
          Relists
            (records_from done.sections 0 done.count)
            dump_rounds
            fuel
            debug
            false
            done.conn
            (made_disk max_readers)
            dump_heap
      again =
          dump_loop-Relists done.count false done.conn (made_disk max_readers)
            (Represents-IsClosable max_readers done.count done.sections done.conn done.represents
              (omega (arith, done.counted, few)))
            done.sections (λ j below. done.represents.encoded j) done.represents.full some_readers
            debug fuel dump_rounds dump_heap (omega (arith, done.counted, few, walks)) dump_memory
            dump_address fewer_records

-- ===== src/Stress/Main.antt =====
-- `main` of stress/stress.c. Its threads have their turns when all of them are created; a failed
-- call of `pthread_create` comes before the first turn.
use logdb.Prelude.{
  ℕ, zero, suc, ℤ, pos, Bool, true, false, ◌&&◌, ◌||◌, not, Option, none, some, List, [], ◌∷◌, ◌==◌,
  if◌then◌else◌,
}
use logdb.Connection.{Conn}
use logdb.Heap.{null, Block, Command, unfinished, malloc, pure, ◌>>=◌}
use logdb.Disk.{Disk}
use logdb.Database.{connected, not_opened, lost, logdb_open, logdb_close}
use logdb.Txn.{Setting}
use logdb.Stress.{Worker, starting, working, ended, run}

-- What `main` is called with: the number of arguments, the numbers of threads and rounds that
-- `atoi` reads (not below 0), and the keys that `sprintf` makes, each with its NUL; which calls of
-- `pthread_create` work, whether those of `pthread_join` do; and the order of the turns.
pub record Plan : Type 0 where
  pub arguments : ℕ
  pub threads : ℕ
  pub count : ℕ
  pub name : ℕ → List ℕ
  pub creates : ℕ → Bool
  pub joins : Bool
  pub turns : List ℕ

-- How `main` ends: its result (none, if a call of the library accessed memory outside of a block),
-- the failures that are printed, and the disk.
pub record Exit : Type 0 where
  pub code : Option ℤ
  pub printed : List (List ℕ × ℕ)
  pub disk : Disk

-- The new threads, or the result of `main`.
pub data Made : Type 0 where
  made : List Worker → Made
  stops : ℕ → Made

abbrev pub one_more_thread : Block → Made → Made
one_more_thread key (made ws) = made (starting key ∷ ws)
one_more_thread key (stops code) = stops code

-- The loop that creates the threads, from thread `i` on.
unfoldable pub create_threads : Plan → ℕ → ℕ → Command Made
create_threads p zero i = pure (made [])
create_threads p (suc m) i = do
  key ← malloc
  if key == null
      then pure (stops 5)
      else (if p.creates i
          then (do
            rest ← create_threads p m (suc i)
            pure (one_more_thread (record { address = key; bytes = p.name i }) rest))
          else pure (stops 6))

abbrev pub has_ended : Worker → Bool
has_ended (starting key) = false
has_ended (working t) = false
has_ended (ended key) = true

abbrev pub have_ended : List Worker → Bool
have_ended [] = true
have_ended (w ∷ ws) = has_ended w && have_ended ws

-- The result of `main`, also behind a call of `logdb_close` whose result is dropped.
abbrev pub exit : ℕ → Disk → Exit
exit code disk = record { code = some (pos code); printed = []; disk = disk }

abbrev pub close_and_exit : ℕ → Conn → Disk → List (List ℕ × ℕ) → Exit
close_and_exit code conn disk printed =
    let (closed, disk') = logdb_close conn disk in
    record {
      code = elim closed [ none ↦ none | some _ ↦ some (pos code) ];
      printed = printed;
      disk = disk';
    }

abbrev pub close_last : Conn → Disk → List (List ℕ × ℕ) → Exit
close_last conn disk printed =
    let (closed, disk') = logdb_close conn disk in
    record { code = closed; printed = printed; disk = disk' }

-- From the opened database on.
unfoldable pub stress_on : Setting → Plan → Conn → Disk → Command Exit
stress_on set p conn disk = do
  out ← create_threads p p.threads 0
  elim out [
    | stops code ↦ pure (close_and_exit code conn disk [])
    | made ws ↦ do
      (ws', s) ← run set p.count p.turns ws (record { conn = conn; printed = [] })
      if not (have_ended ws')
          then (λ _. unfinished)
          else (if p.joins
              then pure (close_last s.conn disk s.printed)
              else pure (close_and_exit 7 s.conn disk s.printed))
  ]

unfoldable pub stress_main : Setting → Plan → Disk → Command Exit
stress_main set p disk =
    if not (p.arguments == 5)
    then pure (exit 1 disk)
    else if p.threads == 0 || p.count == 0
    then pure (exit 2 disk)
    else do
      threads ← malloc
      if threads == null then pure (exit 3 disk) else do
        let (out, disk1) = logdb_open (record { create = true; nosync = false }) disk
        elim out [
          | not_opened ↦ pure (exit 4 disk1)
          | lost ↦ pure (record { code = none; printed = []; disk = disk1 })
          | connected conn ↦ stress_on set p conn disk1
        ]

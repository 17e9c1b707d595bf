-- ===== src/Lease/Grant.antt =====
-- `logdb_lease_acquire_write` of src/logdb_lease.c.
use logdb.Io.Streams.{seek_end, seek_current}
use logdb.Prelude.{
  ℕ, zero, suc, ◌+◌, ℤ, is_zero, to_size, true, false, Option, none, some, List, [], ◌∷◌, ltb,
  if◌then◌else◌, sub32, length, take,
}
use logdb.File.{write_at}
use logdb.Io.{Fd, error, outcome, spend, moved, code_of}
use logdb.Log.Layout.{section_size, index_from_offset, encode16}
use logdb.Log.Lock.{lock_write}
use logdb.Connection.{Conn}
use logdb.Connection.Locking.{log_lock, rdlock, rdunlock}
use logdb.Lease.{Lease, read_entry_space}

-- `LOGDB_LEASE_MAX_WALK`
abbrev pub max_walk : ℕ
max_walk = 4

-- `write` on a file that was opened with `O_APPEND`
unfoldable pub sys_append : List ℕ → Fd → ℤ × Fd
sys_append bytes fd =
    let n = moved (outcome fd) (length bytes) in
    (
      code_of (outcome fd) n,
      record (spend fd) {
        file = write_at fd.file.size (take n bytes) fd.file;
        pos = elim (outcome fd) [ error ↦ fd.pos | _ ↦ fd.file.size + n ];
      },
    )

-- What the walk over the last entries has found, and how many it has visited.
pub record Walked : Type 0 where
  pub found : Option (ℕ × ℕ)
  pub visited : ℕ
  pub log : Fd

-- `while ((index--) && (visited++ < LOGDB_LEASE_MAX_WALK))`
unfoldable pub walk : ℕ → ℕ → ℕ → Fd → Walked
walk zero visited size log = record { found = none; visited = visited; log = log }
walk (suc index) visited size log = elim (ltb visited max_walk) [
  | false ↦ record { found = none; visited = visited + 1; log = log }
  | true ↦
      let (entry, log') = read_entry_space index size log in
      elim entry [
        | some len ↦ record { found = some (index, len); visited = visited + 1; log = log' }
        | none ↦ walk index (visited + 1) size log'
      ]
]

-- The section that one round chooses: its index, the offset of the write, and `visited`.
pub record Chosen : Type 0 where
  pub index : ℕ
  pub offset : ℕ
  pub visited : ℕ

-- A new entry of zero bytes at the end of the log. `write (…) < sizeof (…)` compares in `size_t`,
-- so the result -1 passes.
unfoldable pub append_entry : Fd → Option Chosen × Fd
append_entry log =
    let (ret, log') = sys_append (encode16 0) log in
    if ltb (to_size ret) 2
    then (none, log')
    else (let (end, log'') = seek_current log' in
        elim end [
          | none ↦ (none, log'')
          | some offset ↦ (
            some (record { index = sub32 (index_from_offset offset) 1; offset = 0; visited = 1 }),
            log'',
          )
        ])

-- From the label `walk` to the call of `logdb_log_lock`.
unfoldable pub choose : ℕ → ℕ → Fd → Option Chosen × Fd
choose visited size log =
    let (end, log') = seek_end log in
    elim end [
      | none ↦ (none, log')
      | some offset ↦
          let w = walk (sub32 (index_from_offset offset) visited) 0 size log' in
          elim w.found [
            | some (index, len) ↦
                (some (record { index = index; offset = len; visited = w.visited }), w.log)
            | none ↦ append_entry w.log
          ]
    ]

pub data Acquired : Type 0 where
  leased : Lease → Acquired
  -- -1
  denied : Acquired
  -- the rounds of the model are used up
  looping : Acquired

-- The lock, and the second look at the entry. `none` goes back to `walk`.
unfoldable pub confirm : Chosen → ℕ → Conn → Option Lease × Conn
confirm chosen size c =
    let (code, c') = log_lock lock_write chosen.index c in
    if is_zero code
    then (let (entry, log) = read_entry_space chosen.index size c'.log in
        let c'' = record c' { log = log } in
        elim entry [
          | none ↦ (none, c'')
          | some len ↦ (
            some (record {
              index = chosen.index;
              offset = chosen.offset;
              len = size;
              type = lock_write;
            }),
            c'',
          )
        ])
    else (none, c')

abbrev pub others_now : List (Conn → Conn) → Conn → Conn
others_now [] c = c
others_now (act ∷ acts) c = act c

abbrev pub others_later : List (Conn → Conn) → List (Conn → Conn)
others_later [] = []
others_later (act ∷ acts) = acts

-- The loop of `goto walk`, a number of rounds at most. In each round the other threads and
-- processes act once between the choice of a section and its lock.
unfoldable pub acquire_loop : ℕ → List (Conn → Conn) → ℕ → ℕ → Conn → Acquired × Conn
acquire_loop zero others visited size c = (looping, c)
acquire_loop (suc rounds) others visited size c =
    let (chosen, log) = choose visited size c.log in
    let c' = record c { log = log } in
    elim chosen [
      | none ↦ (denied, rdunlock c')
      | some ch ↦
          let (lease, c'') = confirm ch size (others_now others c') in
          elim lease [
            | some l ↦ (leased l, c'')
            | none ↦ acquire_loop rounds (others_later others) ch.visited size c''
          ]
    ]

unfoldable pub acquire_write : ℕ → List (Conn → Conn) → ℕ → Conn → Acquired × Conn
acquire_write rounds others size c =
    if ltb section_size size
    then (denied, c)
    else (let (locked, c') = rdlock c in
        if locked then acquire_loop rounds others 0 size c' else (denied, c'))

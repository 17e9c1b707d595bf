-- ===== src/Examples/Leases.antt =====
-- The theorems on src/logdb_lease.c, on a log of one or two entries.
use logdb.Prelude.{
  ◌+◌, ◌≤◌, ◌<◌, ◌≡◌, ◌⊎◌, refl, pos, negsuc, none, some, List, [], ◌∷◌, ◌==◌, if◌then◌else◌, arith,
}
use logdb.File.{File, read_at}
use logdb.Io.{Fd, error, io_pread}
use logdb.Log.Layout.{section_size, log_offset, connection_offset, decode16}
use logdb.Log.Lock.{lock_none, lock_write, LockNode}
use logdb.Log.Lock.Held.{held}
use logdb.Log.Entry.{entry_at}
use logdb.Connection.{Conn}
use logdb.Lease.{Lease, lease_write, lease_read}
use logdb.Lease.Grant.{Chosen, append_entry, confirm, leased, looping, acquire_write}
use logdb.Lease.Walk.{HasSpace}
use logdb.Lease.Acquire.{Granted, acquire_write-Granted}
use logdb.Lease.Races.{commit_elsewhere, stale_offset}
use logdb.Lease.Faults.{BothTaken, confirm-full, acquire_write-loops, append_entry-failing}
use logdb.Lease.Transfer.{
  LeaseWritten, LeaseRead, lease_write-LeaseWritten, lease_read-LeaseRead, lease_read-eof,
}
use logdb.Examples.{log_file, db_file, open_file, conn, log_file-entry, log_file-IsLog, unlocked}

acquire_write-Granted_example : Granted 1 2 conn (acquire_write 1 [] 2 conn)
acquire_write-Granted_example =
    acquire_write-Granted 0 1 2 conn log_file-IsLog (omega arith) (omega arith) refl unlocked

one_entry : log_offset 1 ≤ log_file.size
unfolding log_offset
one_entry = omega arith

log_file-HasSpace : HasSpace log_file 0 2 3
log_file-HasSpace = record { entry = log_file-entry; room = omega arith }

stale_offset_example :
    let (out, c') = acquire_write 1 (commit_elsewhere 0 5 ∷ []) 2 conn in
    (out ≡ leased (record { index = 0; offset = 3; len = 2; type = lock_write }))
    × (entry_at c'.log.file 0 ≡ some 5)
stale_offset_example =
    stale_offset 0 0 2 3 5 conn log_file-IsLog log_file-HasSpace (omega arith) (omega arith)
      (omega arith) (omega arith) refl (unlocked 0)

-- Somebody has asked for a whole section.
abbrev whole : Chosen
whole = record { index = 0; offset = 0; visited = 1 }

entry_inside : log_offset 0 + 2 ≤ log_file.size
unfolding log_offset
entry_inside = omega arith

confirm-full_example :
    let (lease, c') = confirm whole section_size conn in
    (lease ≡ none) × (held c'.locks 0 ≡ negsuc 0)
confirm-full_example =
    confirm-full whole section_size conn refl refl tt tt (unlocked 0) entry_inside
      (3, log_file-entry, omega arith)

-- Two empty entries, one locked for reading and one for writing.
abbrev two_entries : File
two_entries = record { size = 10; at = λ _. 0 }

abbrev two_locks : List LockNode
two_locks = record { startindex = 0; locks = λ i. if i == 0 then pos 1 else negsuc 0 } ∷ []

abbrev busy_conn : Conn
busy_conn = record conn { log = open_file two_entries; locks = two_locks }

both_taken : BothTaken 0 2 busy_conn
unfolding log_offset entry_at read_at decode16 held
both_taken = record {
  log = record { size = refl; few = omega arith; quiet = refl };
  len = 0;
  space = record { entry = refl; room = omega arith };
  last_len = 0;
  last_space = record { entry = refl; room = omega arith };
  busy = λ e. ground (arith, e);
  last_busy = λ e. ground (arith, e);
}

acquire_write-loops_example :
    ((acquire_write 9 [] 2 busy_conn).0 ≡ looping)
    × ((acquire_write 9 [] 2 busy_conn).1.log.file ≡ two_entries)
acquire_write-loops_example =
    acquire_write-loops 9 0 2 busy_conn (omega arith) (omega arith) both_taken

-- `write` fails at the end of the log.
abbrev full_disk : Fd
full_disk = record (open_file log_file) { pos = 8; script = error ∷ [] }

one_entry_size : 8 ≡ log_offset 1
unfolding log_offset
one_entry_size = refl

append_entry-failing_example :
    append_entry full_disk
    ≡ (some (record { index = 0; offset = 0; visited = 1 }), record full_disk { script = [] })
append_entry-failing_example =
    append_entry-failing 0 full_disk one_entry_size (omega arith) refl refl

-- Leases on the first section.
abbrev behind : Lease
behind = record { index = 0; offset = 3; len = 2; type = lock_write }

abbrev from_start : Lease
from_start = record { index = 0; offset = 0; len = 3; type = lock_none }

abbrev too_long : Lease
too_long = record { index = 0; offset = 0; len = 5; type = lock_none }

lease_write-LeaseWritten_example :
    let (left, lease', db') = lease_write (4 ∷ 5 ∷ []) behind (open_file db_file) in
    LeaseWritten (4 ∷ 5 ∷ []) behind (open_file db_file) left lease' db'
    × ((2 ≤ 2) ⊎ ((left ≡ 2) × (lease' ≡ behind) × (db' ≡ open_file db_file)))
lease_write-LeaseWritten_example =
    lease_write-LeaseWritten (4 ∷ 5 ∷ []) behind (open_file db_file)
      (record { inside = omega arith })

read_works : (lease_read 2 from_start (open_file db_file)).0 ≡ 0
unfolding lease_read io_pread connection_offset
read_works = refl

lease_read-LeaseRead_example :
    let (left, got, lease', db') = lease_read 2 from_start (open_file db_file) in
    LeaseRead 2 from_start (open_file db_file) got lease' db'
lease_read-LeaseRead_example =
    lease_read-LeaseRead 2 from_start (open_file db_file) (record { inside = omega arith })
      (omega arith) read_works

ends_early : db_file.size < connection_offset 0 + 0 + 5
unfolding connection_offset
ends_early = omega arith

lease_read-eof_example :
    let (left, got, lease', db') = lease_read 5 too_long (open_file db_file) in
    (left ≡ 18446744073709551615) × (lease'.len ≡ 4294967295) × (lease'.offset ≡ 0 + 5 + 1)
lease_read-eof_example =
    lease_read-eof too_long (open_file db_file) (record { inside = omega arith }) (omega arith) refl
      ends_early

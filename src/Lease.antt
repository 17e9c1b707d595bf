-- ===== src/Lease.antt =====
-- src/logdb_lease.c: leases on a section of the database file.
pub mod Acquire
pub mod Choose
pub mod Faults
pub mod Grant
pub mod Pieces
pub mod Races
pub mod Transfer
pub mod Walk
pub mod Whole
use logdb.Prelude.{
  ℕ, zero, suc, ◌+◌, ◌-◌, ◌≤◌, ◌<◌, ◌≡◌, refl, ℤ, pos, negsuc, succeeded, failed, is_zero,
  is_failed, to_size, Bool, true, false, Option, none, some, List, [], ◌∷◌, ltb, leb, if◌then◌else◌,
  arith, sub32, u32, length, min, take, ◌%◌,
}
use logdb.File.{File, write_at}
use logdb.Io.{Fd, Outcome, full, part, error, outcome, spend, moved, code_of, io_pread, io_pwrite}
use logdb.Log.Layout.{section_size, index_from_offset, connection_offset, encode16}
use logdb.Log.Lock.{LockType, lock_none, lock_read, lock_write}
use logdb.Log.Entry.{log_read_entry}
use logdb.Connection.{Conn}
use logdb.Connection.Locking.{sys_call, log_lock, log_unlock, rdlock, rdunlock}

-- A lease whose `connection` is set.
pub record Lease : Type 0 where
  pub index : ℕ
  pub offset : ℕ
  pub len : ℕ
  pub type : LockType

-- `logdb_lease_read_entry_space`: the entry, if it was read and has room.
unfoldable pub read_entry_space : ℕ → ℕ → Fd → Option ℕ × Fd
read_entry_space index size log =
    let (entry, log') = log_read_entry index log in
    (
      elim entry [
        | none ↦ none
        | some len ↦ if leb size (section_size - len) then some len else none
      ],
      log',
    )

-- `logdb_lease_acqire_read`; `none` is -1.
unfoldable pub acquire_read : ℕ → ℕ → Conn → Option Lease × Conn
acquire_read index offset c =
    let (locked, c') = rdlock c in
    if locked
    then (let (entry, log) = log_read_entry index c'.log in
        let c'' = record c' { log = log } in
        elim entry [
          | none ↦ (none, rdunlock c'')
          | some len ↦ if leb len offset then (none, rdunlock c'') else (
            some (record {
              index = index;
              offset = offset;
              len = u32 (len - offset);
              type = lock_none;
            }),
            c'',
          )
        ])
    else (none, c')

-- `bytes = len - notread` is a `size_t`; the fields of the lease take it modulo their widths.
abbrev pub advance : ℕ → Lease → Lease
advance bytes lease = record lease {
  offset = (lease.offset + bytes) % 18446744073709551616;
  len = sub32 lease.len bytes;
}

-- `logdb_lease_read`: the result, the bytes that were read, and the lease and descriptor.
unfoldable pub lease_read : ℕ → Lease → Fd → ℕ × List ℕ × Lease × Fd
lease_read len lease db =
    if ltb lease.len len
    then (len, [], lease, db)
    else (let (ret, got, db') = io_pread len (connection_offset lease.index + lease.offset) db in
        let notread = to_size ret in
        let bytes = (len + 18446744073709551616 - notread) % 18446744073709551616 in
        (notread, got, advance bytes lease, db'))

-- `logdb_lease_write`
unfoldable pub lease_write : List ℕ → Lease → Fd → ℕ × Lease × Fd
lease_write bytes lease db =
    let len = length bytes in
    if ltb lease.len len
    then (len, lease, db)
    else (let (notwritten, db') =
          io_pwrite bytes (connection_offset lease.index + lease.offset) db in
        (notwritten, advance (len - notwritten) lease, db'))

-- `logdb_lease_seek` by an offset that is not negative, as its callers give. The test is there in a
-- debug build only.
unfoldable pub lease_seek : Bool → ℕ → Lease → Option ℕ × Lease
lease_seek debug offset lease =
    let moved_lease = advance offset lease in
    if debug
    then (if ltb lease.len offset then (none, lease) else (some moved_lease.offset, moved_lease))
    else (some moved_lease.offset, moved_lease)

-- `logdb_lease_release`
unfoldable pub lease_release : Lease → Conn → Conn
lease_release lease c = rdunlock (elim lease.type [
  | lock_none ↦ c
  | lock_read ↦ log_unlock lock_read lease.index c
  | lock_write ↦ log_unlock lock_write lease.index c
])

-- ===== src/Lease/Whole.antt =====
-- Writes through a lease when no call fails: all bytes are written.
use logdb.Prelude.{
  ℕ, ◌+◌, ◌-◌, ◌≤◌, ◌≡◌, ap, ◌∙◌, ◌%◌, List, [], ◌++◌, arith, length, length-append, sub32,
}
use logdb.File.{write_at}
use logdb.File.Laws.{write_at-append}
use logdb.Io.{Fd}
use logdb.Io.Quiet.{io_pwrite-quiet}
use logdb.Log.Layout.{connection_offset}
use logdb.Lease.{Lease, advance, lease_write}
use logdb.Lease.Transfer.{moved_by, Fits}

-- The descriptor with these bytes at the lease.
abbrev pub filled : List ℕ → Lease → Fd → Fd
filled bytes lease db = record db {
  file = write_at (connection_offset lease.index + lease.offset) bytes db.file;
}

pub lease_write-quiet :
    (bytes : List ℕ) (lease : Lease) (db : Fd)
    → Fits lease
    → length bytes ≤ lease.len
    → db.script ≡ []
    → lease_write bytes lease db ≡ (0, moved_by (length bytes) lease, filled bytes lease db)
unfolding lease_write
lease_write-quiet bytes lease db fits room quiet = ground (
  arith,
  room,
  io_pwrite-quiet bytes (connection_offset lease.index + lease.offset) db quiet,
  moved,
)
  where
    moved : advance (length bytes - 0) lease ≡ moved_by (length bytes) lease
    moved = λ i. record lease { offset = at_offset i; len = at_len i }
      where
        at_offset :
            (lease.offset + (length bytes - 0)) % 18446744073709551616 ≡ lease.offset + length bytes
        at_offset = omega (arith, fits.inside, room)

        at_len : sub32 lease.len (length bytes - 0) ≡ lease.len - length bytes
        at_len = omega (arith, fits.inside, room)

-- Two pieces in a row are one.
pub filled-append :
    (xs ys : List ℕ) (lease : Lease) (db : Fd)
    → filled ys (moved_by (length xs) lease) (filled xs lease db) ≡ filled (xs ++ ys) lease db
filled-append xs ys lease db = λ i. record db { file = same i }
  where
    same :
        write_at
          (connection_offset lease.index + (lease.offset + length xs))
          ys
          (write_at (connection_offset lease.index + lease.offset) xs db.file)
        ≡ write_at (connection_offset lease.index + lease.offset) (xs ++ ys) db.file
    same =
        ap (λ o. write_at o ys (write_at (connection_offset lease.index + lease.offset) xs db.file))
          (omega arith)
        ∙ write_at-append (connection_offset lease.index + lease.offset) xs ys db.file

pub moved_by-append :
    (xs ys : List ℕ) (lease : Lease)
    → moved_by (length ys) (moved_by (length xs) lease) ≡ moved_by (length (xs ++ ys)) lease
moved_by-append xs ys lease = λ i. record lease { offset = at_offset i; len = at_len i }
  where
    at_offset : lease.offset + length xs + length ys ≡ lease.offset + length (xs ++ ys)
    at_offset = omega (arith, length-append xs ys)

    at_len : lease.len - length xs - length ys ≡ lease.len - length (xs ++ ys)
    at_len = omega (arith, length-append xs ys)

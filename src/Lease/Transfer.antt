-- ===== src/Lease/Transfer.antt =====
-- Reads and writes through a lease.
use logdb.Prelude.{
  ℕ, ◌+◌, ◌-◌, ◌%◌, ◌≤◌, ◌<◌, ◌≡◌, refl, sym, ap, ◌⊎◌, to_size, false, List, [], ltb, lt→ltb, arith,
  length, take, Bool-cases, inl, inr,
}
use native.Mathlib.Decide.{dec_le}
use logdb.File.{File, write_at, read_at}
use logdb.Io.{Fd, io_pread}
use logdb.Io.Reads.{io_pread-Fetched, Fetched-complete}
use logdb.Io.Writes.{io_pwrite-Written}
use logdb.Io.Quiet.{io_pread-eof}
use logdb.Log.Layout.{section_size, connection_offset}
use logdb.Lease.{Lease, lease_write, lease_read, advance}

-- The lease moved by `n` bytes.
abbrev pub moved_by : ℕ → Lease → Lease
moved_by n lease = record lease { offset = lease.offset + n; len = lease.len - n }

-- A lease lies inside of its section.
pub record Fits (lease : Lease) : Type 0 where
  pub inside : lease.offset + lease.len ≤ section_size

-- A write of some prefix, `left` bytes short: what it leaves in the file and in the lease.
pub record LeaseWritten (bytes : List ℕ) (lease : Lease) (db : Fd) (left : ℕ) (lease' : Lease)
    (db' : Fd) : Type 0 where
  pub within : left ≤ length bytes
  pub file :
      db'.file
      ≡ write_at
          (connection_offset lease.index + lease.offset)
          (take (length bytes - left) bytes)
          db.file
  pub synced : db'.synced ≡ db.synced
  pub index : lease'.index ≡ lease.index
  pub type : lease'.type ≡ lease.type
  pub offset : lease'.offset ≡ lease.offset + (length bytes - left)
  pub len : lease'.len ≡ lease.len - (length bytes - left)
  pub leased : length bytes - left ≤ lease.len

write_none : (off n : ℕ) (bytes : List ℕ) (f : File) → write_at off (take (n - n) bytes) f ≡ f
unfolding write_at
write_none off n bytes f = rw none_left
  where
    none_left : n - n ≡ 0
    none_left = omega arith

-- Whatever the system calls do, a write through a lease that lies in its section writes a prefix
-- of the bytes at the offset of the lease, inside of the lease, moves the lease behind it, and
-- returns what is missing. More bytes than the lease has are refused as a whole: all of them are
-- missing, and the lease, the file and the rest of the descriptor stay.
pub lease_write-LeaseWritten :
    (bytes : List ℕ) (lease : Lease) (db : Fd)
    → Fits lease
    → let (left, lease', db') = lease_write bytes lease db in
      LeaseWritten bytes lease db left lease' db'
      × ((length bytes ≤ lease.len) ⊎ ((left ≡ length bytes) × (lease' ≡ lease) × (db' ≡ db)))
unfolding lease_write
lease_write-LeaseWritten bytes lease db fits = elim (Bool-cases (ltb lease.len (length bytes))) [
  | inl long ↦ rw long (refused, inr (refl, refl, refl))
  | inr short ↦
      let off = connection_offset lease.index + lease.offset in
      let w = io_pwrite-Written bytes off db in
      let room : length bytes ≤ lease.len = ground arith in
      rw short (
        record {
          within = w.within;
          file = w.file;
          synced = w.synced;
          index = refl;
          type = refl;
          offset = omega (arith, fits.inside, room);
          len = omega (arith, fits.inside, room, w.within);
          leased = omega (arith, room);
        },
        inl room,
      )
]
  where
    refused : LeaseWritten bytes lease db (length bytes) lease db
    refused = record {
      within = omega arith;
      file = sym (write_none _ (length bytes) bytes db.file);
      synced = refl;
      index = refl;
      type = refl;
      offset = omega arith;
      len = omega arith;
      leased = omega arith;
    }

module _ (len : ℕ) (lease : Lease) (db : Fd) where
  abbrev at : ℕ
  at = connection_offset lease.index + lease.offset

  lease_read-long : lease.len < len → lease_read len lease db ≡ (len, [], lease, db)
  unfolding lease_read
  lease_read-long h = rw (lt→ltb _ _ h)

  pub lease_read-short :
      len ≤ lease.len
      → lease_read len lease db ≡ (
          let (ret, got, db') = io_pread len at db in
          (
            to_size ret,
            got,
            advance ((len + 18446744073709551616 - to_size ret) % 18446744073709551616) lease,
            db',
          ))
  unfolding lease_read
  lease_read-short h = rw (not_long lease.len len h)
    where
      not_long : (a b : ℕ) → b ≤ a → ltb a b ≡ false
      not_long a b h = ground arith

-- The outcome of a read that returns 0.
pub record LeaseRead (n : ℕ) (lease : Lease) (db : Fd) (bytes : List ℕ) (lease' : Lease) (db' : Fd)
    : Type 0 where
  pub got : bytes ≡ read_at (connection_offset lease.index + lease.offset) n db.file
  pub in_file : connection_offset lease.index + lease.offset + n ≤ db.file.size
  pub leased : n ≤ lease.len
  pub offset : lease'.offset ≡ lease.offset + n
  pub len : lease'.len ≡ lease.len - n
  pub index : lease'.index ≡ lease.index
  pub type : lease'.type ≡ lease.type
  pub file : db'.file ≡ db.file

-- A read of at least one byte through a lease that lies in its section, if it returns 0, has
-- delivered the bytes of the file at the offset of the lease, inside of the lease, and has moved
-- the lease behind them.
pub lease_read-LeaseRead :
    (len : ℕ) (lease : Lease) (db : Fd)
    → Fits lease
    → 0 < len
    → (lease_read len lease db).0 ≡ 0
    → let (left, got, lease', db') = lease_read len lease db in
      LeaseRead len lease db got lease' db'
lease_read-LeaseRead len lease db fits some_wanted done = elim (dec_le len lease.len) [
  | no long ↦ absurd (
      omega (
        arith,
        ap (λ (r : ℕ × List ℕ × Lease × Fd). r.0) (lease_read-long len lease db (omega arith)),
      ))
  | yes short ↦
      rw (lease_read-short len lease db short)
        (short_read short (rw (lease_read-short len lease db short) at done))
]
  where
    at : ℕ
    at = connection_offset lease.index + lease.offset

    short_read :
        len ≤ lease.len
        → to_size (io_pread len at db).0 ≡ 0
        → LeaseRead len lease db
            (io_pread len at db).1
            (advance
              ((len + 18446744073709551616 - to_size (io_pread len at db).0) % 18446744073709551616)
              lease)
            (io_pread len at db).2
    short_read short zero_left =
        let f = io_pread-Fetched len at db some_wanted in
        let c = Fetched-complete f (ground arith) (ground (arith, f.code)) some_wanted in
        record {
          got = c.0;
          in_file = c.1;
          leased = short;
          offset = omega (arith, fits.inside, short, zero_left);
          len = omega (arith, fits.inside, short, zero_left);
          index = refl;
          type = refl;
          file = f.file;
        }

-- If no call fails, and the file ends before the end of a lease that has at least one byte and lies
-- in its section, a read as long as the lease returns 2^64 - 1, and leaves the lease with 2^32 - 1
-- bytes and an offset one byte behind its end.
pub lease_read-eof :
    (lease : Lease) (db : Fd)
    → Fits lease
    → 0 < lease.len
    → db.script ≡ []
    → db.file.size < connection_offset lease.index + lease.offset + lease.len
    → let (left, got, lease', db') = lease_read lease.len lease db in
      (left ≡ 18446744073709551615)
      × (lease'.len ≡ 4294967295)
      × (lease'.offset ≡ lease.offset + lease.len + 1)
lease_read-eof lease db fits some_wanted quiet ends =
    let eof =
      io_pread-eof lease.len (connection_offset lease.index + lease.offset) db quiet some_wanted
        ends in
    rw (lease_read-short lease.len lease db (omega arith), eof) (omega (arith, fits.inside))

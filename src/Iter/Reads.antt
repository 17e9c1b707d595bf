-- ===== src/Iter/Reads.antt =====
-- Reads of an iterator through its lease, when no call fails and the bytes are in the file.
use logdb.Prelude.{ℕ, ◌+◌, ◌-◌, ◌≤◌, ◌<◌, ◌≡◌, ap, ◌∙◌, true, some, List, [], arith, sub32, ◌%◌}
use logdb.File.{read_at}
use logdb.Io.{Fd}
use logdb.Io.Quiet.{io_pread-quiet}
use logdb.Log.Layout.{connection_offset}
use logdb.Connection.{Conn}
use logdb.Heap.{null, Buffer, Heap, answered, malloc, put_cell}
use logdb.Buffer.{free_disposer, buffer_new_direct}
use logdb.Lease.{Lease, advance, lease_read}
use logdb.Lease.Transfer.{moved_by, Fits, lease_read-short}
use logdb.Iter.{Iter, iter_lease_read, iter_read_buf}

abbrev pub start_of : Lease → ℕ
start_of lease = connection_offset lease.index + lease.offset

-- All bytes of the lease are in the file, and no call on it fails.
pub record Ready (lease : Lease) (db : Fd) : Type 0 where
  pub fits : Fits lease
  pub in_file : start_of lease + lease.len ≤ db.file.size
  pub quiet : db.script ≡ []

pub lease_read-quiet :
    (n : ℕ) (lease : Lease) (db : Fd)
    → Ready lease db
    → 0 < n
    → n ≤ lease.len
    → lease_read n lease db ≡ (0, read_at (start_of lease) n db.file, moved_by n lease, db)
lease_read-quiet n lease db ready some_wanted short =
    lease_read-short n lease db short
    ∙ rw
        (io_pread-quiet n (start_of lease) db ready.quiet some_wanted
          (omega (arith, ready.in_file)))
        (ap (λ (l : Lease). (0, read_at (start_of lease) n db.file, l, db)) moved)
  where
    moved : advance ((n + 18446744073709551616 - 0) % 18446744073709551616) lease ≡ moved_by n lease
    moved = λ i. record lease { offset = at_offset i; len = at_len i }
      where
        at_offset :
            (lease.offset + (n + 18446744073709551616 - 0) % 18446744073709551616)
              % 18446744073709551616
            ≡ lease.offset + n
        at_offset = omega (arith, ready.fits.inside, short)

        at_len :
            sub32 lease.len ((n + 18446744073709551616 - 0) % 18446744073709551616) ≡ lease.len - n
        at_len = omega (arith, ready.fits.inside, short)

pub Ready-moved :
    (n : ℕ) (lease : Lease) (db : Fd) → n ≤ lease.len → Ready lease db → Ready (moved_by n lease) db
Ready-moved n lease db short ready = record {
  fits = record { inside = omega (arith, ready.fits.inside, short) };
  in_file = omega (arith, ready.in_file, short);
  quiet = ready.quiet;
}

module _ (n : ℕ) (iter : Iter) (conn : Conn) (leasing : iter.leasing ≡ true)
    (ready : Ready iter.lease conn.db) (some_wanted : 0 < n) (short : n ≤ iter.lease.len) where
  abbrev pub bytes : List ℕ
  bytes = read_at (start_of iter.lease) n conn.db.file

  abbrev pub moved_iter : Iter
  moved_iter = record iter { lease = moved_by n iter.lease }

  pub iter_lease_read-quiet :
      (h : Heap) → iter_lease_read n iter conn h ≡ answered ((0, bytes), moved_iter, conn) h
  unfolding iter_lease_read
  iter_lease_read-quiet h =
      ground (arith, leasing, lease_read-quiet n iter.lease conn.db ready some_wanted short)

  -- The buffer of the bytes that were read, and the heap with it.
  abbrev pub read_buffer : Heap → Buffer
  read_buffer h = record {
    block = record { address = h.fresh; bytes = bytes };
    len = n;
    disposer = free_disposer;
    orig = null;
    next = null;
    refcnt = 1;
  }

  abbrev pub with_buffer : Heap → Heap
  with_buffer h =
      put_cell (h.fresh + 1) (some (read_buffer h)) (record h { fresh = h.fresh + 1 + 1 })

  pub iter_read_buf-quiet :
      (h : Heap)
      → h.mallocs ≡ []
      → 0 < h.fresh
      → iter_read_buf n iter conn h ≡ answered (h.fresh + 1, moved_iter, conn) (with_buffer h)
  unfolding iter_read_buf buffer_new_direct malloc
  iter_read_buf-quiet h memory some_address =
      ground (arith, memory, iter_lease_read-quiet (record h { fresh = h.fresh + 1 }))

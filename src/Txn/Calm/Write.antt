-- ===== src/Txn/Calm/Write.antt =====
-- The write of a commit on a calm connection: the sections and the connection behind it.
use logdb.Prelude.{
  ℕ, suc, ◌+◌, ◌-◌, ◌≤◌, ◌<◌, ◌≡◌, ◌≢◌, refl, sym, ap, subst, ◌∙◌, ℤ, succeeded, List, [], arith,
  u16, length,
}
use logdb.File.{write_at}
use logdb.Io.{Fd}
use logdb.Log.Layout.{section_size, log_offset, connection_offset, encode16}
use logdb.Log.Lock.Free.{held-AllFree, FreeAgain, lock-FreeAgain}
use logdb.Connection.{Conn}
use logdb.Heap.{Ptr, null, Heap, Result, answered}
use logdb.Buffer.Holds.{Holds}
use logdb.Lease.Grant.{acquire_write}
use logdb.Lease.Acquire.{Granted, acquire_write-Granted}
use logdb.Lease.Transfer.{Fits}
use logdb.Txn.{Setting, Sent, txn_write, publish}
use logdb.Txn.Send.Whole.{all_sent, txn_write_buf-all}
use logdb.Txn.Write.{room}
use logdb.Txn.Commit.{txn_write-leased}
use logdb.Txn.Calm.{IsCalm, Left, LeftWith, publish-Left}
use logdb.Txn.Calm.Extends.{Extends, extends}

-- The write succeeds, with this connection behind it.
pub record Writes (n : ℕ) (bytes : List ℕ) (c : Conn) (h : Heap) (res : Result (ℤ × Conn))
    : Type 0 where
  pub conn : Conn
  pub returns : res ≡ answered (succeeded, conn) h
  pub extension : Extends n bytes c conn

-- On a connection with less than 2^16 sections, on which no call fails, no entry is locked and a read
-- lock is free, when nobody else is at work and there is memory, `txn_write` of a buffer with at
-- least one byte and at most a section succeeds. The bytes go to the end of one section (one that has
-- room, or a new one), which is empty if they fill it to its last byte; the others keep what they
-- hold. Afterwards no entry is locked, the read lock is given back, the log is well-formed with at
-- most one entry more, and the headers are valid.
pub txn_write-Extends :
    (set : Setting) (rounds n : ℕ) {h : Heap} {buf : Ptr} {bytes : List ℕ} (c : Conn)
    → set.rounds ≡ suc rounds
    → set.others ≡ []
    → Holds h set.fuel buf bytes
    → buf ≢ null
    → 0 < length bytes
    → length bytes ≤ section_size
    → IsCalm n c
    → n < 65536
    → Writes n bytes c h (txn_write set buf (length bytes) c h)
txn_write-Extends set rounds n {h} {buf} {bytes} c enough alone holds some_buf some_bytes fits calm
      few =
    record {
      conn = out.1;
      returns =
          txn_write-leased set buf (length bytes) c h g.lease s g.result (
            txn_write_buf-all g.lease c1.db holds some_buf inside (omega (arith, g.len))
              (ap (λ (d : Fd). d.script) g.db ∙ calm.db))
          ∙ ap (λ (k : ℤ). answered (k, out.1) h) ended.0;
      extension =
          extends n bytes c c1 out.1 g.lease again.after calm few g.choice g.db some_bytes
            again.free left;
    }
  where
    g : Granted n (length bytes) c (acquire_write set.rounds set.others (length bytes) c)
    g =
        rw (enough, alone)
          (acquire_write-Granted rounds n (length bytes) c calm.log fits calm.readers calm.memory
            (held-AllFree c.locks calm.free))

    c1 : Conn
    c1 = (acquire_write set.rounds set.others (length bytes) c).1

    s : Sent
    s = all_sent bytes g.lease c1.db

    out : ℤ × Conn
    out = publish s.lease (record c1 { db = s.db })

    inside : Fits g.lease
    inside = record {
      inside =
          omega (arith, room n bytes c c1 g.lease g.choice few calm.shorts calm.log g.db, g.len);
    }

    again : FreeAgain g.lease.index c1.locks
    again = subst (FreeAgain g.lease.index) (sym g.locks) (
        lock-FreeAgain g.lease.index c.locks
          (omega (arith, g.choice.counted.2, g.choice.counted.3, few)) calm.free)

    ended :
        (out.0 ≡ succeeded)
        × Left s.db.file
            (write_at (log_offset g.lease.index) (encode16 (u16 s.lease.offset)) c1.log.file)
            again.after
            (record c1 { db = s.db })
            out.1
    ended =
        publish-Left s.lease (record c1 { db = s.db }) again.after g.type
          (ap (λ (d : Fd). d.script) g.db ∙ calm.db) g.choice.quiet again.found out refl

    left :
        LeftWith
          (write_at (connection_offset g.lease.index + g.lease.offset) bytes c1.db.file)
          (write_at
            (log_offset g.lease.index)
            (encode16 (u16 (g.lease.offset + length bytes)))
            c1.log.file)
          again.after
          (c.readers + 1)
          c.max_readers
          c.memory
          c.nosync
          out.1
    left = record {
      db_file = ended.1.db_file;
      db_script = ended.1.db_script;
      log_file = ended.1.log_file;
      log_script = ended.1.log_script;
      locks = ended.1.locks;
      readers_left = ended.1.readers_left ∙ ap (λ (k : ℕ). k - 1) g.readers;
      room = ended.1.room ∙ g.max_readers;
      has_memory = ended.1.has_memory ∙ g.memory;
      same_flag = ended.1.same_flag ∙ g.nosync;
    }

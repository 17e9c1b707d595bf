-- ===== src/Database/Reopen.antt =====
-- A database that is closed by the last process and opened again.
use logdb.Prelude.{
  ◌+◌, ℕ, ◌≤◌, ◌≡◌, refl, ap, ◌∙◌, ℤ, succeeded, Bool, true, false, Option, none, some, [], arith,
}
use logdb.File.{File, read_at}
use logdb.Io.{Fd}
use logdb.Io.Streams.Equal.{at}
use logdb.Io.Streams.Quiet.{io_read-quiet}
use logdb.Log.Create.{Dir, created, log_create}
use logdb.Log.Merge.{Files, log_close_merge}
use logdb.Log.Merge.Quiet.{IsQuiet, Merged, log_close_merge-Merged}
use logdb.Log.Recreate.{Recreated, recreated, free, header_kept, header_inside}
use logdb.Lease.Choose.{IsLog}
use logdb.Sections.{HasShorts, stored}
use logdb.Log.Layout.{connection_offset}
use logdb.Log.Entry.{entry_at}
use logdb.Connection.{Conn}
use logdb.Disk.{Disk, opened_db, is_db_header, check_header}
use logdb.Database.{
  connected, create_or_open, set_up_log, share_log, ready, attempt, get_log, connect, new_conn,
  open_on, logdb_open, logdb_close,
}

-- The files of a connection.
abbrev pub files_of : Conn → Disk → Files
files_of conn disk = record { db = conn.db; log = conn.log; dir = disk.dir }

-- A connection whose log has `n` entries, in a process in which no call fails.
pub record IsClosable (n : ℕ) (conn : Conn) (disk : Disk) : Type 0 where
  pub files : IsQuiet n (files_of conn disk)
  pub log_script : disk.dir.script ≡ []
  pub script : disk.script ≡ []
  pub calls : disk.calls ≡ []
  pub header : is_db_header (read_at 0 6 conn.db.file) ≡ true

-- A log can be created from this descriptor.
module _ (nosync : Bool) (db : Fd) (disk : Disk) (quiet : db.script ≡ []) (calls : disk.calls ≡ [])
    (log db1 : Fd) (dir : Dir) (creates : log_create db disk.dir ≡ (created log, db1, dir)) where
  get_log-created : get_log nosync db disk ≡ (ready log, db1, record disk { dir = dir })
  unfolding get_log attempt share_log set_up_log create_or_open
  get_log-created = ground (arith, creates, calls)

module _ (nosync : Bool) (f : File) (disk : Disk) (there : disk.db ≡ some f)
    (script : disk.script ≡ []) (calls : disk.calls ≡ [])
    (header : is_db_header (read_at 0 6 f) ≡ true) (long : 6 ≤ f.size) where
  -- The descriptor behind the header.
  abbrev behind_header : Fd
  behind_header = at 6 (opened_db f disk)

  check_header-valid : check_header false (opened_db f disk) ≡ (true, behind_header)
  unfolding check_header
  check_header-valid =
      ground (
        arith,
        header,
        io_read-quiet 6 (opened_db f disk) script (omega arith) (omega (arith, long)),
      )

  logdb_open-created :
      (log db1 : Fd) (dir : Dir)
      → log_create behind_header disk.dir ≡ (created log, db1, dir)
      → logdb_open (record { create = false; nosync = nosync }) disk
        ≡ (connected (new_conn nosync log db1 disk), record disk { dir = dir })
  unfolding logdb_open open_on connect
  logdb_open-created log db1 dir creates = ground (
    arith,
    there,
    calls,
    check_header-valid,
    get_log-created nosync behind_header disk script calls log db1 dir creates,
  )

-- What the sections are after the close and the open.
pub record ReopenedAs (n : ℕ) (nosync : Bool) (conn : Conn) (before : Disk) (out : Option ℤ × Disk)
    : Type 0 where
  pub after : Disk
  pub closes : out ≡ (some succeeded, after)
  pub gone : after.dir.log ≡ none
  pub new : Conn
  pub disk : Disk
  pub opens : logdb_open (record { create = false; nosync = nosync }) after ≡ (connected new, disk)
  pub kept : ℕ
  pub fewer : kept ≤ n
  pub is : IsLog kept new.log
  pub same : (j : ℕ) → stored new.db.file new.log.file j ≡ stored conn.db.file conn.log.file j
  pub shorts : HasShorts new.log.file
  pub inside :
      (j len : ℕ)
      → entry_at new.log.file j ≡ some len
      → connection_offset j + len ≤ new.db.file.size
  pub quiet : new.db.script ≡ []
  pub unread : (new.readers ≡ 0) × (new.max_readers ≡ before.max_readers)

module _ (n : ℕ) (nosync : Bool) (conn : Conn) (disk : Disk) (is : IsClosable n conn disk) where
  abbrev fs : Files
  fs = files_of conn disk

  abbrev merge : Merged n fs (log_close_merge fs)
  merge = log_close_merge-Merged n fs is.files

  abbrev left : Disk
  left = record disk { db = some merge.after.db.file; dir = merge.after.dir }

  closes : logdb_close conn disk ≡ (some succeeded, left)
  unfolding logdb_close
  closes = ground (arith, is.calls, merge.returns)

  again_created : Recreated n fs (at 6 (opened_db merge.after.db.file left)) left.dir
  again_created =
      recreated n fs (log_close_merge fs) is.files merge (at 6 (opened_db merge.after.db.file left))
        left.dir refl is.script (free n fs (log_close_merge fs) is.files merge is.log_script)

  -- When the last process closes a database and opens it again, and no call fails, both calls
  -- succeed, the log file is gone in between, and every section then holds what it held before. The
  -- log is well-formed, with a valid header and less than 2^16 entries, each below 2^16, and the
  -- database file has a valid header.
  pub logdb_close-ReopenedAs : ReopenedAs n nosync conn disk (logdb_close conn disk)
  logdb_close-ReopenedAs =
      let r = again_created in
      record {
        after = left;
        closes = closes;
        gone = ap (λ (d : Dir). d.log) merge.dir;
        new = new_conn nosync r.log r.db left;
        disk = record left { dir = r.dir };
        opens =
            logdb_open-created nosync merge.after.db.file left refl is.script is.calls
              (ap is_db_header (header_kept n fs (log_close_merge fs) is.files merge) ∙ is.header)
              (header_inside n fs (log_close_merge fs) is.files merge) r.log r.db r.dir r.creates;
        kept = r.kept;
        fewer = r.fewer;
        is = r.is;
        same = r.same;
        shorts = r.shorts;
        inside = r.inside;
        quiet = r.quiet;
        unread = (refl, refl);
      }

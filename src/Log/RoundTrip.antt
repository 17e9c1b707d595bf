-- ===== src/Log/RoundTrip.antt =====
-- A log that is merged into the database file and created again from it stands for the same
-- sections.
use logdb.Prelude.{ℕ, ◌≤◌, ◌≡◌, refl, ap, none, []}
use logdb.Io.{Fd}
use logdb.Log.Create.{Dir, created, log_create}
use logdb.Log.Merge.{Files, Closed, closed, log_close_merge}
use logdb.Log.Merge.Quiet.{IsQuiet, Merged, log_close_merge-Merged}
use logdb.Lease.Choose.{IsLog}
use logdb.Sections.{stored}
use logdb.Log.Recreate.{recreated, free}

-- What the sections are after the merge and the creation.
pub record Reopened (n : ℕ) (fs : Files) (out : Closed × Files) : Type 0 where
  pub after : Files
  pub merges : out ≡ (closed, after)
  pub gone : after.dir.log ≡ none
  pub log : Fd
  pub db : Fd
  pub dir : Dir
  pub creates : log_create after.db after.dir ≡ (created log, db, dir)
  pub kept : ℕ
  pub fewer : kept ≤ n
  pub is : IsLog kept log
  pub same : (j : ℕ) → stored db.file log.file j ≡ stored fs.db.file fs.log.file j

reopened :
    (n : ℕ) (fs : Files) (out : Closed × Files)
    → IsQuiet n fs
    → Merged n fs out
    → fs.dir.script ≡ []
    → Reopened n fs out
reopened n fs out is mg script =
    let r =
      recreated n fs out is mg mg.after.db mg.after.dir refl mg.quiet
        (free n fs out is mg script) in
    record {
      after = mg.after;
      merges = mg.returns;
      gone = ap (λ (d : Dir). d.log) mg.dir;
      log = r.log;
      db = r.db;
      dir = r.dir;
      creates = r.creates;
      kept = r.kept;
      fewer = r.fewer;
      is = r.is;
      same = r.same;
    }

-- A merge in which no call fails removes the log file and leaves a database file from which
-- `logdb_log_create` makes a log again, with at most the entries that the old one had, and every
-- section then holds what it held before the merge. The log is well-formed, with a valid header and
-- less than 2^16 entries, each below 2^16.
pub log_close_merge-Reopened :
    (n : ℕ) (fs : Files) → IsQuiet n fs → fs.dir.script ≡ [] → Reopened n fs (log_close_merge fs)
log_close_merge-Reopened n fs is script =
    reopened n fs (log_close_merge fs) is (log_close_merge-Merged n fs is) script

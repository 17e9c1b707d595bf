-- ===== src/Disk.antt =====
-- What the process meets on the disk when it opens a database: the two paths, and the header of the
-- database file (`logdb_open` of src/logdb_connection.c).
use logdb.Prelude.{
  ℕ, ℤ, is_positive, is_failed, Bool, true, not, ◌&&◌, ◌||◌, Option, none, some, List, [], ◌∷◌,
  ◌++◌, ◌==◌, if◌then◌else◌, take, drop,
}
use logdb.File.{File, empty_file}
use logdb.Io.{Fd, Outcome}
use logdb.Io.Streams.{io_read, io_write}
use logdb.Log.Layout.{header_size, encode16, decode16}
use logdb.Log.Header.{logdb_version, same_bytes}
use logdb.Log.Create.{Dir}

-- `LOGDB_OPEN_CREATE` and `LOGDB_OPEN_NOSYNC` among the flags.
pub record Flags : Type 0 where
  pub create : Bool
  pub nosync : Bool

-- What the process meets at the two paths: the database file, what system calls on its next
-- descriptor do, the outcomes of the other calls in their order (`malloc`, `open`, `flock`,
-- `calloc` and those of pthread; after the end of the list they work), and the path of the log. A
-- new connection gets `max_readers` and whether `calloc` gives memory for locks.
pub record Disk : Type 0 where
  pub db : Option File
  pub script : List Outcome
  pub junk : ℤ
  pub calls : List Bool
  pub dir : Dir
  pub max_readers : ℕ
  pub memory : Bool

-- The next of these calls.
abbrev pub sys : Disk → Bool × Disk
sys disk = elim disk.calls [ [] ↦ (true, disk) | b ∷ bs ↦ (b, record disk { calls = bs }) ]

-- `LOGDB_MAGIC` is "LDBF"
abbrev pub db_magic : List ℕ
db_magic = 76 ∷ 68 ∷ 66 ∷ 70 ∷ []

abbrev pub db_header : List ℕ
db_header = db_magic ++ encode16 logdb_version

unfoldable pub is_db_header : List ℕ → Bool
is_db_header header =
    same_bytes (take 4 header) db_magic && (decode16 (drop 4 header) == logdb_version)

-- A descriptor that was just opened.
abbrev pub opened_db : File → Disk → Fd
opened_db f disk = record { file = f; synced = f; pos = 0; script = disk.script; junk = disk.junk }

-- `open (path, oflags, …)` with `O_CREAT` or without.
abbrev pub open_db : Bool → Disk → Option Fd × Disk
open_db create disk =
    let (works, disk') = sys disk in
    if works
    then elim disk.db [
      | some f ↦ (some (opened_db f disk), disk')
      | none ↦
          if create
          then (some (opened_db empty_file disk), record disk' { db = some empty_file })
          else (none, disk')
    ]
    else (none, disk')

-- The header is written, or read and validated.
unfoldable pub check_header : Bool → Fd → Bool × Fd
check_header create fd =
    if create
    then (let (left, fd') = io_write db_header fd in (left == 0, fd'))
    else (let (ret, header, fd') = io_read header_size fd in
        (not (is_positive ret || is_failed ret) && is_db_header header, fd'))

-- `close (fd)` of the database file.
abbrev pub close_db : Fd → Disk → Disk
close_db db disk = record disk { db = some db.file }

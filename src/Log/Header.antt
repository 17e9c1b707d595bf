-- ===== src/Log/Header.antt =====
-- The header of a log, and `logdb_log_read` of src/logdb_log.c, which reads a log from the position
-- of a descriptor.
pub mod Quiet
use logdb.Prelude.{
  ℕ, zero, suc, ◌+◌, ◌-◌, ◌%◌, ℤ, pos, is_positive, is_failed, is_zero, Bool, true, false, not,
  ◌&&◌, ◌||◌, Option, none, some, List, [], ◌∷◌, ◌++◌, ◌==◌, ltb, if◌then◌else◌, take, drop,
}
use logdb.Io.{Fd}
use logdb.Io.Streams.{io_read, seek_end, seek_current, seek_set}
use logdb.Log.Layout.{log_header_size, trailer_size, encode16, decode16}

-- `LOGDB_VERSION`
abbrev pub logdb_version : ℕ
logdb_version = 1

-- `LOGDB_LOG_MAGIC` is "LDBL"
abbrev pub log_magic : List ℕ
log_magic = 76 ∷ 68 ∷ 66 ∷ 76 ∷ []

-- The header of a log that is valid, byte by byte.
abbrev pub log_header : List ℕ
log_header = log_magic ++ encode16 logdb_version

-- `memcmp (…) == 0`
abbrev pub same_bytes : List ℕ → List ℕ → Bool
same_bytes [] [] = true
same_bytes (x ∷ xs) (y ∷ ys) = (x == y) && same_bytes xs ys
same_bytes _ _ = false

-- The tests of the magic bytes and of the version.
unfoldable pub is_log_header : List ℕ → Bool
is_log_header header =
    same_bytes (take 4 header) log_magic && (decode16 (drop 4 header) == logdb_version)

-- `logdb_log_read_mode`
pub data ReadMode : Type 0 where
  validate_only read_no_trailer read_has_trailer : ReadMode

-- What `logdb_log_read` returns: `NULL`, `(void*)1`, a block with the header and the entries, or
-- nothing, since memory was written behind the end of a block.
pub data LogRead : Type 0 where
  unreadable validated wild : LogRead
  content : List ℕ → LogRead

-- Which sizes `malloc` grants.
abbrev pub Memory : Type 0
Memory = ℕ → Bool

-- The entries, from the position `start` behind the header on. `entrysize` and the size of the
-- block are `size_t`s.
unfoldable pub read_block : Memory → ℕ → ℕ → List ℕ → Fd → LogRead × Fd
read_block memory start end header fd =
    let entrysize = (end + (18446744073709551616 - start)) % 18446744073709551616 in
    let block = (log_header_size + entrysize) % 18446744073709551616 in
    if not (memory block)
    then (unreadable, fd)
    else if ltb block log_header_size
    then (wild, fd)
    else if entrysize == 0
    then (content header, fd)
    else (let (sought, fd1) = seek_set start fd in
        let (ret, got, fd2) = io_read entrysize fd1 in
        elim sought [
          | none ↦ (unreadable, fd1)
          | some _ ↦ (if is_zero ret then content (header ++ got) else unreadable, fd2)
        ])

-- `end -= sizeof (logdb_trailer_t)`, with an `off_t` as its 64 bits.
abbrev pub end_of_entries : ReadMode → ℕ → ℕ
end_of_entries read_has_trailer end =
    (end + (18446744073709551616 - trailer_size)) % 18446744073709551616
end_of_entries _ end = end

-- The rest of `logdb_log_read` behind the test of the header.
unfoldable pub read_entries : Memory → ReadMode → List ℕ → Fd → LogRead × Fd
read_entries memory mode header fd =
    let (start, fd1) = seek_current fd in
    let (end, fd2) = seek_end fd1 in
    elim start [
      | none ↦ (unreadable, fd1)
      | some s ↦ elim end [
        | none ↦ (unreadable, fd2)
        | some e ↦ read_block memory s (end_of_entries mode e) header fd2
      ]
    ]

-- `logdb_log_read`
unfoldable pub log_read : Memory → ReadMode → Fd → LogRead × Fd
log_read memory mode fd =
    let (ret, header, fd1) = io_read log_header_size fd in
    if is_positive ret || is_failed ret || not (is_log_header header)
    then (unreadable, fd1)
    else elim mode [
      | validate_only ↦ (validated, fd1)
      | read_no_trailer ↦ read_entries memory read_no_trailer header fd1
      | read_has_trailer ↦ read_entries memory read_has_trailer header fd1
    ]

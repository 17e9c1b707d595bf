-- ===== src/Log/Header/Quiet.antt =====
-- `logdb_log_read` of a log that is in the file, when no call fails.
use logdb.Prelude.{
  ℕ, zero, suc, ◌+◌, ◌≤◌, ◌<◌, ◌≡◌, sym, ap, ◌∙◌, true, List, [], ◌++◌, append-nil, arith, ◌⊎◌,
}
use logdb.File.{read_at}
use logdb.File.Laws.{read_at-add, read_none}
use logdb.Io.{Fd}
use logdb.Io.Streams.Equal.{at}
use logdb.Io.Streams.Quiet.{io_read-quiet}
use logdb.Log.Layout.{trailer_size}
use logdb.Log.Header.{
  Memory, LogRead, content, ReadMode, read_no_trailer, read_has_trailer, is_log_header, read_block,
  read_entries, end_of_entries, log_read, validate_only,
}

-- The result is this block, and the descriptor has moved at most.
abbrev pub Reads : List ℕ → Fd → LogRead × Fd → Type 0
Reads block fd r = (q : ℕ) × (r ≡ (content block, at q fd))

module _ (memory : Memory) (fd : Fd) (quiet : fd.script ≡ [])
    (enough : (n : ℕ) → memory n ≡ true) where
  read_block-empty :
      (start : ℕ) (header : List ℕ)
      → start < 9223372036854775808
      → read_block memory start start header fd ≡ (content header, fd)
  unfolding read_block
  read_block-empty start header small = ground (arith, enough 6)

  read_block-some :
      (start k : ℕ) (header : List ℕ)
      → start + suc k ≤ fd.file.size
      → fd.file.size < 9223372036854775808
      → read_block memory start (start + suc k) header fd
        ≡ (content (header ++ read_at start (suc k) fd.file), at (start + suc k) fd)
  unfolding read_block
  read_block-some start k header in_file small = ground (
    arith,
    quiet,
    enough (6 + suc k),
    io_read-quiet (suc k) (at start fd) quiet (omega arith) in_file,
  )

  -- The entries behind the header, `k` bytes of them.
  read_block-quiet :
      (start k : ℕ) (header : List ℕ)
      → start + k ≤ fd.file.size
      → fd.file.size < 9223372036854775808
      → (q : ℕ) × (read_block memory start (start + k) header fd
          ≡ (content (header ++ read_at start k fd.file), at q fd))
  read_block-quiet start zero header in_file small = (
    fd.pos,
    ap (λ e. read_block memory start e header fd) (omega arith)
        ∙ read_block-empty start header (omega arith)
        ∙ ap (λ l. (content l, fd))
            (sym (ap (λ l. header ++ l) (read_none fd.file start) ∙ append-nil header)),
  )
  read_block-quiet start (suc k) header in_file small =
      (start + suc k, read_block-some start k header in_file small)

-- How many bytes behind the entries are left out.
abbrev pub tail : ReadMode → ℕ
tail read_has_trailer = trailer_size
tail _ = 0

module _ (memory : Memory) (fd : Fd) (quiet : fd.script ≡ [])
    (enough : (n : ℕ) → memory n ≡ true) where
  abbrev behind : Fd
  behind = at (fd.pos + 6) fd

  log_read-entries :
      (mode : ReadMode)
      → (mode ≡ read_no_trailer) ⊎ (mode ≡ read_has_trailer)
      → fd.pos + 6 ≤ fd.file.size
      → is_log_header (read_at fd.pos 6 fd.file) ≡ true
      → log_read memory mode fd ≡ read_entries memory mode (read_at fd.pos 6 fd.file) behind
  unfolding log_read
  log_read-entries mode which in_file valid =
      ground (arith, io_read-quiet 6 fd quiet (omega arith) in_file, valid)

  read_entries-quiet :
      (mode : ReadMode) (k : ℕ) (header : List ℕ)
      → fd.pos + 6 + k + tail mode ≡ fd.file.size
      → fd.file.size < 9223372036854775808
      → read_entries memory mode header behind
        ≡ read_block memory (fd.pos + 6) (fd.pos + 6 + k) header (at fd.file.size fd)
  unfolding read_entries
  read_entries-quiet mode k header size small =
      ground (arith, quiet, end_of mode fd.file.size (fd.pos + 6 + k) size small)
    where
      end_of :
          (mode : ReadMode) (n e : ℕ)
          → e + tail mode ≡ n
          → n < 9223372036854775808
          → end_of_entries mode n ≡ e
      end_of validate_only n e h k = omega arith
      end_of read_no_trailer n e h k = omega arith
      end_of read_has_trailer n e h k = omega arith

  -- A log that stands from the position of the descriptor up to the end, or up to the trailer
  -- there.
  pub log_read-quiet :
      (mode : ReadMode) (k : ℕ)
      → (mode ≡ read_no_trailer) ⊎ (mode ≡ read_has_trailer)
      → fd.pos + 6 + k + tail mode ≡ fd.file.size
      → fd.file.size < 9223372036854775808
      → is_log_header (read_at fd.pos 6 fd.file) ≡ true
      → Reads (read_at fd.pos (6 + k) fd.file) fd (log_read memory mode fd)
  log_read-quiet mode k which size small valid =
      let (q, e) =
        read_block-quiet memory (at fd.file.size fd) quiet enough (fd.pos + 6) k
          (read_at fd.pos 6 fd.file) (omega (arith, size)) small in
      (
        q,
        log_read-entries mode which (omega (arith, size)) valid
            ∙ read_entries-quiet mode k _ size small
            ∙ e
            ∙ ap (λ l. (content l, at q fd)) (sym (read_at-add fd.pos 6 k fd.file)),
      )

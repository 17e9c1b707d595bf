-- ===== src/SystemCheck.antt =====
-- system_checks/check_pwrite_O_APPEND.c: whether pwrite writes at its offset on a file that was
-- opened with O_APPEND. The calls of the platform are parameters.
use logdb.Prelude.{
  ℕ, ◌≡◌, refl, Bool, true, false, Option, none, some, List, [], ◌∷◌, if◌then◌else◌,
}
use logdb.File.{File, empty_file, read_at, write_at}
use logdb.Log.Header.{same_bytes}

-- What the platform does with the one file: `none` is -1. `open` gives the file after `O_TRUNC`.
pub record Platform : Type 0 where
  pub open_new : Option File
  pub write : List ℕ → File → Option File
  pub pwrite : List ℕ → ℕ → File → Option File
  pub fsync : File → File
  pub pread : ℕ → ℕ → File → Option (List ℕ)

-- "aaaaa" and "bbbbbbbbbb"
abbrev pub five_a : List ℕ
five_a = 97 ∷ 97 ∷ 97 ∷ 97 ∷ 97 ∷ []

abbrev pub ten_b : List ℕ
ten_b = 98 ∷ 98 ∷ 98 ∷ 98 ∷ 98 ∷ 98 ∷ 98 ∷ 98 ∷ 98 ∷ 98 ∷ []

abbrev pub expected : List ℕ
expected = 97 ∷ 97 ∷ 97 ∷ 97 ∷ 97 ∷ 98 ∷ 98 ∷ 98 ∷ 98 ∷ 98 ∷ []

-- The result of `main`, and whether it removes the file.
unfoldable pub check_main : Platform → ℕ × Bool
check_main os = elim os.open_new [
  | none ↦ (1, false)
  | some f0 ↦ elim (os.write ten_b f0) [
    | none ↦ (1, false)
    | some f1 ↦ elim (os.pwrite five_a 0 f1) [
      | none ↦ (1, false)
      | some f2 ↦ elim (os.pread 10 0 (os.fsync f2)) [
        | none ↦ (2, false)
        | some result ↦ if same_bytes result expected then (0, true) else (3, false)
      ]
    ]
  ]
]

-- On a platform whose other calls work (open gives an empty file, write appends, fsync leaves the
-- bytes as they are, pread reads at its offset), the program returns 0 and removes the file when
-- pwrite writes at its offset, and returns 3 and leaves the file when pwrite appends.
pub check_main_tells :
    (appends : Bool) (os : Platform)
    → os.open_new ≡ some empty_file
    → ((xs : List ℕ) (f : File) → os.write xs f ≡ some (write_at f.size xs f))
    → ((f : File) → os.fsync f ≡ f)
    → ((n off : ℕ) (f : File) → os.pread n off f ≡ some (read_at off n f))
    → ((xs : List ℕ) (off : ℕ) (f : File)
        → os.pwrite xs off f ≡ some (write_at (if appends then f.size else off) xs f))
    → check_main os ≡ (if appends then (3, false) else (0, true))
unfolding check_main write_at read_at
check_main_tells true os opens writes syncs reads at_end =
    rw (opens, writes, at_end, syncs, reads) refl
check_main_tells false os opens writes syncs reads at_offset =
    rw (opens, writes, at_offset, syncs, reads) refl

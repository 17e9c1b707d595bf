-- ===== src/File/Laws.antt =====
-- Reads after writes, and writes after writes.
use logdb.Prelude.{
  ℕ, zero, suc, ◌+◌, ◌-◌, ◌≤◌, ◌<◌, max, ◌≡◌, refl, ap, ◌∙◌, ◌⊎◌, inl, inr, List, [], ◌∷◌, ◌++◌,
  append-nil, arith, if◌then◌else◌, length, get_or, length-append, get_or-append_left,
  get_or-append_right, take, drop,
}
use mathlib.Core.Path.{ap₂}
use logdb.File.{File, byte, inside, write_at, read_at}

pub byte-write_at :
    (off : ℕ) (xs : List ℕ) (f : File) (i : ℕ)
    → byte (write_at off xs f) i
      ≡ (if inside off (length xs) i then get_or xs (i - off) 0 else byte f i)
unfolding write_at
byte-write_at off [] f i = ground arith
byte-write_at off (x ∷ xs) f i = ground arith

pub size-write_at :
    (off : ℕ) (xs : List ℕ) (f : File)
    → 0 < length xs
    → (write_at off xs f).size ≡ max f.size (off + length xs)
unfolding write_at
size-write_at off [] f h = absurd (omega arith)
size-write_at off (x ∷ xs) f h = refl

pub size-le-write_at : (off : ℕ) (xs : List ℕ) (f : File) → f.size ≤ (write_at off xs f).size
unfolding write_at
size-le-write_at off [] f = omega arith
size-le-write_at off (x ∷ xs) f = omega arith

file_path :
    (s t : ℕ) (a b : ℕ → ℕ)
    → s ≡ t
    → ((i : ℕ) → a i ≡ b i)
    → ◌≡◌ {A = File} (record { size = s; at = a }) (record { size = t; at = b })
file_path s t a b p q = λ k. record { size = p k; at = λ i. q i k }

overlay-append :
    (off i old : ℕ) (xs ys : List ℕ)
    → (if inside (off + length xs) (length ys) i
        then get_or ys (i - (off + length xs)) 0
        else if inside off (length xs) i
        then get_or xs (i - off) 0
        else old)
      ≡ (if inside off (length (xs ++ ys)) i then get_or (xs ++ ys) (i - off) 0 else old)
overlay-append off i old xs ys = ground (
  arith,
  length-append xs ys,
  get_or-append_left xs ys (i - off) 0,
  get_or-append_right xs ys (i - off) (i - (off + length xs)) 0,
)

-- Two adjacent writes are one.
pub write_at-append :
    (off : ℕ) (xs ys : List ℕ) (f : File)
    → write_at (off + length xs) ys (write_at off xs f) ≡ write_at off (xs ++ ys) f
write_at-append off [] ys f = unfold write_at in ap (λ o. write_at o ys f) (omega arith)
write_at-append off (x ∷ xs) [] f = unfold write_at in rw append-nil
write_at-append off (x ∷ xs) (y ∷ ys) f =
    unfold write_at in
    file_path _ _ _ _ (omega (arith, length-append xs (y ∷ ys))) λ i.
      ground (arith, overlay-append off i (byte f i) (x ∷ xs) (y ∷ ys), length-append xs (y ∷ ys))

-- What was written is read back.
pub byte-write_at_in :
    (off j : ℕ) (xs : List ℕ) (f : File)
    → j < length xs
    → byte (write_at off xs f) (off + j) ≡ get_or xs j 0
byte-write_at_in off j xs f h =
    rw byte-write_at (ground (arith, ap (λ k. get_or xs k 0) (shift off j)))
  where
    shift : (a b : ℕ) → a + b - a ≡ b
    shift a b = omega arith

pub byte-write_at_out :
    (off i : ℕ) (xs : List ℕ) (f : File)
    → (i < off) ⊎ (off + length xs ≤ i)
    → byte (write_at off xs f) i ≡ byte f i
byte-write_at_out off i xs f (inl h) = rw byte-write_at (ground arith)
byte-write_at_out off i xs f (inr h) = rw byte-write_at (ground arith)

pub read_at-ext :
    (off n : ℕ) (f g : File)
    → ((i : ℕ) → off ≤ i → i < off + n → byte f i ≡ byte g i)
    → read_at off n f ≡ read_at off n g
unfolding read_at
read_at-ext off zero f g h = refl
read_at-ext off (suc n) f g h =
    ap₂ ◌∷◌ (h off (omega arith) (omega arith))
      (read_at-ext (off + 1) n f g (λ i p q. h i (omega arith) (omega arith)))

pub length-read_at : (off n : ℕ) (f : File) → length (read_at off n f) ≡ n
unfolding read_at
length-read_at off zero f = refl
length-read_at off (suc n) f = ap suc (length-read_at (off + 1) n f)

pub read_at-add :
    (off m n : ℕ) (f : File) → read_at off (m + n) f ≡ read_at off m f ++ read_at (off + m) n f
unfolding read_at
read_at-add off zero n f = ap₂ (λ o k. read_at o k f) (omega arith) (omega arith)
read_at-add off (suc m) n f = rw (suc-add m n) (
    ap (λ l. byte f off ∷ l)
      (read_at-add (off + 1) m n f
        ∙ ap (λ o. read_at (off + 1) m f ++ read_at o n f) (omega arith)))
  where
    suc-add : (a b : ℕ) → suc a + b ≡ suc (a + b)
    suc-add a b = omega arith

-- A read of bytes that are known one by one.
pub read_at-eq :
    (off : ℕ) (xs : List ℕ) (f : File)
    → ((j : ℕ) → j < length xs → byte f (off + j) ≡ get_or xs j 0)
    → read_at off (length xs) f ≡ xs
unfolding read_at
read_at-eq off [] f h = refl
read_at-eq off (x ∷ xs) f h =
    ap₂ ◌∷◌ (ap (byte f) (omega arith) ∙ h 0 (omega arith))
      (read_at-eq (off + 1) xs f (λ j p. ap (byte f) (omega arith) ∙ h (suc j) (omega arith)))

pub read_at-write_at :
    (off : ℕ) (xs : List ℕ) (f : File) → read_at off (length xs) (write_at off xs f) ≡ xs
read_at-write_at off xs f =
    read_at-eq off xs (write_at off xs f) (λ j p. byte-write_at_in off j xs f p)

-- Bytes before those that are written.
pub read_at-write_at_before :
    (off n start : ℕ) (xs : List ℕ) (f : File)
    → off + n ≤ start
    → read_at off n (write_at start xs f) ≡ read_at off n f
read_at-write_at_before off n start xs f before =
    read_at-ext off n (write_at start xs f) f
      (λ i p q. byte-write_at_out start i xs f (inl (omega (arith, q, before))))

pub read_none : (f : File) (off : ℕ) → read_at off 0 f ≡ []
unfolding read_at
read_none f off = refl

-- The list that a read delivers.
pub get_or-read_at :
    (i n off : ℕ) (f : File) → i < n → get_or (read_at off n f) i 0 ≡ byte f (off + i)
unfolding read_at
get_or-read_at i zero off f h = absurd (omega arith)
get_or-read_at zero (suc n) off f h = ap (byte f) (omega arith)
get_or-read_at (suc i) (suc n) off f h =
    get_or-read_at i n (off + 1) f (omega arith) ∙ ap (byte f) (omega arith)

pub take-read_at : (k n off : ℕ) (f : File) → k ≤ n → take k (read_at off n f) ≡ read_at off k f
unfolding read_at
take-read_at zero n off f h = refl
take-read_at (suc k) zero off f h = absurd (omega arith)
take-read_at (suc k) (suc n) off f h =
    ap (λ l. byte f off ∷ l) (take-read_at k n (off + 1) f (omega arith))

pub drop-read_at :
    (k m n off : ℕ) (f : File) → n ≡ k + m → drop k (read_at off n f) ≡ read_at (off + k) m f
unfolding read_at
drop-read_at zero m n off f e = ap₂ (λ o l. read_at o l f) (omega arith) (omega (arith, e))
drop-read_at (suc k) m zero off f e = absurd (omega (arith, e))
drop-read_at (suc k) m (suc n) off f e =
    drop-read_at k m n (off + 1) f (omega (arith, e)) ∙ ap (λ o. read_at o m f) (omega arith)

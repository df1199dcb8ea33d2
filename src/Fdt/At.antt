-- ===== src/Fdt/At.antt =====
-- crates/k0-boot/src/fdt.rs: reads at a place where it is known what the blob has from there on.
use k.Base.{
  length, ℕ, zero, suc, ◌+◌, ◌-◌, ◌^◌, ◌≤◌, ◌<◌, ◌≡◌, refl, sym, ap, ◌∙◌, arith, true, false, ◌&&◌,
  leb, ◌==◌, List, [], ◌∷◌, ◌++◌, some, length-append,
}
use k.Base.Bytes.{
  take, drop, slice, get_range, length-drop, take-append, drop-append, from_be, from_be_after,
  to_be, find_zero,
}
use k.Fdt.{ok, index_range, wrapping_add, be32, be64}

drop-nil : (n : ℕ) → drop {A = ℕ} n [] ≡ []
drop-nil zero = refl
drop-nil (suc n) = refl

drop-add : (m n : ℕ) (xs : List ℕ) → drop (m + n) xs ≡ drop n (drop m xs)
drop-add zero n xs = ap (λ t. drop t xs) (omega arith)
drop-add (suc m) n [] = drop-nil (suc m + n) ∙ sym (drop-nil n)
drop-add (suc m) n (x ∷ xs) =
    ap (λ t. drop t (x ∷ xs)) {y = suc (m + n)} (omega arith) ∙ drop-add m n xs

-- From `off` on, `blob` is `xs`.
abbrev pub At : (blob : List ℕ) → (off : ℕ) → (xs : List ℕ) → Type 0
At blob off xs = drop off blob ≡ xs

pub At-step :
    (blob : List ℕ) (off : ℕ) (xs rest : List ℕ)
    → At blob off (xs ++ rest)
    → At blob (off + length xs) rest
At-step blob off xs rest h =
    drop-add off (length xs) blob ∙ (ap (drop (length xs)) h ∙ drop-append xs rest)

pub At-length :
    (blob : List ℕ) (off : ℕ) (xs : List ℕ)
    → At blob off xs
    → 0 < length xs
    → off + length xs ≡ length blob
At-length blob off xs h some_byte = omega (arith, length-drop off blob, ap length h)

slice-At :
    (blob : List ℕ) (off : ℕ) (xs rest : List ℕ)
    → At blob off (xs ++ rest)
    → slice blob off (off + length xs) ≡ xs
slice-At blob off xs rest h =
    ap (λ t. take t (drop off blob)) {x = off + length xs - off} (omega arith)
    ∙ (ap (take (length xs)) h ∙ take-append xs rest)

module _ (blob : List ℕ) (off : ℕ) (xs rest : List ℕ) (h : At blob off (xs ++ rest))
    (some_byte : 0 < length (xs ++ rest)) where
  inside : off + length xs ≤ length blob
  inside = omega (arith, At-length blob off (xs ++ rest) h some_byte, length-append xs rest)

  pub get_range-At : get_range blob off (off + length xs) ≡ some xs
  unfolding get_range
  get_range-At = rw (tests, slice-At blob off xs rest h) refl
    where
      tests : (leb off (off + length xs) && leb (off + length xs) (length blob)) ≡ true
      tests = ground (arith, inside)

  pub index_range-At : index_range blob off (off + length xs) ≡ ok xs
  unfolding index_range
  index_range-At = rw (first, second, slice-At blob off xs rest h) refl
    where
      first : leb off (off + length xs) ≡ true
      first = ground arith

      second : leb (off + length xs) (length blob) ≡ true
      second = ground (arith, inside)

pub from_be-to_be4 : (v : ℕ) → v < 2 ^ 32 → from_be (to_be 4 v) ≡ v
unfolding from_be_after to_be
from_be-to_be4 v h = omega arith

from_be-to_be8 : (v : ℕ) → v < 2 ^ 64 → from_be (to_be 8 v) ≡ v
unfolding from_be_after to_be
from_be-to_be8 v h = omega arith

pub length-to_be : (n v : ℕ) → length (to_be n v) ≡ n
unfolding to_be
length-to_be zero v = refl
length-to_be (suc n) v = omega (arith, length-to_be n v)

module _ (blob : List ℕ) (small : length blob < 2 ^ 63) (off v : ℕ) (rest : List ℕ) where
  pub be32-At : v < 2 ^ 32 → At blob off (to_be 4 v ++ rest) → be32 blob off ≡ ok v
  unfolding be32
  be32-At fits h = rw (found, from_be-to_be4 v fits) refl
    where
      some_byte : 0 < length (to_be 4 v ++ rest)
      some_byte = omega (arith, length-append (to_be 4 v) rest, length-to_be 4 v)

      place : wrapping_add off 4 ≡ off + length (to_be 4 v)
      place = omega (
        arith,
        length-to_be 4 v,
        At-length blob off (to_be 4 v ++ rest) h some_byte,
        length-append (to_be 4 v) rest,
      )

      found : get_range blob off (wrapping_add off 4) ≡ some (to_be 4 v)
      found = ap (get_range blob off) place ∙ get_range-At blob off (to_be 4 v) rest h some_byte

  pub be64-At : v < 2 ^ 64 → At blob off (to_be 8 v ++ rest) → be64 blob off ≡ ok v
  unfolding be64
  be64-At fits h = rw (found, from_be-to_be8 v fits) refl
    where
      some_byte : 0 < length (to_be 8 v ++ rest)
      some_byte = omega (arith, length-append (to_be 8 v) rest, length-to_be 8 v)

      place : wrapping_add off 8 ≡ off + length (to_be 8 v)
      place = omega (
        arith,
        length-to_be 8 v,
        At-length blob off (to_be 8 v ++ rest) h some_byte,
        length-append (to_be 8 v) rest,
      )

      found : get_range blob off (wrapping_add off 8) ≡ some (to_be 8 v)
      found = ap (get_range blob off) place ∙ get_range-At blob off (to_be 8 v) rest h some_byte

-- No byte is 0.
abbrev pub NoZero : List ℕ → Type 0
NoZero [] = Unit
NoZero (b ∷ bs) = (0 < b) × NoZero bs

pub find_zero-name :
    (name rest : List ℕ) → NoZero name → find_zero (name ++ (0 ∷ rest)) ≡ some (length name)
unfolding find_zero
find_zero-name [] rest h = refl
find_zero-name (b ∷ bs) rest (some_bit, h) = rw (other, find_zero-name bs rest h) refl
  where
    other : (b == 0) ≡ false
    other = ground arith

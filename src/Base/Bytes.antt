-- ===== src/Base/Bytes.antt =====
-- Slices of bytes, and what `core` and `alloc` give for them: ranges, big-endian numbers, `position`.
use Prim.Native.Nat.{ℕ, zero, suc, ◌+◌, ◌-◌, ◌*◌, ◌/◌, ◌%◌, ◌^◌, ◌≤◌, ◌<◌}
use Prim.Native.Char.{code}
use Prim.Native.String.{String}
use mathlib.Core.Path.{◌≡◌, refl, ap}
use mathlib.Core.Bool.{Bool, true, false, ◌&&◌}
use mathlib.Core.Option.{Option, none, some}
use mathlib.Core.List.{List, [], ◌∷◌, ◌++◌}
use native.Mathlib.Omega.{arith}
use k.Base.Tests.{leb, ◌==◌, if◌then◌else◌}
use k.Base.Lists.{length}

abbrev pub IsByte : ℕ → Type 0
IsByte b = b < 256

module _ {ℓ} {A : Type ℓ} where
  abbrev pub take : ℕ → List A → List A
  take zero xs = []
  take (suc n) [] = []
  take (suc n) (x ∷ xs) = x ∷ take n xs

  abbrev pub drop : ℕ → List A → List A
  drop zero xs = xs
  drop (suc n) [] = []
  drop (suc n) (x ∷ xs) = drop n xs

  abbrev pub slice : List A → (from to : ℕ) → List A
  slice xs from to = take (to - from) (drop from xs)

  -- `xs.get(from..to)`
  unfoldable pub get_range : List A → (from to : ℕ) → Option (List A)
  get_range xs from to = if leb from to && leb to (length xs) then some (slice xs from to) else none

  pub length-drop : (n : ℕ) (xs : List A) → length (drop n xs) ≡ length xs - n
  length-drop zero xs = omega arith
  length-drop (suc n) [] = omega arith
  length-drop (suc n) (x ∷ xs) = omega (arith, length-drop n xs)

  pub length-take : (n : ℕ) (xs : List A) → n ≤ length xs → length (take n xs) ≡ n
  length-take zero xs h = refl
  length-take (suc n) [] h = absurd (omega arith)
  length-take (suc n) (x ∷ xs) h = omega (arith, length-take n xs (omega arith))

  pub length-slice :
      (xs : List A) (from to : ℕ)
      → from ≤ to
      → to ≤ length xs
      → length (slice xs from to) ≡ to - from
  length-slice xs from to h k =
      length-take (to - from) (drop from xs) (omega (arith, length-drop from xs))

  pub take-append : (xs ys : List A) → take (length xs) (xs ++ ys) ≡ xs
  take-append [] ys = refl
  take-append (x ∷ xs) ys = ap (λ t. x ∷ t) (take-append xs ys)

  pub drop-append : (xs ys : List A) → drop (length xs) (xs ++ ys) ≡ ys
  drop-append [] ys = refl
  drop-append (x ∷ xs) ys = drop-append xs ys

-- `iter().position(|&b| b == 0)`
abbrev pub and_one : Option ℕ → Option ℕ
and_one none = none
and_one (some i) = some (suc i)

unfoldable pub find_zero : List ℕ → Option ℕ
find_zero [] = none
find_zero (b ∷ bs) = if b == 0 then some 0 else and_one (find_zero bs)

pub find_zero-lt : (bs : List ℕ) (i : ℕ) → find_zero bs ≡ some i → i < length bs
unfolding find_zero
find_zero-lt [] i h = absurd (cc)
find_zero-lt (b ∷ bs) i h = found (find_zero bs) (λ j e. find_zero-lt bs j e) h
  where
    found :
        (o : Option ℕ)
        → ((j : ℕ) → o ≡ some j → j < length bs)
        → (if b == 0 then some 0 else and_one o) ≡ some i
        → i < suc (length bs)
    found none below e = ground arith
    found (some j) below e = ground (arith, below j refl)

-- The number that bytes stand for, the most significant first, after the digits `acc`.
unfoldable pub from_be_after : (acc : ℕ) → List ℕ → ℕ
from_be_after acc [] = acc
from_be_after acc (b ∷ bs) = from_be_after (acc * 256 + b) bs

-- `from_be_bytes`
abbrev pub from_be : List ℕ → ℕ
from_be = from_be_after 0

-- `to_be_bytes`, in `n` bytes.
unfoldable pub to_be : (n v : ℕ) → List ℕ
to_be zero v = []
to_be (suc n) v = (v / 256 ^ n % 256) ∷ to_be n v

-- `a == b` on slices, and `starts_with`.
unfoldable pub bytes_eq : List ℕ → List ℕ → Bool
bytes_eq [] [] = true
bytes_eq [] (y ∷ ys) = false
bytes_eq (x ∷ xs) [] = false
bytes_eq (x ∷ xs) (y ∷ ys) = x == y && bytes_eq xs ys

unfoldable pub starts_with : List ℕ → (prefix : List ℕ) → Bool
starts_with xs [] = true
starts_with [] (y ∷ ys) = false
starts_with (x ∷ xs) (y ∷ ys) = x == y && starts_with xs ys

-- `b"..."`, a text of ASCII.
abbrev pub codes : String → List ℕ
codes String.[] = []
codes (String.◌∷◌ c s) = code c ∷ codes s

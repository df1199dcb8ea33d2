-- ===== src/Base/Words.antt =====
-- 64-bit words: checked addition, complement, and the laws of `&` and `|` that the code relies on.
use Prim.Native.Nat.{
  ℕ, zero, suc, ◌+◌, ◌-◌, ◌*◌, ◌/◌, ◌%◌, ◌^◌, ◌≤◌, min, max, bit_and, bit_or, digits,
  bit_and-bitwise, bit_or-bitwise,
}
use mathlib.Core.Path.{◌≡◌, refl, ap, ◌∙◌}
use mathlib.Core.Option.{Option, none, some}
use mathlib.Core.Logic.{inl, inr}
use native.Mathlib.Omega.{arith}
use k.Base.Tests.{ltb, if◌then◌else◌, Bool-cases}

abbrev pub word_size : ℕ
word_size = 2 ^ 64

-- `a.checked_add(b)` on `u64` and `usize`.
abbrev pub checked_add : ℕ → ℕ → Option ℕ
checked_add a b = if ltb (a + b) word_size then some (a + b) else none

-- `!a`
abbrev pub complement : ℕ → ℕ
complement a = word_size - 1 - a

-- The definitions by binary digits: rounds beyond the first argument change nothing.
module _ (base : ℕ → ℕ) (op : ℕ → ℕ → ℕ) where
  one_more : (n a b : ℕ) → a ≤ n → digits base op (suc n) a b ≡ digits base op n a b
  one_more zero zero b small = refl
  one_more zero (suc a) b small = absurd (omega arith)
  one_more (suc n) zero b small = refl
  one_more (suc n) (suc a) b small = omega (arith, one_more n (suc a / 2) (b / 2) (omega arith))

  more : (m n a b : ℕ) → a ≤ n → n ≤ m → digits base op m a b ≡ digits base op n a b
  more zero n a b small le = ap (λ t. digits base op t a b) {x = 0} (omega arith)
  more (suc m) n a b small le = elim (Bool-cases (ltb n (suc m))) [
    | inl below ↦ one_more m a b (ground arith) ∙ more m n a b small (ground arith)
    | inr same ↦ ap (λ t. digits base op t a b) {x = suc m} (ground arith)
  ]

  -- After the lowest digit, `a` rounds are as good as one per unit of the half.
  half : (a b : ℕ) → digits base op a (suc a / 2) b ≡ digits base op (suc a / 2) (suc a / 2) b
  half a b = more a (suc a / 2) (suc a / 2) b (omega arith) (omega arith)

pub bit_or_step : (a b : ℕ) → bit_or a b ≡ bit_or (a / 2) (b / 2) * 2 + max (a % 2) (b % 2)
bit_or_step a b = lowest a
  where
    lowest : (n : ℕ) → bit_or n b ≡ bit_or (n / 2) (b / 2) * 2 + max (n % 2) (b % 2)
    lowest zero = omega (arith, bit_or-bitwise 0 b, bit_or-bitwise 0 (b / 2))
    lowest (suc n) = omega (
      arith,
      half (λ d. d) max n (b / 2),
      bit_or-bitwise (suc n) b,
      bit_or-bitwise (suc n / 2) (b / 2),
    )

pub bit_and_step : (a b : ℕ) → bit_and a b ≡ bit_and (a / 2) (b / 2) * 2 + min (a % 2) (b % 2)
bit_and_step a b = lowest a
  where
    lowest : (n : ℕ) → bit_and n b ≡ bit_and (n / 2) (b / 2) * 2 + min (n % 2) (b % 2)
    lowest zero = omega (arith, bit_and-bitwise 0 b, bit_and-bitwise 0 (b / 2))
    lowest (suc n) = omega (
      arith,
      half (λ _. zero) min n (b / 2),
      bit_and-bitwise (suc n) b,
      bit_and-bitwise (suc n / 2) (b / 2),
    )

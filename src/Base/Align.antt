-- ===== src/Base/Align.antt =====
-- Masks as arithmetic: `&` with low and with high bits, `|` of disjoint fields, alignment.
use Prim.Native.Nat.{ℕ, zero, suc, ◌+◌, ◌-◌, ◌*◌, ◌/◌, ◌%◌, ◌^◌, ◌<◌, ◌≤◌, bit_and, bit_or}
use Prim.Native.Nat.add
use mathlib.Core.Path.{◌≡◌, refl, sym, ap, ◌∙◌}
use native.Mathlib.Omega.{arith}
use native.Mathlib.Nat.{pow-suc, one-le-pow, mod-eq_of_lt}
use k.Base.Words.{bit_and_step, bit_or_step, complement, word_size}

-- With no bit on the right: the halves of `a` down to 0, at most `n` of them.
halves : (n a : ℕ) → a ≤ n → (bit_or a 0 ≡ a) × (bit_and a 0 ≡ 0)
halves n zero small = (refl, refl)
halves zero (suc a) small = absurd (omega arith)
halves (suc n) (suc a) small =
    let (high_or, high_and) = halves n (suc a / 2) (omega arith) in
    let step_or = bit_or_step (suc a) 0 in
    let step_and = bit_and_step (suc a) 0 in (omega arith, omega arith)

pub bit_or-zero : (a : ℕ) → bit_or a 0 ≡ a
bit_or-zero a = (halves a a (omega arith)).0

pub bit_and-zero : (a : ℕ) → bit_and a 0 ≡ 0
bit_and-zero a = (halves a a (omega arith)).1

shift_suc : (q k : ℕ) → q * 2 ^ suc k ≡ 2 * (q * 2 ^ k)
shift_suc q k = omega (arith, ap (λ (t : ℕ). q * t) (pow-suc 2 k))

-- A low field beside a shifted one.
pub bit_or_fields : (k q r : ℕ) → r < 2 ^ k → bit_or (q * 2 ^ k) r ≡ q * 2 ^ k + r
bit_or_fields zero high low fits = ground (arith, bit_or-zero high)
bit_or_fields (suc k) q r fits = ground (
  arith,
  bit_or_step (q * 2 ^ suc k) r,
  shift_suc q k,
  pow-suc 2 k,
  bit_or_fields k q (r / 2) (omega (arith, pow-suc 2 k)),
)

-- A mask whose low `k` bits are clear reads what stands above them.
pub bit_and_shifted :
    (k q r m : ℕ) → r < 2 ^ k → bit_and (q * 2 ^ k + r) (m * 2 ^ k) ≡ bit_and q m * 2 ^ k
bit_and_shifted zero q r m fits = ground (
  arith,
  ap (λ t. bit_and t (m * 1)) {x = q * 1 + r} {y = q} (omega arith),
  ap (bit_and q) {x = m * 1} {y = m} (omega arith),
)
bit_and_shifted (suc k) q r m fits = ground (
  arith,
  bit_and_step (q * 2 ^ suc k + r) (m * 2 ^ suc k),
  shift_suc q k,
  shift_suc m k,
  shift_suc (bit_and q m) k,
  pow-suc 2 k,
  bit_and_shifted k q (r / 2) m (omega (arith, pow-suc 2 k)),
)

-- A mask of `k` low bits is the remainder.
bit_and_fields : (k q r : ℕ) → r < 2 ^ k → bit_and (q * 2 ^ k + r) (2 ^ k - 1) ≡ r
bit_and_fields zero q r fits = ground (arith, bit_and-zero (q * 1 + r))
bit_and_fields (suc k) q r fits = ground (
  arith,
  bit_and_step (q * 2 ^ suc k + r) (2 ^ suc k - 1),
  shift_suc q k,
  pow-suc 2 k,
  one-le-pow k 2,
  bit_and_fields k q (r / 2) (omega (arith, pow-suc 2 k)),
)

pub bit_and_mask : (k a : ℕ) → bit_and a (2 ^ k - 1) ≡ a % 2 ^ k
bit_and_mask k a = ground (arith, one-le-pow k 2, bit_and_fields k (a / 2 ^ k) (a % 2 ^ k))

div_mod_eq : (a b : ℕ) → 0 < b → a ≡ a / b * b + a % b
div_mod_eq a b h = grind arith

-- The high bits of a word that has none above the mask: rounding down.
pub bit_and_high :
    (j k a : ℕ) → a / 2 ^ k < 2 ^ j → bit_and a ((2 ^ j - 1) * 2 ^ k) ≡ a / 2 ^ k * 2 ^ k
bit_and_high j k a fits =
    ap (λ t. bit_and t ((2 ^ j - 1) * 2 ^ k)) (div_mod_eq a (2 ^ k) (one-le-pow k 2 (omega arith)))
    ∙ bit_and_shifted k (a / 2 ^ k) (a % 2 ^ k) (2 ^ j - 1) (grind (arith, one-le-pow))
    ∙ ap (λ t. t * 2 ^ k) (bit_and_mask j (a / 2 ^ k) ∙ mod-eq_of_lt fits)

two_pow_add : (j k : ℕ) → 2 ^ (j + k) ≡ 2 ^ j * 2 ^ k
two_pow_add zero k = omega (arith, ap (λ t. 2 ^ t) (add.zero k))
two_pow_add (suc j) k = omega (
  arith,
  ap (λ t. 2 ^ t) (add.suc j k),
  pow-suc 2 (j + k),
  two_pow_add j k,
  ap (λ (t : ℕ). t * 2 ^ k) (pow-suc 2 j),
)

pred_mul : (a b : ℕ) → 0 < a → (a - 1) * b + b ≡ a * b
pred_mul zero b h = elim h [ ]
pred_mul (suc a) b h = omega (arith, ap (λ (t : ℕ). t * b) {x = suc a - 1} {y = a} (omega arith))

-- `a & !(granule - 1)` rounds a word down to a multiple of a granule that is a power of two.
pub align_down :
    (j k a : ℕ)
    → j + k ≡ 64
    → a < word_size
    → bit_and a (complement (2 ^ k - 1)) ≡ a / 2 ^ k * 2 ^ k
align_down j k a bits small = ap (bit_and a) mask ∙ bit_and_high j k a (grind (arith, size))
  where
    size : word_size ≡ 2 ^ j * 2 ^ k
    size = ap (λ t. 2 ^ t) (sym bits) ∙ two_pow_add j k

    mask : complement (2 ^ k - 1) ≡ (2 ^ j - 1) * 2 ^ k
    mask = omega (
      arith,
      size,
      one-le-pow k 2 (omega arith),
      pred_mul (2 ^ j) (2 ^ k) (one-le-pow j 2 (omega arith)),
    )

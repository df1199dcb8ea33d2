-- ===== src/Mm/Bits.antt =====
-- Single bits of a descriptor.
use k.Base.{
  ◌≤◌, ◌<◌, min, bit_and, ℕ, zero, suc, ◌*◌, ◌/◌, ◌%◌, ◌^◌, ◌≡◌, ap, ◌∙◌, sym, arith, max, bit_or,
}
use native.Mathlib.Nat.{pow-suc, div-div-eq-div-mul}
use k.Base.Words.{bit_or_step, bit_and_step}
use k.Base.Align.{bit_or-zero, bit_and-zero, bit_and_high}
use k.Mm.{Platform, virt, apple, granule, addr_mask}

-- Bit `i` of a word.
abbrev pub bit : (i a : ℕ) → ℕ
bit i a = a / 2 ^ i % 2

bit-suc : (i a : ℕ) → bit (suc i) a ≡ bit i (a / 2)
bit-suc i a =
    ap (λ t. a / t % 2) {x = 2 ^ suc i} {y = 2 * 2 ^ i} (omega (arith, pow-suc 2 i))
    ∙ ap (λ t. t % 2) (sym (div-div-eq-div-mul a 2 (2 ^ i)))

half_or : (a b : ℕ) → bit_or a b / 2 ≡ bit_or (a / 2) (b / 2)
half_or a b = omega (arith, bit_or_step a b)

-- `|` works bit by bit.
pub bit-bit_or : (i a b : ℕ) → bit i (bit_or a b) ≡ max (bit i a) (bit i b)
bit-bit_or zero a b = omega (arith, bit_or_step a b)
bit-bit_or (suc i) a b = omega (
  arith,
  bit-suc i (bit_or a b),
  bit-suc i a,
  bit-suc i b,
  ap (bit i) (half_or a b),
  bit-bit_or i (a / 2) (b / 2),
)

half_and : (a b : ℕ) → bit_and a b / 2 ≡ bit_and (a / 2) (b / 2)
half_and a b = omega (arith, bit_and_step a b)

low_and : (a b : ℕ) → bit_and a b % 2 ≡ min (a % 2) (b % 2)
low_and a b = omega (arith, bit_and_step a b)

low_or : (a b : ℕ) → bit_or a b % 2 ≡ max (a % 2) (b % 2)
low_or a b = omega (arith, bit_or_step a b)

distribute :
    (n m : ℕ) → m ≤ n → (a b : ℕ) → bit_and (bit_or a b) m ≡ bit_or (bit_and a m) (bit_and b m)
distribute n zero small a b = omega (
  arith,
  bit_and-zero (bit_or a b),
  ap (λ t. bit_or t (bit_and b 0)) (bit_and-zero a),
  ap (λ t. bit_or 0 t) (bit_and-zero b),
  bit_or-zero 0,
)
distribute zero (suc m) small a b = absurd (omega arith)
distribute (suc n) (suc m) small a b = omega (
  arith,
  bit_and_step (bit_or a b) (suc m),
  bit_or_step (bit_and a (suc m)) (bit_and b (suc m)),
  ap (λ t. bit_and t (suc m / 2)) (half_or a b),
  ap (λ t. bit_or t (bit_and b (suc m) / 2)) (half_and a (suc m)),
  ap (λ t. bit_or (bit_and (a / 2) (suc m / 2)) t) (half_and b (suc m)),
  distribute n (suc m / 2) (omega arith) (a / 2) (b / 2),
  low_and a (suc m),
  low_and b (suc m),
  low_or a b,
)

-- The mask keeps the address of a granule below 2 ^ 48.
kept_address :
    (p : Platform) (pa : ℕ) → pa % granule p ≡ 0 → pa < 2 ^ 48 → bit_and pa (addr_mask p) ≡ pa
kept_address virt pa aligned small = omega (arith, bit_and_high 36 12 pa (omega arith))
kept_address apple pa aligned small = omega (arith, bit_and_high 34 14 pa (omega arith))

-- The address in a descriptor whose other bits are outside of the mask.
pub masked_address :
    (p : Platform) (pa attributes : ℕ)
    → pa % granule p ≡ 0
    → pa < 2 ^ 48
    → bit_and attributes (addr_mask p) ≡ 0
    → bit_and (bit_or pa attributes) (addr_mask p) ≡ pa
masked_address p pa attributes aligned small outside =
    distribute (addr_mask p) (addr_mask p) (omega arith) pa attributes
    ∙ ap (bit_or (bit_and pa (addr_mask p))) outside
    ∙ bit_or-zero (bit_and pa (addr_mask p))
    ∙ kept_address p pa aligned small

-- ===== src/Fdt/Seeds.antt =====
-- crates/k0-boot/src/fdt.rs: the seeds that push_entropy keeps.
use k.Base.{
  length, ℕ, zero, suc, ◌+◌, ◌-◌, ◌≤◌, ◌<◌, ◌≡◌, refl, sym, ap, ◌∙◌, arith, true, false, ◌&&◌, ltb,
  leb, if◌then◌else◌, List, [], ◌∷◌, ◌++◌, Bool-cases, inl, inr, min,
}
use mathlib.Core.List.{append_assoc, append-nil}
use k.Base.Bytes.{take}
use k.Fdt.{MemRegion, BootInfo, prefix, max_entropy}
use k.Fdt.Reg.{push_entropy, byte_at}
use k.Fdt.Shows.{Shows, Gives, length-prefix}

prefix-cong :
    {A : Type 0} (f g : ℕ → A) (n : ℕ) → ((i : ℕ) → i < n → f i ≡ g i) → prefix f n ≡ prefix g n
unfolding prefix
prefix-cong f g zero h = refl
prefix-cong f g (suc n) h =
    rw (prefix-cong f g n (λ i below. h i (omega arith)), h n (omega arith)) refl

prefix-add :
    {A : Type 0} (f : ℕ → A) (a n : ℕ) → prefix f (a + n) ≡ prefix f a ++ prefix (λ i. f (a + i)) n
unfolding prefix
prefix-add f a zero =
    ap (prefix f) {x = a + 0} {y = a} (omega arith) ∙ sym (append-nil (prefix f a))
prefix-add f a (suc n) =
    ap (prefix f) {x = a + suc n} {y = suc (a + n)} (omega arith)
    ∙ (ap (λ t. t ++ (f (a + n) ∷ [])) (prefix-add f a n)
        ∙ append_assoc (prefix f a) (prefix (λ i. f (a + i)) n) (f (a + n) ∷ []))

take-snoc : (v : List ℕ) (n : ℕ) → n < length v → take (suc n) v ≡ take n v ++ (byte_at v n ∷ [])
take-snoc [] n h = absurd (omega arith)
take-snoc (x ∷ xs) zero h = refl
take-snoc (x ∷ xs) (suc n) h = ap (λ t. x ∷ t) (take-snoc xs n (omega arith))

prefix-take : (v : List ℕ) (n : ℕ) → n ≤ length v → prefix (byte_at v) n ≡ take n v
unfolding prefix
prefix-take v zero h = refl
prefix-take v (suc n) h =
    ap (λ t. t ++ (byte_at v n ∷ [])) (prefix-take v n (omega arith))
    ∙ sym (take-snoc v n (omega arith))

take-all : (v : List ℕ) (k : ℕ) → length v ≤ k → take k v ≡ v
take-all [] zero h = refl
take-all [] (suc k) h = refl
take-all (x ∷ xs) zero h = absurd (omega arith)
take-all (x ∷ xs) (suc k) h = ap (λ t. x ∷ t) (take-all xs k (omega arith))

take-min : (v : List ℕ) (k : ℕ) → take (min (length v) k) v ≡ take k v
take-min v k = elim (Bool-cases (leb (length v) k)) [
  | inl short ↦
      ap (λ t. take t v) {y = length v} (ground arith)
      ∙ (take-all v (length v) (omega arith) ∙ sym (take-all v k (ground arith)))
  | inr long ↦ ap (λ t. take t v) {y = k} (ground arith)
]

take-over : (p v : List ℕ) (k : ℕ) → take (length p + k) (p ++ v) ≡ p ++ take k v
take-over [] v k = ap (λ t. take t v) {y = k} (omega arith)
take-over (x ∷ xs) v k =
    ap (λ t. take t (x ∷ (xs ++ v))) {y = suc (length xs + k)} (omega arith)
    ∙ ap (λ t. x ∷ t) (take-over xs v k)

pub take-take : (k : ℕ) (p v : List ℕ) → take k (take k p ++ v) ≡ take k (p ++ v)
take-take zero p v = refl
take-take (suc k) [] v = refl
take-take (suc k) (x ∷ xs) v = ap (λ t. x ∷ t) (take-take k xs v)

pub push_entropy-Shows :
    (value : List ℕ) (m r : List MemRegion) (e : List ℕ) (info : BootInfo)
    → Shows m r e info
    → Gives m r (take max_entropy (e ++ value)) (push_entropy value info)
unfolding push_entropy
push_entropy-Shows value m r e info s = (
  record info { entropy = after; entropy_len = at + n },
  rw within refl,
  record {
    memory_shown = s.memory_shown;
    reserved_shown = s.reserved_shown;
    entropy_shown = kept;
    bounded = ground (arith, s.bounded);
  },
)
  where
    at : ℕ
    at = info.entropy_len

    n : ℕ
    n = min (length value) (max_entropy - at)

    within : ltb max_entropy at ≡ false
    within = ground (arith, s.bounded)

    after : ℕ → ℕ
    after i = if leb at i && ltb i (at + n) then byte_at value (i - at) else info.entropy i

    old : prefix after at ≡ e
    old = prefix-cong after info.entropy at (λ i below. ground arith) ∙ s.entropy_shown

    test : (i : ℕ) → i < n → (leb at (at + i) && ltb (at + i) (at + n)) ≡ true
    test i below = ground arith

    inside : (i : ℕ) → i < n → after (at + i) ≡ byte_at value i
    inside i below = rw (test i below) (ap (byte_at value) {x = at + i - at} {y = i} (omega arith))

    fresh : prefix (λ i. after (at + i)) n ≡ take (max_entropy - at) value
    fresh =
        prefix-cong (λ i. after (at + i)) (byte_at value) n (λ i below. inside i below)
        ∙ (prefix-take value n (ground arith) ∙ take-min value (max_entropy - at))

    kept : prefix after (at + n) ≡ take max_entropy (e ++ value)
    kept =
        prefix-add after at n
        ∙ (ap (λ t. t ++ prefix (λ i. after (at + i)) n) old
            ∙ (ap (λ t. e ++ t) fresh
                ∙ (sym (take-over e value (max_entropy - at))
                    ∙ ap (λ t. take t (e ++ value)) {x = length e + (max_entropy - at)}
                        {y = max_entropy}
                        (omega (
                          arith,
                          s.bounded,
                          ap length s.entropy_shown,
                          length-prefix info.entropy at,
                        )))))

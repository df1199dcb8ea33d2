-- ===== src/Fdt/Outcomes.antt =====
-- crates/k0-boot/src/fdt.rs: how a run ends. The rules follow the operators that the code is made of.
use k.Base.{
  length, ℕ, ◌+◌, ◌-◌, ◌%◌, ◌≤◌, ◌<◌, ◌≡◌, refl, subst, arith, Bool, true, false, ltb, leb,
  if◌then◌else◌, List, Option, none, some, Bool-cases, inl, inr,
}
use k.Base.Words.{word_size, checked_add}
use k.Base.Bytes.{slice, get_range, length-slice}
use k.Fdt.{
  BootError, Outcome, ok, err, ◌>>=◌, ok_or, refuse, add, index_range, wrapping_add, be32, be64,
  clear_low, align4,
}

-- No panic and no loop without end, and `P` of a value that is returned.
pub data Returns {A : Type 0} (P : A → Type 0) : Outcome A → Type 0 where
  returned : (a : A) → P a → Returns P (ok a)
  refused : (e : BootError) → Returns P (err e)

pub Returns-of_ok :
    {A : Type 0} {P : A → Type 0} {o : Outcome A} {a : A} → Returns P o → o ≡ ok a → P a
Returns-of_ok {P} (returned b p) e = subst P (cc) p
Returns-of_ok (refused b) e = absurd (cc)

module _ {A B : Type 0} {Q : A → Type 0} {P : B → Type 0} where
  pub >>=-Returns :
      {m : Outcome A} (rest : A → Outcome B)
      → Returns Q m
      → ((a : A) → Q a → Returns P (rest a))
      → Returns P (m >>= rest)
  >>=-Returns rest (returned a h) k = k a h
  >>=-Returns rest (refused e) k = refused e

pub weaken :
    {A : Type 0} {Q P : A → Type 0} {m : Outcome A}
    → Returns Q m
    → ((a : A) → Q a → Returns P (ok a))
    → Returns P m
weaken (returned a h) k = k a h
weaken (refused e) k = refused e

pub forget : {A : Type 0} {Q : A → Type 0} {m : Outcome A} → Returns Q m → Returns (λ _. Unit {0}) m
forget r = weaken r (λ a _. returned a tt)

module _ {B : Type 0} {P : B → Type 0} where
  pub ok_or-Returns :
      {A : Type 0} (o : Option A) (e : BootError) (rest : A → Outcome B)
      → ((a : A) → o ≡ some a → Returns P (rest a))
      → Returns P (ok_or o e >>= rest)
  ok_or-Returns none e rest k = refused e
  ok_or-Returns (some a) e rest k = k a refl

  pub refuse-Returns :
      (b : Bool) (e : BootError) (rest : Unit {0} → Outcome B)
      → (b ≡ false → Returns P (rest tt))
      → Returns P (refuse b e >>= rest)
  refuse-Returns true e rest k = refused e
  refuse-Returns false e rest k = k refl

  pub add-Returns :
      (a b : ℕ) (rest : ℕ → Outcome B)
      → a + b < word_size
      → Returns P (rest (a + b))
      → Returns P (add a b >>= rest)
  add-Returns a b rest h k = elim (Bool-cases (ltb (a + b) word_size)) [
    | inl fits ↦ rw fits k
    | inr over ↦ absurd (ground arith)
  ]

  pub if-Returns :
      (b : Bool) (x y : Outcome B)
      → (b ≡ true → Returns P x)
      → (b ≡ false → Returns P y)
      → Returns P (if b then x else y)
  if-Returns true x y h k = h refl
  if-Returns false x y h k = k refl

pub index_range-length :
    (xs : List ℕ) (from to : ℕ)
    → from ≤ to
    → to ≤ length xs
    → Returns (λ ys. length ys ≡ to - from) (index_range xs from to)
unfolding index_range
index_range-length xs from to h k =
    if-Returns (leb from to) _ _
      (λ _.
        if-Returns (leb to (length xs)) _ _
          (λ _. returned (slice xs from to) (length-slice xs from to h k))
          (λ over. absurd (ground arith)))
      (λ over. absurd (ground arith))

pub get_range-some :
    (xs : List ℕ) (from to : ℕ) {ys : List ℕ}
    → get_range xs from to ≡ some ys
    → (from ≤ to) × (to ≤ length xs) × (length ys ≡ to - from)
unfolding get_range
get_range-some xs from to {ys} h = elim (Bool-cases (leb from to)) [
  | inl a ↦ elim (Bool-cases (leb to (length xs))) [
    | inl b ↦ (ground arith, ground arith, ground (arith, length-slice xs from to))
    | inr b ↦ absurd (ground arith)
  ]
  | inr a ↦ absurd (ground arith)
]

-- What is read lies in the blob.
pub be32-Returns : (blob : List ℕ) (off : ℕ) → Returns (λ _. off + 4 ≤ length blob) (be32 blob off)
unfolding be32
be32-Returns blob off =
    ok_or-Returns (get_range blob off (wrapping_add off 4)) _ _
      (λ b e. returned _ (ground (arith, get_range-some blob off (wrapping_add off 4) e)))

pub be64-Returns : (blob : List ℕ) (off : ℕ) → Returns (λ _. off + 8 ≤ length blob) (be64 blob off)
unfolding be64
be64-Returns blob off =
    ok_or-Returns (get_range blob off (wrapping_add off 8)) _ _
      (λ b e. returned _ (ground (arith, get_range-some blob off (wrapping_add off 8) e)))

pub align4-Returns : (off : ℕ) → Returns (λ v. off ≤ v) (align4 off)
unfolding align4
align4-Returns off = cleared (checked_add off 3) (λ v e. ground arith)
  where
    cleared :
        (o : Option ℕ)
        → ((v : ℕ) → o ≡ some v → off ≤ v - v % 4)
        → Returns (λ v. off ≤ v) (clear_low o)
    cleared none h = refused _
    cleared (some v) h = returned _ (h v refl)

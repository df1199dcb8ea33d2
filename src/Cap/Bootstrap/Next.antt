-- ===== src/Cap/Bootstrap/Next.antt =====
-- The choice of the next reserved region.
use k.Base.{
  ◌∙◌, subst, ok-injective, ℕ, ◌+◌, ◌≤◌, ◌<◌, ◌≡◌, refl, ◌⊎◌, inl, inr, arith, Bool, ◌&&◌,
  Bool-cases, Option, none, some, List, [], ◌∷◌, ltb, if◌then◌else◌, ok, length,
}
use k.Cap.{PhysRegion, end}
use k.Cap.Bootstrap.{find_next, lower, is_bad}

-- Byte `k` lies in the region.
abbrev pub Inside : PhysRegion → ℕ → Type 0
Inside r k = (r.base ≤ k) × (k < end r)

abbrev pub InAny : List PhysRegion → ℕ → Type 0
InAny [] k = ⊥
InAny (r ∷ rs) k = Inside r k ⊎ InAny rs k

-- How many regions end behind the cursor.
abbrev pub count_behind : ℕ → List PhysRegion → ℕ
count_behind cursor [] = 0
count_behind cursor (r ∷ rs) = (if ltb cursor (end r) then 1 else 0) + count_behind cursor rs

pub count_behind-le-length :
    (cursor : ℕ) (rs : List PhysRegion) → count_behind cursor rs ≤ length rs
count_behind-le-length cursor [] = omega arith
count_behind-le-length cursor (r ∷ rs) = ground (arith, count_behind-le-length cursor rs)

pub count_behind_mono :
    (c d : ℕ) (rs : List PhysRegion) → c ≤ d → count_behind d rs ≤ count_behind c rs
count_behind_mono c d [] h = omega arith
count_behind_mono c d (r ∷ rs) h = ground (arith, count_behind_mono c d rs)

-- Where `next` came from: it was given, or it is one of the regions and meets the range.
pub record From (cursor m_end : ℕ) (rs : List PhysRegion) (n : PhysRegion) : Type 0 where
  pub listed : (k : ℕ) → Inside n k → InAny rs k
  pub passes : count_behind (end n) rs < count_behind cursor rs
  pub later : cursor < end n
  pub sooner : n.base < m_end

module _ {cursor m_end : ℕ} {rs : List PhysRegion} where
  From-cons :
      {n : PhysRegion} (r : PhysRegion) → From cursor m_end rs n → From cursor m_end (r ∷ rs) n
  From-cons r f = record {
    listed = λ k i. inr (f.listed k i);
    passes = ground arith;
    later = f.later;
    sooner = f.sooner;
  }

  From-head : (r : PhysRegion) → cursor < end r → r.base < m_end → From cursor m_end (r ∷ rs) r
  From-head r lo hi = record {
    listed = λ k i. inl i;
    passes = ground (arith, count_behind_mono cursor (end r) rs);
    later = lo;
    sooner = hi;
  }

-- A region that starts at or below `b`.
abbrev pub Reaches : Option PhysRegion → ℕ → Type 0
Reaches none b = ⊥
Reaches (some n) b = n.base ≤ b

abbrev meets : (cursor m_end : ℕ) → PhysRegion → Bool
meets cursor m_end r = ltb cursor (end r) && ltb r.base m_end

lower_cases :
    (acc : Option PhysRegion) (r : PhysRegion) → (acc ≡ some (lower acc r)) ⊎ (lower acc r ≡ r)
lower_cases none r = inr refl
lower_cases (some n) r = ground arith

lower-Reaches :
    (acc : Option PhysRegion) (r : PhysRegion) (b : ℕ)
    → Reaches acc b ⊎ (r.base ≤ b)
    → Reaches (some (lower acc r)) b
lower-Reaches none r b (inl h) = absurd h
lower-Reaches none r b (inr h) = h
lower-Reaches (some n) r b h = ground arith

module _ (cursor m_end : ℕ) where
  pub find_next-From :
      (acc : Option PhysRegion) (rs : List PhysRegion) {n : PhysRegion}
      → find_next cursor m_end acc rs ≡ ok (some n)
      → (acc ≡ some n) ⊎ From cursor m_end rs n
  unfolding find_next
  find_next-From acc [] h = inl (ground arith)
  find_next-From acc (r ∷ rs) {n} h = elim (Bool-cases (is_bad r)) [
    | inl bad ↦ absurd (ground arith)
    | inr good ↦ elim (Bool-cases (meets cursor m_end r)) [
      | inr far ↦ elim (find_next-From acc rs {n = n} (ground arith)) [
        | inl same ↦ inl same
        | inr f ↦ inr (From-cons r f)
      ]
      | inl near ↦ elim (find_next-From (some (lower acc r)) rs {n = n} (ground arith)) [
        | inl same ↦ elim (lower_cases acc r) [
          | inl kept ↦ inl (kept ∙ same)
          | inr taken ↦
              let e : r ≡ n = cc in
              inr (subst (From cursor m_end (r ∷ rs)) e (From-head r (ground arith) (ground arith)))
        ]
        | inr f ↦ inr (From-cons r f)
      ]
    ]
  ]

  -- No reserved byte between the cursor and the end lies below the region that is found.
  pub find_next_lowest :
      (acc : Option PhysRegion) (rs : List PhysRegion) {res : Option PhysRegion} (b : ℕ)
      → find_next cursor m_end acc rs ≡ ok res
      → Reaches acc b ⊎ (InAny rs b × cursor ≤ b × b < m_end)
      → Reaches res b
  unfolding find_next
  find_next_lowest acc [] b h (inl e) = subst (λ o. Reaches o b) (ok-injective h) e
  find_next_lowest acc [] b h (inr (e, _, _)) = absurd e
  find_next_lowest acc (r ∷ rs) {res} b h e = elim (Bool-cases (is_bad r)) [
    | inl bad ↦ absurd (ground arith)
    | inr good ↦ elim (Bool-cases (meets cursor m_end r)) [
      | inr far ↦ find_next_lowest acc rs {res = res} b (ground arith) (elim e [
        | inl a ↦ inl a
        | inr (inl i, lo, hi) ↦ absurd (ground arith)
        | inr (inr i, lo, hi) ↦ inr (i, lo, hi)
      ])
      | inl near ↦ find_next_lowest (some (lower acc r)) rs {res = res} b (ground arith) (elim e [
        | inl a ↦ inl (lower-Reaches acc r b (inl a))
        | inr (inl i, lo, hi) ↦ inl (lower-Reaches acc r b (inr i.0))
        | inr (inr i, lo, hi) ↦ inr (i, lo, hi)
      ])
    ]
  ]

-- ===== src/Cap/Bootstrap/Fill.antt =====
-- `push_untypeds`: the loop ends, and what it claims is the region without the reserved bytes.
use k.Base.{
  ℕ, zero, suc, ◌-◌, ◌≤◌, ◌<◌, ◌≡◌, refl, subst, ◌↔◌, ◌⊎◌, inl, inr, arith, Bool-cases, Option,
  none, some, List, ltb, leb, Result, ok, err, min, max, ok-injective,
}
use k.Base.Words.{word_size}
use k.Cap.{PhysRegion, end, CNode, CapError, untyped}
use k.Cap.Apart.{IsApart}
use k.Cap.Bootstrap.{find_next, push_gap, push_tail, behind, round, fill, Filled}
use k.Cap.Bootstrap.Adds.{Claimed, Adds, Adds-none, Adds-iff, Adds-trans, push-Adds}
use k.Cap.Bootstrap.Next.{InAny, From, find_next-From, find_next_lowest}

-- The bytes from `cursor` on that no reserved region holds.
abbrev pub Free : List PhysRegion → (cursor m_end k : ℕ) → Type 0
Free reserved cursor m_end k = (cursor ≤ k) × (k < m_end) × ¬ InAny reserved k

module _ (g : ℕ) (cn : CNode) (cursor m_end : ℕ) {cn' : CNode} (small : m_end < word_size)
    (a : IsApart g cn) (clear : (k : ℕ) → cursor ≤ k → k < m_end → ¬ Claimed g cn k) where
  push_tail-Adds :
      push_tail cn cursor m_end ≡ ok cn' → Adds g cn (λ k. (cursor ≤ k) × (k < m_end)) cn'
  unfolding push_tail
  push_tail-Adds h = elim (Bool-cases (ltb cursor m_end)) [
    | inl room ↦
        let lt : cursor < m_end = ground arith in
        Adds-iff
          (push-Adds g cn (untyped cursor (m_end - cursor) 0) (ground arith) a (omega arith)
            (λ k c. clear k (omega (arith, c)) (omega (arith, c))))
          (λ k. (omega arith, omega arith))
    | inr tight ↦
        subst (Adds g cn _) (ok-injective (rw tight at h)) (Adds-none a (λ k p. ground arith))
  ]

  push_gap-Adds :
      (r : PhysRegion)
      → r.base < m_end
      → push_gap cn cursor m_end r ≡ ok cn'
      → Adds g cn (λ k. (cursor ≤ k) × (k < r.base)) cn'
  unfolding push_gap
  push_gap-Adds r lo h = elim (Bool-cases (ltb cursor r.base)) [
    | inl room ↦
        let lt : cursor < r.base = ground arith in
        Adds-iff
          (push-Adds g cn (untyped cursor (min r.base m_end - cursor) 0) (ground arith) a
            (omega arith) (λ k c. clear k (omega (arith, c)) (omega (arith, c))))
          (λ k. (omega arith, omega arith))
    | inr tight ↦
        subst (Adds g cn _) (ok-injective (rw tight at h)) (Adds-none a (λ k p. ground arith))
  ]

module _ (reserved : List PhysRegion) (cursor m_end : ℕ) where
  -- With no region left all bytes are free.
  Free-tail :
      find_next cursor m_end none reserved ≡ ok none
      → (k : ℕ) → ((cursor ≤ k) × (k < m_end)) ↔ Free reserved cursor m_end k
  Free-tail found k = (
    λ (lo, hi).
        (lo, hi, λ i. find_next_lowest cursor m_end none reserved k found (inr (i, lo, hi))),
    λ (lo, hi, _). (lo, hi),
  )

  module _ (r : PhysRegion) (found : find_next cursor m_end none reserved ≡ ok (some r)) where
    pub from : From cursor m_end reserved r
    from = elim (find_next-From cursor m_end none reserved found) [
      | inl e ↦ absurd (cc)
      | inr f ↦ f
    ]

    below_free : (k : ℕ) → cursor ≤ k → k < r.base → ¬ InAny reserved k
    below_free k lo hi i =
        let le : r.base ≤ k =
          find_next_lowest cursor m_end none reserved k found
            (inr (i, lo, omega (arith, from.sooner, hi))) in
        omega arith

    -- Behind the gap in front of `r` the free bytes are those from its end on.
    Free-split :
        (k : ℕ)
        → Free reserved cursor m_end k
          ↔ (((cursor ≤ k) × (k < r.base)) ⊎ Free reserved (max (end r) cursor) m_end k)
    Free-split k = (split, join)
      where
        split :
            Free reserved cursor m_end k
            → ((cursor ≤ k) × (k < r.base)) ⊎ Free reserved (max (end r) cursor) m_end k
        split (lo, hi, out) = elim (Bool-cases (ltb k r.base)) [
          | inl before ↦ inl (lo, ground arith)
          | inr after ↦ elim (Bool-cases (ltb k (end r))) [
            | inl within ↦ absurd (out (from.listed k (ground arith)))
            | inr behind ↦ inr (ground arith, hi, out)
          ]
        ]

        join :
            ((cursor ≤ k) × (k < r.base)) ⊎ Free reserved (max (end r) cursor) m_end k
            → Free reserved cursor m_end k
        join (inl (lo, hi)) = (lo, omega (arith, from.sooner, hi), below_free k lo hi)
        join (inr (lo, hi, out)) = (omega arith, hi, out)

module _ (g : ℕ) (reserved : List PhysRegion) (m_end : ℕ) (small : m_end < word_size) where
  abbrev pub Clear : CNode → ℕ → Type 0
  Clear cn cursor = (k : ℕ) → cursor ≤ k → k < m_end → ¬ Claimed g cn k

  abbrev pub Fills : (CNode → ℕ → Filled) → Type 0
  Fills next_round =
      (cn : CNode) (cursor : ℕ) (cn' : CNode)
      → IsApart g cn
      → Clear cn cursor
      → next_round cn cursor ≡ some (ok cn')
      → Adds g cn (Free reserved cursor m_end) cn'

  module _ (next_round : CNode → ℕ → Filled) (fills : Fills next_round) (cn : CNode) (cursor : ℕ)
      (a : IsApart g cn) (clear : Clear cn cursor) where
    behind-Adds :
        (r : PhysRegion) (cn' : CNode) (gap : Result CapError CNode)
        → find_next cursor m_end none reserved ≡ ok (some r)
        → push_gap cn cursor m_end r ≡ gap
        → behind next_round cursor m_end r gap ≡ some (ok cn')
        → Adds g cn (Free reserved cursor m_end) cn'
    unfolding behind
    behind-Adds r cn' (err e) found pushed h = absurd (ground arith)
    behind-Adds r cn' (ok mid) found pushed h = elim (Bool-cases (leb m_end (end r))) [
      | inl over ↦
          let e : mid ≡ cn' = ground arith in
          subst (Adds g cn (Free reserved cursor m_end)) e (
            Adds-iff filled (λ k. (
              λ p. (Free-split reserved cursor m_end r found k).1 (inl p),
              λ p. elim ((Free-split reserved cursor m_end r found k).0 p) [
                | inl q ↦ q
                | inr (lo, hi, out) ↦ absurd (ground arith)
              ],
            )))
      | inr more ↦
          Adds-trans filled
            (fills mid (max (end r) cursor) cn' filled.sound clear_mid (ground arith))
            (Free-split reserved cursor m_end r found)
    ]
      where
        f : From cursor m_end reserved r
        f = from reserved cursor m_end r found

        filled : Adds g cn (λ k. (cursor ≤ k) × (k < r.base)) mid
        filled = push_gap-Adds g cn cursor m_end small a clear r f.sooner pushed

        clear_mid : Clear mid (max (end r) cursor)
        clear_mid k lo hi c = elim (filled.only k c) [
          | inl old ↦ clear k (omega arith) hi old
          | inr (_, below) ↦ absurd (omega arith)
        ]

    round-Adds :
        (cn' : CNode) (f : Result CapError (Option PhysRegion))
        → find_next cursor m_end none reserved ≡ f
        → round next_round cn cursor m_end f ≡ some (ok cn')
        → Adds g cn (Free reserved cursor m_end) cn'
    unfolding round
    round-Adds cn' (err e) found h = absurd (ground arith)
    round-Adds cn' (ok none) found h =
        Adds-iff
          (push_tail-Adds g cn cursor m_end small a clear
            (let e : push_tail cn cursor m_end ≡ ok cn' = ground arith in e))
          (Free-tail reserved cursor m_end found)
    round-Adds cn' (ok (some r)) found h =
        behind-Adds r cn' (push_gap cn cursor m_end r) found refl h

  pub fill-Adds : (fuel : ℕ) → Fills (fill fuel reserved m_end)
  unfolding fill
  fill-Adds zero cn cursor cn' a clear h = absurd (ground arith)
  fill-Adds (suc fuel) cn cursor cn' a clear h =
      round-Adds (fill fuel reserved m_end) (fill-Adds fuel) cn cursor a clear cn'
        (find_next cursor m_end none reserved) refl h

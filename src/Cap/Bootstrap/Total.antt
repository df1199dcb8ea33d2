-- ===== src/Cap/Bootstrap/Total.antt =====
-- The loop of `push_untypeds` ends: the rounds it is given are enough.
use k.Base.{
  ℕ, zero, suc, ◌<◌, ◌≡◌, refl, inl, inr, arith, Bool-cases, Option, none, some, List, [], ◌∷◌, leb,
  Result, ok, err, max, length,
}
use k.Cap.{PhysRegion, end, CNode, CapError, bad_region, new_cnode}
use k.Cap.Bootstrap.{
  find_next, push_gap, push_tail, behind, round, fill, Filled, push_untypeds, push_all,
  check_memory, push_fixed, bootstrap,
}
use k.Cap.Bootstrap.Next.{count_behind, count_behind-le-length, count_behind_mono}
use k.Cap.Bootstrap.Fill.{from}

module _ (reserved : List PhysRegion) (m_end : ℕ) where
  -- With more rounds than there are regions behind the cursor the loop ends.
  behind_total :
      (next_round : CNode → ℕ → Filled) (cursor : ℕ) (r : PhysRegion) (gap : Result CapError CNode)
      → ((mid : CNode)
          → (res : Result CapError CNode) × (next_round mid (max (end r) cursor) ≡ some res))
      → (res : Result CapError CNode) × (behind next_round cursor m_end r gap ≡ some res)
  unfolding behind
  behind_total next_round cursor r (err e) more = (err e, refl)
  behind_total next_round cursor r (ok mid) more = elim (Bool-cases (leb m_end (end r))) [
    | inl over ↦ (ok mid, rw (over, behind))
    | inr short ↦ rw (short, behind) (more mid)
  ]

  fill_total :
      (fuel : ℕ) (cn : CNode) (cursor : ℕ)
      → count_behind cursor reserved < fuel
      → (res : Result CapError CNode) × (fill fuel reserved m_end cn cursor ≡ some res)
  unfolding fill
  fill_total zero cn cursor enough = elim enough [ ]
  fill_total (suc fuel) cn cursor enough =
      by_found (fill_total fuel) (find_next cursor m_end none reserved) refl
    where
      fewer :
          (r : PhysRegion)
          → find_next cursor m_end none reserved ≡ ok (some r)
          → count_behind (max (end r) cursor) reserved < fuel
      fewer r found = omega (
        arith,
        (from reserved cursor m_end r found).passes,
        count_behind_mono (end r) (max (end r) cursor) reserved (omega arith),
      )

      by_found :
          ((mid : CNode) (c : ℕ)
            → count_behind c reserved < fuel
            → (res : Result CapError CNode) × (fill fuel reserved m_end mid c ≡ some res))
          → (f : Result CapError (Option PhysRegion)) → find_next cursor m_end none reserved ≡ f
          → (res : Result CapError CNode) × (round (fill fuel reserved m_end) cn cursor m_end f
              ≡ some res)
      by_found ih (err e) found = (err e, refl)
      by_found ih (ok none) found = (push_tail cn cursor m_end, refl)
      by_found ih (ok (some r)) found =
          behind_total (fill fuel reserved m_end) cursor r (push_gap cn cursor m_end r)
            (λ mid. ih mid (max (end r) cursor) (fewer r found))

pub push_untypeds_total :
    (cn : CNode) (m : PhysRegion) (reserved : List PhysRegion)
    → (res : Result CapError CNode) × (push_untypeds cn m reserved ≡ some res)
unfolding push_untypeds
push_untypeds_total cn m reserved =
    fill_total reserved (end m) (suc (length reserved)) cn m.base
      (omega (arith, count_behind-le-length m.base reserved))

push_all_total :
    (r : Result CapError CNode) (memory reserved : List PhysRegion)
    → (res : Result CapError CNode) × (push_all r memory reserved ≡ some res)
unfolding push_all
push_all_total (err e) memory reserved = (err e, refl)
push_all_total (ok cn) [] reserved = (ok cn, refl)
push_all_total (ok cn) (m ∷ ms) reserved =
    let (r, e) = push_untypeds_total cn m reserved in
    let (res, f) = push_all_total r ms reserved in (res, ground (arith, e, f))

-- The bootstrap returns, whatever the memory map is: the loop over the reserved regions never runs
-- out of the rounds that the model gives it.
pub bootstrap_total :
    (memory reserved : List PhysRegion) (root_pa : ℕ)
    → (res : Result CapError CNode) × (bootstrap memory reserved root_pa ≡ some res)
unfolding bootstrap
bootstrap_total memory reserved root_pa = elim (Bool-cases (check_memory [] memory)) [
  | inl good ↦
      let (res, e) = push_all_total (push_fixed new_cnode root_pa) memory reserved in
      (res, ground (arith, e))
  | inr bad ↦ (err bad_region, ground arith)
]

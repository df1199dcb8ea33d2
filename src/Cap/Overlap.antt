-- ===== src/Cap/Overlap.antt =====
-- Retyping keeps the capabilities of a CNode apart: no physical byte gets two owners.
use k.Base.{
  ℕ, suc, ◌+◌, ◌-◌, ◌≤◌, ◌<◌, ◌≡◌, refl, sym, subst, ap, ◌∙◌, ◌≢◌, ◌⊎◌, inl, inr, arith, Bool,
  Bool-cases, ◌==◌, ok, ◌^◌, Result, err,
}
use k.Cap.{CNode, ObjKind, untyped, new_cap, Outcome, retype, RetypeError}
use k.Cap.Apart.{IsApart, Claims, IsSized, InGranule}
use k.Cap.Retype.{Retyped, retype_ok, retype_error_unchanged}

new_cap-Claims :
    (kind : ObjKind) (g carve k : ℕ) → Claims g (new_cap kind carve) k → InGranule g carve k
unfolding new_cap
new_cap-Claims ObjKind.frame g carve k h = h
new_cap-Claims ObjKind.page_table g carve k h = h
new_cap-Claims ObjKind.tcb g carve k h = h
new_cap-Claims ObjKind.endpoint g carve k h = h

new_cap-IsSized : (kind : ObjKind) (carve : ℕ) → IsSized (new_cap kind carve)
unfolding new_cap
new_cap-IsSized ObjKind.frame carve = tt
new_cap-IsSized ObjKind.page_table carve = tt
new_cap-IsSized ObjKind.tcb carve = tt
new_cap-IsSized ObjKind.endpoint carve = tt

module _ {g : ℕ} {cn : CNode} {slot : ℕ} {kind : ObjKind} {cn' : CNode} {n : ℕ}
    (apart : IsApart g cn) (r : Retyped g cn slot kind cn' n) where
  -- What a slot claims afterwards, it or the carved untyped claimed before.
  abbrev Part : ℕ → ℕ → Type 0
  Part i k =
      ((i ≡ n) × InGranule g r.carve k)
      ⊎ ((i ≡ slot) × (r.carve + g ≤ k) × (k < r.base + r.size))
      ⊎ ((i ≢ n) × (i ≢ slot) × Claims g (cn.slots i) k)

  claim-Part : (i k : ℕ) → Claims g (cn'.slots i) k → Part i k
  claim-Part i k h = elim (Bool-cases (i == n)) [
    | inl new ↦
        let e : i ≡ n = ground arith in
        inl (
          e,
          new_cap-Claims kind g r.carve k (subst (λ c. Claims g c k) (ap cn'.slots e ∙ r.made) h),
        )
    | inr old ↦ elim (Bool-cases (i == slot)) [
      | inl same ↦
          let e : i ≡ slot = ground arith in
          let c : Claims g (untyped r.base r.size (r.carve + g - r.base)) k =
            subst (λ c. Claims g c k) (ap cn'.slots e ∙ r.moved) h in
          inr (inl (e, omega (arith, c, r.above), omega (arith, c)))
      | inr other ↦ inr (
          inr (
            ground arith,
            ground arith,
            subst (λ c. Claims g c k) (r.others i (ground arith) (ground arith)) h,
          ))
    ]
  ]

  -- The bytes of the new object and of the moved untyped were the untyped's.
  slot_claimed : (k : ℕ) → r.carve ≤ k → k < r.base + r.size → Claims g (cn.slots slot) k
  slot_claimed k lo hi = subst (λ c. Claims g c k) (sym r.was) (omega (arith, lo, r.above), hi)

  old_not_claimed :
      (i k : ℕ)
      → i < cn.used
      → i ≢ slot
      → Claims g (cn.slots i) k
      → r.carve ≤ k
      → ¬ (k < r.base + r.size)
  old_not_claimed i k lt ne c lo hi =
      ne (apart.separate i slot k lt r.in_range c (slot_claimed k lo hi))

  parts_meet : (i j k : ℕ) → i < suc cn.used → j < suc cn.used → Part i k → Part j k → i ≡ j
  parts_meet i j k li lj (inl a) (inl b) = omega arith
  parts_meet i j k li lj (inl a) (inr (inl b)) = absurd (omega (arith, a.1, b.1))
  parts_meet i j k li lj (inl a) (inr (inr b)) =
      absurd
        (old_not_claimed j k (omega (arith, r.fresh)) b.1 b.2 a.1.0 (omega (arith, r.fits, a.1)))
  parts_meet i j k li lj (inr (inl a)) (inl b) = absurd (omega (arith, a.1, b.1))
  parts_meet i j k li lj (inr (inl a)) (inr (inl b)) = omega arith
  parts_meet i j k li lj (inr (inl a)) (inr (inr b)) =
      absurd (old_not_claimed j k (omega (arith, r.fresh)) b.1 b.2 (omega (arith, a.1)) a.2)
  parts_meet i j k li lj (inr (inr a)) (inl b) =
      absurd
        (old_not_claimed i k (omega (arith, r.fresh)) a.1 a.2 b.1.0 (omega (arith, r.fits, b.1)))
  parts_meet i j k li lj (inr (inr a)) (inr (inl b)) =
      absurd (old_not_claimed i k (omega (arith, r.fresh)) a.1 a.2 (omega (arith, b.1)) b.2)
  parts_meet i j k li lj (inr (inr a)) (inr (inr b)) =
      apart.separate i j k (omega (arith, r.fresh)) (omega (arith, r.fresh)) a.2 b.2

  IsSized-after : (i : ℕ) → i < suc cn.used → IsSized (cn'.slots i)
  IsSized-after i lt = elim (Bool-cases (i == n)) [
    | inl new ↦
        subst IsSized (sym (ap cn'.slots (let e : i ≡ n = ground arith in e) ∙ r.made))
          (new_cap-IsSized kind r.carve)
    | inr old ↦ elim (Bool-cases (i == slot)) [
      | inl same ↦
          let was : IsSized (untyped r.base r.size r.used) =
            subst IsSized r.was (apart.sized slot r.in_range) in
          subst IsSized (sym (ap cn'.slots (let e : i ≡ slot = ground arith in e) ∙ r.moved))
            (omega (arith, was, r.fits, r.above), omega (arith, was))
      | inr other ↦
          subst IsSized (sym (r.others i (ground arith) (ground arith)))
            (apart.sized i (let ne : i ≢ n = ground arith in omega (arith, r.fresh, ne)))
    ]
  ]

  Retyped-IsApart : IsApart g cn'
  Retyped-IsApart = record {
    capacity = let room = r.room in omega (arith, apart.capacity, room, r.count);
    sized = λ i lt. IsSized-after i (omega (arith, r.count, lt));
    separate = λ i j k li lj ci cj.
        parts_meet i j k (omega (arith, r.count, li)) (omega (arith, r.count, lj))
          (claim-Part i k ci) (claim-Part j k cj);
  }

-- `retype` keeps every two capabilities apart, whatever it is asked for and whatever `prep` does:
-- if no byte was claimed by two slots before, none is afterwards. The granule is a power of two.
pub retype-IsApart :
    {S : Type 0} (cn : CNode) (s : S) (slot : ℕ) (kind : ObjKind) (prep : ℕ → S → S × Bool)
    (j k : ℕ)
    → j + k ≡ 64
    → IsApart (2 ^ k) cn
    → IsApart (2 ^ k) (retype cn s slot kind (2 ^ k) prep).0
retype-IsApart {S} cn s slot kind prep j k bits apart = by_result outcome.2 refl
  where
    outcome : Outcome S
    outcome = retype cn s slot kind (2 ^ k) prep

    by_result : (res : Result RetypeError ℕ) → outcome.2 ≡ res → IsApart (2 ^ k) outcome.0
    by_result (ok n) e =
        Retyped-IsApart apart
          (retype_ok cn s slot kind prep j k bits (λ i. (outcome.0, outcome.1, e i)))
    by_result (err x) e =
        subst (IsApart (2 ^ k))
          (sym
            (retype_error_unchanged cn s slot kind (2 ^ k) prep (λ i. (outcome.0, outcome.1, e i))))
          apart

-- ===== src/Cap/Retype.antt =====
-- `CNode::retype`: what a call does on every branch, and that objects never overlap.
use k.Base.{
  ℕ, suc, ◌+◌, ◌-◌, ◌*◌, ◌/◌, ◌%◌, ◌^◌, ◌≤◌, ◌<◌, ◌≡◌, refl, ◌≢◌, arith, Result, ok, err, inl, inr,
  Bool-cases, leb, ◌==◌, Bool,
}
use native.Mathlib.Nat.{one-le-pow}
use k.Base.Align.{align_down}
use k.Cap.{
  CNode, Cap, ObjKind, RetypeError, carve_place, cnode_slots, untyped, retype_from, retype, prepare,
  new_cap,
}

carve_place_ok :
    (j k base size used : ℕ) {carve carve_end : ℕ}
    → j + k ≡ 64
    → carve_place base size used (2 ^ k) ≡ ok (carve, carve_end)
    → (carve ≡ (base + used + (2 ^ k - 1)) / 2 ^ k * 2 ^ k)
      × (carve_end ≡ carve + 2 ^ k)
      × (carve_end ≤ base + size)
unfolding carve_place
carve_place_ok j k base size used bits h =
    ground (arith, align_down j k (base + used + (2 ^ k - 1)) bits)

-- Rounding up to a multiple of `g`.
round_up : (x g : ℕ) → 0 < g → let c = (x + (g - 1)) / g * g in (x ≤ c) × (c < x + g) × (c % g ≡ 0)
round_up x g h = grind arith

-- A retype that succeeds: from `cn` to `cn'`, with the new object at `carve` in slot `new_slot`.
pub record Retyped (g : ℕ) (cn : CNode) (slot : ℕ) (kind : ObjKind) (cn' : CNode) (new_slot : ℕ)
    : Type 0 where
  pub base : ℕ
  pub size : ℕ
  pub used : ℕ
  pub carve : ℕ
  pub in_range : slot < cn.used
  pub room : cn.used ≢ cnode_slots
  pub was : cn.slots slot ≡ untyped base size used
  pub above : base + used ≤ carve
  pub nearest : carve < base + used + g
  pub aligned : carve % g ≡ 0
  pub fits : carve + g ≤ base + size
  pub fresh : new_slot ≡ cn.used
  pub count : cn'.used ≡ suc cn.used
  pub moved : cn'.slots slot ≡ untyped base size (carve + g - base)
  pub made : cn'.slots new_slot ≡ new_cap kind carve
  pub others : (i : ℕ) → i ≢ slot → i ≢ new_slot → cn'.slots i ≡ cn.slots i

module _ {S : Type 0} (cn : CNode) (s : S) (slot : ℕ) (kind : ObjKind) (prep : ℕ → S → S × Bool)
    (j k : ℕ) (bits : j + k ≡ 64) where
  prepare_ok :
      (base size used : ℕ) (r : Result RetypeError (ℕ × ℕ)) {cn' : CNode} {s' : S} {n : ℕ}
      → slot < cn.used
      → cn.used ≢ cnode_slots
      → cn.slots slot ≡ untyped base size used
      → carve_place base size used (2 ^ k) ≡ r
      → prepare cn s slot kind prep base size r ≡ (cn', s', ok n)
      → Retyped (2 ^ k) cn slot kind cn' n
  unfolding prepare
  prepare_ok base size used (err e) lt ne was place h = ground arith
  prepare_ok base size used (ok (carve, carve_end)) {cn'} lt ne was place h = record {
    base = base;
    size = size;
    used = used;
    carve = carve;
    in_range = lt;
    room = ne;
    was = was;
    above = omega (arith, at, up);
    nearest = omega (arith, at, up);
    aligned = rw at.0 (up.2);
    fits = omega (arith, at);
    fresh = ground arith;
    count = ground arith;
    moved = ground (arith, at);
    made = ground arith;
    others = λ i a b. ground arith;
  }
    where
      at :
          (carve ≡ (base + used + (2 ^ k - 1)) / 2 ^ k * 2 ^ k)
          × (carve_end ≡ carve + 2 ^ k)
          × (carve_end ≤ base + size)
      at = carve_place_ok j k base size used bits place

      up :
          let c = (base + used + (2 ^ k - 1)) / 2 ^ k * 2 ^ k in
          (base + used ≤ c) × (c < base + used + 2 ^ k) × (c % 2 ^ k ≡ 0)
      up = round_up (base + used) (2 ^ k) (one-le-pow k 2 (omega arith))

  retype_from_ok :
      (c : Cap) {cn' : CNode} {s' : S} {n : ℕ}
      → slot < cn.used
      → cn.slots slot ≡ c
      → retype_from cn s slot kind (2 ^ k) prep c ≡ (cn', s', ok n)
      → Retyped (2 ^ k) cn slot kind cn' n
  unfolding retype_from
  retype_from_ok (untyped base size used) {s'} lt was h =
      elim (Bool-cases (cn.used == cnode_slots)) [
        | inl full ↦ ground arith
        | inr room ↦
            prepare_ok base size used (carve_place base size used (2 ^ k)) {s' = s'} lt
              (ground arith) was refl (ground arith)
      ]
  retype_from_ok _ lt was h = ground arith

  -- A retype that returns a slot has carved a fresh object from the untyped: the first granule
  -- at or above the watermark, inside the untyped; the watermark stands at the object's end, the
  -- new capability in the first free slot, and every other slot is as it was.
  pub retype_ok :
      {cn' : CNode} {s' : S} {n : ℕ}
      → retype cn s slot kind (2 ^ k) prep ≡ (cn', s', ok n)
      → Retyped (2 ^ k) cn slot kind cn' n
  unfolding retype
  retype_ok {s'} h = elim (Bool-cases (leb cn.used slot)) [
    | inl out ↦ ground arith
    | inr inside ↦ retype_from_ok (cn.slots slot) {s' = s'} (ground arith) refl (ground arith)
  ]

module _ {S : Type 0} (cn : CNode) (s : S) (slot : ℕ) (kind : ObjKind) (g : ℕ)
    (prep : ℕ → S → S × Bool) where
  prepare_unchanged :
      (base size : ℕ) (r : Result RetypeError (ℕ × ℕ)) {cn' : CNode} {s' : S} {e : RetypeError}
      → cn.used ≢ cnode_slots
      → prepare cn s slot kind prep base size r ≡ (cn', s', err e)
      → cn' ≡ cn
  unfolding prepare
  prepare_unchanged base size (err e) room h = ground arith
  prepare_unchanged base size (ok (carve, carve_end)) room h = ground arith

  retype_from_unchanged :
      (c : Cap) {cn' : CNode} {s' : S} {e : RetypeError}
      → retype_from cn s slot kind g prep c ≡ (cn', s', err e)
      → cn' ≡ cn
  unfolding retype_from
  retype_from_unchanged (untyped base size used) {s'} {e} h =
      elim (Bool-cases (cn.used == cnode_slots)) [
        | inl full ↦ ground arith
        | inr room ↦
            prepare_unchanged base size (carve_place base size used g) {s' = s'} {e = e}
              (ground arith) (ground arith)
      ]
  retype_from_unchanged _ h = ground arith

  -- A retype that fails leaves the CNode as it was, whatever `prep` did.
  pub retype_error_unchanged :
      {cn' : CNode} {s' : S} {e : RetypeError}
      → retype cn s slot kind g prep ≡ (cn', s', err e)
      → cn' ≡ cn
  unfolding retype
  retype_error_unchanged {s'} {e} h = elim (Bool-cases (leb cn.used slot)) [
    | inl out ↦ ground arith
    | inr inside ↦ retype_from_unchanged (cn.slots slot) {s' = s'} {e = e} (ground arith)
  ]

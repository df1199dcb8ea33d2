-- ===== src/Cap.antt =====
-- crates/k0-cap/src/lib.rs: the root CNode, retyping, and the bootstrap from the memory map.
pub mod Apart
pub mod Bootstrap
pub mod Overlap
pub mod Retype
use k.Base.{
  ℕ, zero, suc, ◌+◌, ◌-◌, ◌≡◌, Bool, true, false, ◌&&◌, ◌||◌, Option, none, some, List, [], ◌∷◌,
  bit_and, min, max, ltb, leb, ◌==◌, if◌then◌else◌, update, length, Result, ok, err, ok_or, ◌>>=◌,
}
use k.Base.Words.{checked_add, complement}

abbrev pub cnode_slots : ℕ
cnode_slots = 32

pub record PhysRegion : Type 0 where
  pub base : ℕ
  pub size : ℕ

-- The sum is plain `+` in the source, where an overflow would panic.
abbrev pub end : PhysRegion → ℕ
end r = r.base + r.size

pub data Cap : Type 0 where
  empty root_tcb console : Cap
  addr_space : (root_pa : ℕ) → Cap
  tcb : (base : ℕ) → Cap
  untyped : (base size used : ℕ) → Cap
  frame : (base : ℕ) (mapped : Bool) → Cap
  page_table : (base : ℕ) (installed : Bool) → Cap
  endpoint : (base : ℕ) → Cap

pub data ObjKind : Type 0 where
  frame page_table tcb endpoint : ObjKind

pub data CapError : Type 0 where
  out_of_slots bad_region : CapError

pub data RetypeError : Type 0 where
  bad_slot not_untyped exhausted out_of_slots prep_failed : RetypeError

-- `slots` is the array of `cnode_slots` entries, of which the first `used` are filled.
pub record CNode : Type 0 where
  pub slots : ℕ → Cap
  pub used : ℕ

-- The static `ROOT_CNODE` before the bootstrap.
unfoldable pub new_cnode : CNode
new_cnode = record { slots = λ _. empty; used = 0 }

unfoldable pub cap : CNode → ℕ → Option Cap
cap cn slot = if ltb slot cn.used then some (cn.slots slot) else none

-- The write through the reference that `cap_mut` hands out for a slot in range.
unfoldable pub set_cap : CNode → ℕ → Cap → CNode
set_cap cn slot c = record cn { slots = update cn.slots slot c }

unfoldable pub push : CNode → Cap → Result CapError CNode
push cn c =
    if cn.used == cnode_slots
    then err CapError.out_of_slots
    else ok (record cn { slots = update cn.slots cn.used c; used = suc cn.used })

-- Where the next object goes: the watermark rounded up to the granule, and the end of the object.
unfoldable pub carve_place : (base size used granule : ℕ) → Result RetypeError (ℕ × ℕ)
carve_place base size used granule = do
  mark ← ok_or (checked_add base used) exhausted
  up ← ok_or (checked_add mark (granule - 1)) exhausted
  let carve = bit_and up (complement (granule - 1))
  carve_end ← ok_or (checked_add carve granule) exhausted
  if ltb (base + size) carve_end then err exhausted else ok (carve, carve_end)

-- The capability for a fresh object.
unfoldable pub new_cap : ObjKind → ℕ → Cap
new_cap ObjKind.frame carve = frame carve false
new_cap ObjKind.page_table carve = page_table carve false
new_cap ObjKind.tcb carve = tcb carve
new_cap ObjKind.endpoint carve = endpoint carve

-- What the callback `prep` acts on (the kernel's page tables and memory) is a state `S`; it
-- answers whether the memory is ready.
abbrev pub Outcome : Type 0 → Type 0
Outcome S = CNode × S × Result RetypeError ℕ

module _ {S : Type 0} where
  finish : CNode → S → ℕ → Result CapError CNode → Outcome S
  finish cn s new_slot (ok cn') = (cn', s, ok new_slot)
  finish cn s new_slot (err e) = (cn, s, err RetypeError.out_of_slots)

  -- The part behind `prep`: the watermark moves, and the new capability is recorded.
  commit : CNode → S → (slot : ℕ) → ObjKind → (base size carve carve_end : ℕ) → Outcome S
  unfolding finish set_cap push new_cap
  commit cn s slot kind base size carve carve_end =
      let moved = set_cap cn slot (untyped base size (carve_end - base)) in
      finish moved s cn.used (push moved (new_cap kind carve))

  prepare :
      CNode
      → S
      → (slot : ℕ) → ObjKind
      → (prep : ℕ → S → S × Bool) → (base size : ℕ) → Result RetypeError (ℕ × ℕ)
      → Outcome S
  unfolding commit
  prepare cn s slot kind prep base size (err e) = (cn, s, err e)
  prepare cn s slot kind prep base size (ok (carve, carve_end)) =
      let (s', ready) = prep carve s in
      if ready then commit cn s' slot kind base size carve carve_end else (cn, s', err prep_failed)

  retype_from :
      CNode → S → (slot : ℕ) → ObjKind → (granule : ℕ) → (prep : ℕ → S → S × Bool) → Cap → Outcome S
  unfolding prepare
  retype_from cn s slot kind granule prep (untyped base size used) =
      if cn.used == cnode_slots
      then (cn, s, err RetypeError.out_of_slots)
      else prepare cn s slot kind prep base size (carve_place base size used granule)
  retype_from cn s slot kind granule prep _ = (cn, s, err not_untyped)

  unfoldable pub retype :
      CNode → S → (slot : ℕ) → ObjKind → (granule : ℕ) → (prep : ℕ → S → S × Bool) → Outcome S
  unfolding retype_from
  retype cn s slot kind granule prep =
      if leb cn.used slot
      then (cn, s, err bad_slot)
      else retype_from cn s slot kind granule prep (cn.slots slot)

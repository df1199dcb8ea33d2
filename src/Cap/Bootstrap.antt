-- ===== src/Cap/Bootstrap.antt =====
-- `bootstrap`, `populate` and `push_untypeds`: the root CNode from the physical memory map. The
-- outer `Option` of a result is `none` if the rounds of a loop ran out.
pub mod Adds
pub mod Next
pub mod Fill
pub mod Total
pub mod Cover
use k.Base.{
  ℕ, zero, suc, ◌+◌, ◌-◌, Bool, true, false, ◌&&◌, ◌||◌, Option, none, some, List, [], ◌∷◌, ◌++◌,
  min, max, ltb, leb, ◌==◌, if◌then◌else◌, length, Result, ok, err, ◌>>=◌,
}
use k.Base.Words.{checked_add}
use k.Cap.{
  PhysRegion, end, CNode, CapError, bad_region, empty, root_tcb, addr_space, console, untyped,
  new_cnode, push,
}

abbrev pub is_none {ℓ} : {A : Type ℓ} → Option A → Bool
is_none none = true
is_none (some a) = false

-- `r.size == 0 || r.base.checked_add(r.size).is_none()`
abbrev pub is_bad : PhysRegion → Bool
is_bad r = (r.size == 0) || is_none (checked_add r.base r.size)

-- The lower of two reserved regions; the earlier one where they start together.
abbrev pub lower : Option PhysRegion → PhysRegion → PhysRegion
lower none r = r
lower (some n) r = if leb n.base r.base then n else r

-- The lowest reserved region that ends behind `cursor` and starts before `m_end`.
pub find_next :
    (cursor m_end : ℕ) → Option PhysRegion → List PhysRegion → Result CapError (Option PhysRegion)
find_next cursor m_end next [] = ok next
find_next cursor m_end next (r ∷ rs) =
    let rest =
      find_next cursor m_end
        (if ltb cursor (end r) && ltb r.base m_end then some (lower next r) else next) rs in
    if is_bad r then err bad_region else rest

abbrev pub Filled : Type 0
Filled = Option (Result CapError CNode)

-- The untyped in front of the reserved region `r`, if there is room for one.
pub push_gap : CNode → (cursor m_end : ℕ) → PhysRegion → Result CapError CNode
push_gap cn cursor m_end r =
    if ltb cursor r.base then push cn (untyped cursor (min r.base m_end - cursor) 0) else ok cn

-- The untyped behind the last reserved region.
pub push_tail : CNode → (cursor m_end : ℕ) → Result CapError CNode
push_tail cn cursor m_end =
    if ltb cursor m_end then push cn (untyped cursor (m_end - cursor) 0) else ok cn

-- `next_round` is the loop from the new cursor on.
pub behind : (CNode → ℕ → Filled) → (cursor m_end : ℕ) → PhysRegion → Result CapError CNode → Filled
behind next_round cursor m_end r (err e) = some (err e)
behind next_round cursor m_end r (ok cn) = elim (leb m_end (end r)) [
  | true ↦ some (ok cn)
  | false ↦ next_round cn (max (end r) cursor)
]

pub round :
    (CNode → ℕ → Filled) → CNode → (cursor m_end : ℕ) → Result CapError (Option PhysRegion) → Filled
unfolding push_gap push_tail behind
round next_round cn cursor m_end (err e) = some (err e)
round next_round cn cursor m_end (ok none) = some (push_tail cn cursor m_end)
round next_round cn cursor m_end (ok (some r)) =
    behind next_round cursor m_end r (push_gap cn cursor m_end r)

pub fill : (fuel : ℕ) → List PhysRegion → (m_end : ℕ) → CNode → (cursor : ℕ) → Filled
unfolding find_next round
fill zero reserved m_end cn cursor = none
fill (suc fuel) reserved m_end cn cursor =
    round (fill fuel reserved m_end) cn cursor m_end (find_next cursor m_end none reserved)

-- Each round but the last passes a reserved region, so one round more than these are is enough.
unfoldable pub push_untypeds : CNode → PhysRegion → List PhysRegion → Filled
unfolding fill
push_untypeds cn m reserved = fill (suc (length reserved)) reserved (end m) cn m.base

abbrev pub overlaps : PhysRegion → PhysRegion → Bool
overlaps m o = ltb o.base (end m) && ltb m.base (end o)

abbrev pub overlaps_any : PhysRegion → List PhysRegion → Bool
overlaps_any m [] = false
overlaps_any m (o ∷ os) = overlaps m o || overlaps_any m os

-- The first loop of `populate`: `before` holds the regions in front of the current one.
pub check_memory : (before : List PhysRegion) → List PhysRegion → Bool
check_memory before [] = true
check_memory before (m ∷ ms) =
    let rest = check_memory (before ++ (m ∷ [])) ms in
    if is_bad m then false else if overlaps_any m before then false else rest

-- The capabilities of slots 0 to 3.
pub push_fixed : CNode → (root_pa : ℕ) → Result CapError CNode
push_fixed cn root_pa = do
  cn ← push cn empty
  cn ← push cn root_tcb
  cn ← push cn (addr_space root_pa)
  push cn console

pub push_all : Result CapError CNode → List PhysRegion → List PhysRegion → Filled
push_all (err e) memory reserved = some (err e)
push_all (ok cn) [] reserved = some (ok cn)
push_all (ok cn) (m ∷ ms) reserved = elim (push_untypeds cn m reserved) [
  | none ↦ none
  | some r ↦ push_all r ms reserved
]

unfoldable pub populate : CNode → (memory reserved : List PhysRegion) → (root_pa : ℕ) → Filled
unfolding check_memory push_fixed push_all push_untypeds
populate cn memory reserved root_pa =
    if check_memory [] memory
    then push_all (push_fixed cn root_pa) memory reserved
    else some (err bad_region)

unfoldable pub bootstrap : (memory reserved : List PhysRegion) → (root_pa : ℕ) → Filled
unfolding populate new_cnode
bootstrap memory reserved root_pa = populate new_cnode memory reserved root_pa

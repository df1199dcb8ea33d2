-- ===== src/Boot.antt =====
-- kernel/src/main.rs: what the boot takes from the memory map of the device tree: the check against
-- device windows, the choice of the boot window, and the description of the capabilities for the
-- first task. A range is its start and its end; the memory map and the device windows are arguments.
pub mod Window
pub mod Spawn
pub mod Checks
pub mod Keys
pub mod Main
pub mod Init
use k.Base.{
  ℕ, zero, suc, ◌+◌, ◌-◌, ◌*◌, ◌^◌, Bool, true, false, ◌&&◌, ◌||◌, bit_and, min, max, ltb, leb,
  ◌==◌, if◌then◌else◌, update, length, List, [], ◌∷◌, Option, none, some,
}
use k.Base.Words.{checked_add, complement}
use k.Cap.{
  Cap, CNode, PhysRegion, end, empty, root_tcb, tcb, addr_space, console, untyped, frame,
  page_table, endpoint,
}
use k.Mm.{Platform, granule}

-- `m.base < dev.end && dev.start < m.base + m.size` for one device window and all banks.
abbrev pub hits_bank : (dev : ℕ × ℕ) → List PhysRegion → Bool
hits_bank dev [] = false
hits_bank (from, to) (m ∷ ms) = (ltb m.base to && ltb from (end m)) || hits_bank (from, to) ms

-- `check_memory_map`: `false` parks the kernel.
unfoldable pub check_memory_map : (devices : List (ℕ × ℕ)) → (memory : List PhysRegion) → Bool
check_memory_map [] memory = true
check_memory_map ((from, to) ∷ devices) memory =
    let rest = check_memory_map devices memory in
    if leb to from then rest else if hits_bank (from, to) memory then false else rest

abbrev pub window_size : ℕ
window_size = 2 * 1024 * 1024

abbrev pub mask_up : (g : ℕ) → Option ℕ → Option ℕ
mask_up g none = none
mask_up g (some x) = some (bit_and x (complement (g - 1)))

-- The closure `align_up` of `pick_window`.
abbrev pub align_up : Platform → ℕ → Option ℕ
align_up p v = mask_up (granule p) (checked_add v (granule p - 1))

-- One pass over the obstacles, for the window that ended at `top` when the pass began: the start
-- that is left, and whether it has moved.
abbrev pub bump : (start : ℕ) → Option ℕ → (Option (ℕ × Bool))
bump start none = none
bump start (some up) = some (max start up, true)

-- One obstacle, which ends at `r_end` if that is a word.
abbrev pub step_over :
    Platform → (top base : ℕ) → (r_end : Option ℕ) → (ℕ × Bool) → Option (ℕ × Bool)
step_over p top base none at = none
step_over p top base (some r_end) (start, moved) =
    if ltb start r_end && ltb base top then bump start (align_up p r_end) else some (start, moved)

abbrev pub and_on : Option (ℕ × Bool) → (ℕ × Bool → Option (ℕ × Bool)) → Option (ℕ × Bool)
and_on none rest = none
and_on (some at) rest = rest at

unfoldable pub pass_over : Platform → (top : ℕ) → List PhysRegion → (ℕ × Bool) → Option (ℕ × Bool)
pass_over p top [] at = some at
pass_over p top (r ∷ rs) at =
    and_on (step_over p top r.base (checked_add r.base r.size) at) (pass_over p top rs)

abbrev pub fits_bank : (start top : ℕ) → List PhysRegion → Bool
fits_bank start top [] = false
fits_bank start top (m ∷ ms) = (leb m.base start && leb top (end m)) || fits_bank start top ms

abbrev pub lower_base : Option ℕ → ℕ → Option ℕ
lower_base none b = some b
lower_base (some a) b = some (min a b)

-- The lowest bank that starts behind `start`.
abbrev pub next_bank : (start : ℕ) → List PhysRegion → Option ℕ
next_bank start [] = none
next_bank start (m ∷ ms) =
    let rest = next_bank start ms in if ltb start m.base then lower_base rest m.base else rest

abbrev pub align_next : Platform → Option ℕ → Option ℕ
align_next p none = none
align_next p (some b) = align_up p b

abbrev pub and_again : (ℕ → Option (ℕ × ℕ)) → Option ℕ → Option (ℕ × ℕ)
and_again again none = none
and_again again (some start) = again start

-- What follows a pass: the next round if the start has moved, a bank that holds the window, or the
-- next round from the next bank.
abbrev pub settle_on :
    Platform
    → (memory : List PhysRegion) → (top : ℕ) → (again : ℕ → Option (ℕ × ℕ)) → Option (ℕ × Bool)
    → Option (ℕ × ℕ)
settle_on p memory top again none = none
settle_on p memory top again (some (start, true)) = again start
settle_on p memory top again (some (start, false)) =
    if fits_bank start top memory
    then some (start, top)
    else and_again again (align_next p (next_bank start memory))

abbrev pub seek_round :
    Platform
    → (obstacles memory : List PhysRegion) → (start : ℕ) → (again : ℕ → Option (ℕ × ℕ)) → Option ℕ
    → Option (ℕ × ℕ)
seek_round p obstacles memory start again none = none
seek_round p obstacles memory start again (some top) =
    settle_on p memory top again (pass_over p top obstacles (start, false))

-- The rounds of the loop; `none` where the source returns `None`.
unfoldable pub seek :
    Platform → (obstacles memory : List PhysRegion) → (rounds start : ℕ) → Option (ℕ × ℕ)
seek p obstacles memory zero start = none
seek p obstacles memory (suc rounds) start =
    seek_round p obstacles memory start (seek p obstacles memory rounds)
      (checked_add start window_size)

abbrev pub seek_from : Platform → (obstacles memory : List PhysRegion) → Option ℕ → Option (ℕ × ℕ)
seek_from p obstacles memory none = none
seek_from p obstacles memory (some start) = seek p obstacles memory 64 start

unfoldable pub pick_window :
    Platform
    → (dtb : PhysRegion) → (reserved memory : List PhysRegion) → (kernel_end : ℕ) → Option (ℕ × ℕ)
pick_window p dtb reserved memory kernel_end =
    seek_from p (dtb ∷ reserved) memory (align_up p kernel_end)

pub record CapDesc : Type 0 where
  pub kind : ℕ
  pub base : ℕ
  pub size : ℕ

abbrev pub plain : ℕ → CapDesc
plain kind = record { kind = kind; base = 0; size = 0 }

-- What the first task learns of a capability.
unfoldable pub describe : Cap → CapDesc
describe empty = plain 0
describe root_tcb = plain 1
describe (tcb base) = plain 1
describe (addr_space root_pa) = plain 2
describe console = plain 7
describe (untyped base size used) = record { kind = 3; base = base; size = size }
describe (frame base mapped) = plain 4
describe (page_table base installed) = plain 5
describe (endpoint base) = plain 6

pub record Header : Type 0 where
  pub version : ℕ
  pub frame_size : ℕ
  pub cap_count : ℕ

-- The page as `write_bootinfo` leaves it: the header, and a descriptor for each used slot.
unfoldable pub write_bootinfo : Platform → CNode → Header × (ℕ → Option CapDesc)
write_bootinfo p cn = (
  record { version = 1; frame_size = granule p; cap_count = cn.used },
  λ i. if ltb i cn.used then some (describe (cn.slots i)) else none,
)

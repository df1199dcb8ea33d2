-- ===== src/Boot/Checks.antt =====
-- kernel/src/main.rs: check_wx, check_user_wx and device_windows; crates/k0-boot/src/roottask.rs:
-- verify_root_task. What the AT instructions of the processor answer, and the digest SHA-256, are arguments.
use k.Base.{
  ℕ, ◌+◌, ◌-◌, Bool, true, false, ◌&&◌, not, if◌then◌else◌, List, [], ◌∷◌, Option, none, some,
  Result, ok, err,
}
use k.Base.Bytes.{bytes_eq}
use k.Abi.{kernel_va_offset}
use k.Mm.{Platform, virt, apple, granule}
use k.Irq.{gicd_base, gicd_size, gicr_base, gicr_size}
use k.Boot.Spawn.{user_stack_top, user_stack_size, bootinfo_va, LoadSeg, is_text}

-- What AT S1E1R, S1E1W, S1E1RP, S1E0R and S1E0W answer for an address.
pub record At : Type 0 where
  pub can_read : ℕ → Bool
  pub can_write : ℕ → Bool
  pub can_read_pan_checked : ℕ → Bool
  pub can_user_read : ℕ → Bool
  pub can_user_write : ℕ → Bool

-- The symbols of the linker, as addresses of the higher half.
pub record Symbols : Type 0 where
  pub text : ℕ
  pub rodata : ℕ
  pub stack_bottom : ℕ
  pub stack_top : ℕ

-- A table of what was found and what is wanted.
abbrev pub all_hold : List (Bool × Bool) → Bool
all_hold [] = true
all_hold ((got, want) ∷ checks) = (if want then got else not got) && all_hold checks

-- `false` parks the kernel.
unfoldable pub check_wx : Platform → Symbols → At → Bool
check_wx p s a = all_hold (
    (a.can_read s.text, true)
    ∷ (a.can_write s.text, false)
    ∷ (a.can_write s.rodata, false)
    ∷ (a.can_read (s.stack_bottom - granule p), false)
    ∷ (a.can_write (s.stack_top - granule p), true)
    ∷ (a.can_read (s.text - kernel_va_offset), true)
    ∷ [])

abbrev pub find_text : List LoadSeg → Option ℕ
find_text [] = none
find_text (s ∷ ss) = if is_text s.kind then some s.va else find_text ss

abbrev pub user_checks : Platform → Symbols → At → (pan2 : Bool) → Option ℕ → Bool
user_checks p s a pan2 none = false
user_checks p s a pan2 (some text) =
    let g = granule p in
    let guard = user_stack_top - user_stack_size - g in
    all_hold (
      (a.can_user_read text, true)
      ∷ (a.can_user_write text, false)
      ∷ (a.can_user_write (user_stack_top - g), true)
      ∷ (a.can_user_read guard, false)
      ∷ (a.can_user_read s.text, false)
      ∷ (a.can_user_read bootinfo_va, true)
      ∷ (a.can_user_write bootinfo_va, false)
      ∷ (if pan2 then (a.can_read_pan_checked text, false) else (a.can_read text, true))
      ∷ (a.can_read (s.text - kernel_va_offset), false)
      ∷ [])

-- `false` parks the kernel; `pan2` is that FEAT_PAN2 was found.
unfoldable pub check_user_wx : Platform → Symbols → At → List LoadSeg → (pan2 : Bool) → Bool
check_user_wx p s a segs pan2 = user_checks p s a pan2 (find_text segs)

abbrev pub mmio_base : Platform → ℕ
mmio_base virt = 0x09000000
mmio_base apple = 0x235200000

-- Start and end of each window; an empty one holds a place.
abbrev pub device_windows : Platform → List (ℕ × ℕ)
device_windows virt =
    (mmio_base virt, mmio_base virt + granule virt)
    ∷ (gicd_base, gicd_base + gicd_size)
    ∷ (gicr_base, gicr_base + gicr_size)
    ∷ []
device_windows apple = (mmio_base apple, mmio_base apple + granule apple) ∷ (0, 0) ∷ (0, 0) ∷ []

-- The image of the first task; `content` gives its words, by offset.
pub record RootTask : Type 0 where
  pub content : ℕ → ℕ
  pub len : ℕ
  pub base : ℕ
  pub entry : ℕ
  pub segments : List LoadSeg

pub data VerifyError : Type 0 where
  hash_mismatch : VerifyError

-- `sha256` is the digest that was built into the kernel.
unfoldable pub verify_root_task :
    (digest : (ℕ → ℕ) → (len : ℕ) → List ℕ)
    → (sha256 : List ℕ) → RootTask
    → Result VerifyError RootTask
verify_root_task digest sha256 task =
    if bytes_eq (digest task.content task.len) sha256 then ok task else err hash_mismatch

-- ===== src/Fdt.antt =====
-- crates/k0-boot/src/fdt.rs: what the parser of the device tree blob reads with, and what it fills.
-- A blob is the list of its bytes.
pub mod Reg
pub mod Tree
pub mod Outcomes
pub mod Filled
pub mod Total
pub mod Accepted
pub mod Builder
pub mod RegTrip
pub mod Board
pub mod At
pub mod Names
pub mod Calls
pub mod Written
pub mod Blob
pub mod Shows
pub mod Seeds
pub mod Nodes
pub mod Children
pub mod Texts
pub mod RoundTrip
use k.Base.{
  length, get_elem?, ℕ, zero, suc, ◌+◌, ◌-◌, ◌*◌, ◌/◌, ◌%◌, ◌^◌, Bool, true, false, ltb, leb, ◌==◌,
  if◌then◌else◌, List, [], ◌∷◌, ◌++◌, Option, none, some,
}
use k.Base.Words.{word_size, checked_add}
use k.Base.Bytes.{slice, get_range, from_be}

abbrev pub max_mem_regions : ℕ
max_mem_regions = 8

abbrev pub max_rsv_regions : ℕ
max_rsv_regions = 8

abbrev pub max_entropy : ℕ
max_entropy = 72

abbrev pub fdt_magic : ℕ
fdt_magic = 0xd00dfeed

abbrev pub header_size : ℕ
header_size = 40

abbrev pub max_dtb_size : ℕ
max_dtb_size = 2 * 1024 * 1024

abbrev pub max_depth : ℕ
max_depth = 32

abbrev pub supported_version : ℕ
supported_version = 17

pub record MemRegion : Type 0 where
  pub base : ℕ
  pub size : ℕ

-- The arrays are functions from the index; their lengths are `max_mem_regions`, `max_rsv_regions`
-- and `max_entropy`. `dtb` is from `dtb_start` up to `dtb_end`.
pub record BootInfo : Type 0 where
  pub dtb_start : ℕ
  pub dtb_end : ℕ
  pub regions : ℕ → MemRegion
  pub region_count : ℕ
  pub reserved : ℕ → MemRegion
  pub reserved_count : ℕ
  pub entropy : ℕ → ℕ
  pub entropy_len : ℕ

pub data BootError : Type 0 where
  null_pointer misaligned bad_magic bad_header unsupported_version overlaps_kernel truncated :
      BootError
  bad_structure too_deep bad_string unsupported_cells bad_reg too_many_regions no_memory : BootError

-- A run of the code: its `Result`, a panic, or a loop that has used up its rounds.
pub data Outcome {ℓ} (A : Type ℓ) : Type ℓ where
  ok : A → Outcome A
  err : BootError → Outcome A
  panic : Outcome A
  unfinished : Outcome A

infixl 5 ◌>>=◌
abbrev pub ◌>>=◌ {ℓ κ} : {A : Type ℓ} {B : Type κ} → Outcome A → (A → Outcome B) → Outcome B
ok a >>= rest = rest a
err e >>= rest = err e
panic >>= rest = panic
unfinished >>= rest = unfinished

-- `o.ok_or(e)?`
abbrev pub ok_or {ℓ} : {A : Type ℓ} → Option A → BootError → Outcome A
ok_or none e = err e
ok_or (some a) e = ok a

-- `if bad { return Err(e) }`
abbrev pub refuse : Bool → BootError → Outcome (Unit {0})
refuse true e = err e
refuse false e = ok tt

-- `a + b` on `usize`, with the overflow check.
abbrev pub add : ℕ → ℕ → Outcome ℕ
add a b = if ltb (a + b) word_size then ok (a + b) else panic

-- `&xs[from..to]`
unfoldable pub index_range : List ℕ → (from to : ℕ) → Outcome (List ℕ)
index_range xs from to =
    if leb from to then (if leb to (length xs) then ok (slice xs from to) else panic) else panic

abbrev pub wrapping_add : ℕ → ℕ → ℕ
wrapping_add a b = (a + b) % word_size

unfoldable pub be32 : (blob : List ℕ) (off : ℕ) → Outcome ℕ
be32 blob off = do b ← ok_or (get_range blob off (wrapping_add off 4)) truncated; ok (from_be b)

unfoldable pub be64 : (blob : List ℕ) (off : ℕ) → Outcome ℕ
be64 blob off = do b ← ok_or (get_range blob off (wrapping_add off 8)) truncated; ok (from_be b)

-- `v & !3`
abbrev pub clear_low : Option ℕ → Outcome ℕ
clear_low none = err truncated
clear_low (some v) = ok (v - v % 4)

unfoldable pub align4 : ℕ → Outcome ℕ
align4 off = clear_low (checked_add off 3)

-- `a.checked_add(b).filter(|&e| e <= limit)`
abbrev pub at_most : (limit : ℕ) → Option ℕ → Option ℕ
at_most limit none = none
at_most limit (some e) = if leb e limit then some e else none

-- `a.checked_add(b).filter(|&e| e < limit)`
abbrev pub below : (limit : ℕ) → Option ℕ → Option ℕ
below limit none = none
below limit (some e) = if ltb e limit then some e else none

-- The first `n` elements of an array, as `memory`, `reserved` and `entropy` return them.
unfoldable pub prefix {ℓ} : {A : Type ℓ} → (ℕ → A) → ℕ → List A
prefix f zero = []
prefix f (suc n) = prefix f n ++ (f n ∷ [])

abbrev pub memory : BootInfo → List MemRegion
memory info = prefix info.regions info.region_count

abbrev pub reserved_list : BootInfo → List MemRegion
reserved_list info = prefix info.reserved info.reserved_count

abbrev pub entropy_list : BootInfo → List ℕ
entropy_list info = prefix info.entropy info.entropy_len

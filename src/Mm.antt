-- ===== src/Mm.antt =====
-- crates/k0-mm/src/paging.rs: the granule of a platform, descriptors and their fields, the index of
-- an address at each level. Tables are memory words by physical address: the kernel reads and writes
-- them at that address plus `kernel_va_offset`.
pub mod Bits
pub mod User
pub mod Walk
pub mod Mapping
pub mod Tables
pub mod Pool
pub mod Paging
pub mod Builder
use k.Base.{ℕ, ◌+◌, ◌-◌, ◌*◌, ◌/◌, ◌^◌, bit_and, bit_or, ◌==◌, if◌then◌else◌}
use k.Base.Words.{complement}

-- The features `plat-virt` and `plat-apple`.
pub data Platform : Type 0 where
  virt apple : Platform

-- `GRANULE.trailing_zeros()`
abbrev pub page_shift : Platform → ℕ
page_shift virt = 12
page_shift apple = 14

abbrev pub granule : Platform → ℕ
granule p = 2 ^ page_shift p

abbrev pub bits_per_level : Platform → ℕ
bits_per_level p = page_shift p - 3

abbrev pub addr_mask : Platform → ℕ
addr_mask p = bit_and (2 ^ 48 - 1) (complement (granule p - 1))

abbrev pub desc_table : ℕ
desc_table = 3

abbrev pub desc_page : ℕ
desc_page = 3

abbrev pub attr_af : ℕ
attr_af = 2 ^ 10

abbrev pub sh_inner : ℕ
sh_inner = 3 * 2 ^ 8

abbrev pub sh_outer : ℕ
sh_outer = 2 * 2 ^ 8

abbrev pub ap_ro : ℕ
ap_ro = 2 * 2 ^ 6

abbrev pub ap_rw : ℕ
ap_rw = 0 * 2 ^ 6

abbrev pub ap_ro_all : ℕ
ap_ro_all = 3 * 2 ^ 6

abbrev pub ap_rw_all : ℕ
ap_rw_all = 1 * 2 ^ 6

abbrev pub pxn : ℕ
pxn = 2 ^ 53

abbrev pub uxn : ℕ
uxn = 2 ^ 54

abbrev pub idx_normal : ℕ
idx_normal = 0 * 2 ^ 2

abbrev pub idx_device : ℕ
idx_device = 1 * 2 ^ 2

pub data MmuError : Type 0 where
  already_enabled not_enabled granule_unsupported out_of_tables out_of_frames : MmuError
  misaligned overlap null_page bad_table missing_table : MmuError

-- Where the entry of `va` stands in a table of the given level, 0 to 3.
unfoldable pub index : Platform → (va level : ℕ) → ℕ
index p va level =
    let shift = page_shift p + bits_per_level p * (3 - level) in
    let bits = if level == 0 then 48 - shift else bits_per_level p in
    bit_and (va / 2 ^ shift) (2 ^ bits - 1)

-- Table words by physical address.
abbrev pub Memory : Type 0
Memory = ℕ → ℕ

-- `entry_ptr`, without the offset of the alias.
abbrev pub entry : (table idx : ℕ) → ℕ
entry table idx = table + idx * 8

-- ===== src/Boot/Init.antt =====
-- kernel/src/main.rs: kernel_init and enable_mmu, from the boot code to kernel_main.
use k.Base.{ℕ, ◌-◌}
use k.Abi.{kernel_va_offset}
use k.Mm.{granule}
use k.Mm.Paging.{KernelLayout, enable_paging}
use k.Fdt.Tree.{dtb_span}
use k.Boot.Checks.{device_windows}
use k.Boot.Main.{Boot, ◌>>=◌, mapped_or_park, parsed_or_park, Setup, Started, kernel_main}

-- The machine before the jump: what `kernel_main` will find, with the pool of kernel tables not yet in use.
pub record Reset : Type 0 where
  pub later : Setup
  pub bytes : ℕ → ℕ  -- the bytes of memory, at their physical addresses
  pub mmfr0 : ℕ  -- `ID_AA64MMFR0_EL1`
  pub data_start : ℕ  -- the physical address of `__data_start`

-- `pa`
abbrev pub pa : ℕ → ℕ
pa symbol = symbol - kernel_va_offset

abbrev pub layout_of : Reset → (dtb : ℕ × ℕ) → KernelLayout
layout_of r dtb =
    let s = r.later in
    let g = granule s.platform in
    record {
      text = (pa s.symbols.text, pa s.symbols.rodata);
      rodata = (pa s.symbols.rodata, r.data_start);
      rw0 = (r.data_start, pa s.symbols.stack_bottom - g);
      rw1 = (pa s.symbols.stack_bottom, pa s.symbols.stack_top);
      dtb = dtb;
      devices = device_windows s.platform;
    }

unfoldable pub kernel_init : Reset → Boot Started
kernel_init r = do
  let s = r.later
  dtb ← parsed_or_park (dtb_span r.bytes s.dtb_phys)
  let (pool, mmu) = enable_paging s.platform s.pool_base r.mmfr0 (layout_of r dtb) s.pool
  on ← mapped_or_park mmu
  kernel_main (record s { pool = pool })

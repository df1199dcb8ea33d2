-- ===== src/Mm/Paging.antt =====
-- crates/k0-mm/src/paging.rs: enable_paging, which builds the first kernel tables, below two roots, and turns
-- the MMU on. The registers that it sets are its answer.
use k.Base.{
  ℕ, ◌+◌, ◌-◌, ◌*◌, ◌/◌, ◌^◌, Bool, true, ◌||◌, bit_and, bit_or, min, ltb, leb, ◌==◌, if◌then◌else◌,
  List, [], ◌∷◌, Result, ok, err,
}
use k.Base.Words.{word_size, complement}
use k.Mm.{
  Platform, virt, apple, granule, MmuError, already_enabled, granule_unsupported, misaligned,
}
use k.Mm.Pool.{
  Perm, text, ro, rw, device, Pool, alloc, table_pa, and_more, map_range, map_alias, Mapped,
  all_mapped, refused, panic,
}

pub record KernelLayout : Type 0 where
  pub text : ℕ × ℕ
  pub rodata : ℕ × ℕ
  pub rw0 : ℕ × ℕ
  pub rw1 : ℕ × ℕ
  pub dtb : ℕ × ℕ
  pub devices : List (ℕ × ℕ)

-- The field of four bits of ID_AA64MMFR0_EL1 from bit `at` on.
abbrev pub field : (mmfr0 at : ℕ) → ℕ
field mmfr0 at = bit_and (mmfr0 / 2 ^ at) 0xF

abbrev pub granule_ok : Platform → (mmfr0 : ℕ) → Bool
granule_ok virt mmfr0 = (field mmfr0 28 == 0) || (field mmfr0 28 == 1)
granule_ok apple mmfr0 = (field mmfr0 20 == 1) || (field mmfr0 20 == 2)

unfoldable pub check_features : Platform → (mmfr0 : ℕ) → Result MmuError ℕ
check_features p mmfr0 =
    if granule_ok p mmfr0 then ok (min (bit_and mmfr0 0xF) 5) else err granule_unsupported

abbrev pub granule_codes : Platform → ℕ × ℕ
granule_codes virt = (0, 2)
granule_codes apple = (2, 1)

-- One half of TCR_EL1, for the granule code `tg`.
abbrev pub half_tcr : (tg : ℕ) → ℕ
half_tcr tg = bit_or (bit_or (bit_or (bit_or 16 (2 ^ 8)) (2 ^ 10)) (3 * 2 ^ 12)) (tg * 2 ^ 14)

unfoldable pub tcr : Platform → (ips : ℕ) → ℕ
tcr p ips =
    bit_or (bit_or (half_tcr (granule_codes p).0) (half_tcr (granule_codes p).1 * 2 ^ 16))
      (ips * 2 ^ 32)

-- What `switch_on` sets.
pub record Registers : Type 0 where
  pub ttbr0 : ℕ
  pub ttbr1 : ℕ
  pub tcr_el1 : ℕ

abbrev pub Paged : Type 0
Paged = Pool × Mapped (Unit {0})

module _ (p : Platform) (base root0 root1 : ℕ) where
  -- One range below both roots.
  abbrev pub map_both : Pool → (start len : ℕ) → Perm → Paged
  map_both pool start len perm =
      and_more (map_range p base pool root0 start start len perm)
        (λ pool. map_alias p base pool root1 start len perm)

  unfoldable pub map_segments : List (ℕ × ℕ × Perm) → Pool → Paged
  map_segments [] pool = (pool, all_mapped tt)
  map_segments ((start, end, perm) ∷ segments) pool =
      if ltb end start
      then (pool, refused misaligned)
      else if end - start == 0
      then map_segments segments pool
      else and_more (map_both pool start (end - start) perm) (map_segments segments)

  unfoldable pub map_devices : List (ℕ × ℕ) → Pool → Paged
  map_devices [] pool = (pool, all_mapped tt)
  map_devices ((start, end) ∷ devices) pool =
      if leb end start
      then map_devices devices pool
      else and_more (map_both pool start (end - start) device) (map_devices devices)

-- The start of the granule that holds `a`.
abbrev pub granule_start : Platform → ℕ → ℕ
granule_start p a = bit_and a (complement (granule p - 1))

-- `a.div_ceil(g) * g`
abbrev pub granule_end : Platform → ℕ → ℕ
granule_end p a = (a + (granule p - 1)) / granule p * granule p

abbrev pub segments_of : Platform → KernelLayout → List (ℕ × ℕ × Perm)
segments_of p layout =
    (layout.text.0, layout.text.1, text)
    ∷ (layout.rodata.0, layout.rodata.1, ro)
    ∷ (layout.rw0.0, layout.rw0.1, rw)
    ∷ (layout.rw1.0, layout.rw1.1, rw)
    ∷ (granule_start p layout.dtb.0, granule_end p layout.dtb.1, ro)
    ∷ []

abbrev pub Powered : Type 0
Powered = Pool × Mapped Registers

abbrev pub switch_on : Platform → (base root0 root1 ips : ℕ) → Pool → Powered
switch_on p base root0 root1 ips pool = (
  record pool { enabled = true; root1 = root1 },
  all_mapped (record {
    ttbr0 = table_pa p base root0;
    ttbr1 = table_pa p base root1;
    tcr_el1 = tcr p ips;
  }),
)

abbrev pub map_layout :
    Platform → (base ips : ℕ) → KernelLayout → (root0 root1 : ℕ) → Pool → Powered
map_layout p base ips layout root0 root1 pool =
    if ltb (granule_end p layout.dtb.1) word_size
    then and_more
        (and_more (map_segments p base root0 root1 (segments_of p layout) pool)
          (map_devices p base root0 root1 layout.devices))
        (switch_on p base root0 root1 ips)
    else (pool, panic)

-- `?` on `pool.alloc()`.
abbrev pub with_root : Pool → Result MmuError (Pool × ℕ) → (ℕ → Pool → Powered) → Powered
with_root pool (err e) rest = (pool, refused e)
with_root pool (ok (grown, root)) rest = rest root grown

abbrev pub build_tables : Platform → (base : ℕ) → KernelLayout → Pool → Result MmuError ℕ → Powered
build_tables p base layout pool (err e) = (pool, refused e)
build_tables p base layout pool (ok ips) =
    if pool.enabled
    then (pool, refused already_enabled)
    else with_root pool (alloc pool) (λ root0 pool.
      with_root pool (alloc pool) (λ root1 pool. map_layout p base ips layout root0 root1 pool))

unfoldable pub enable_paging : Platform → (base mmfr0 : ℕ) → KernelLayout → Pool → Powered
enable_paging p base mmfr0 layout pool = build_tables p base layout pool (check_features p mmfr0)

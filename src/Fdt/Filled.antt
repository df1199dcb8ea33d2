-- ===== src/Fdt/Filled.antt =====
-- crates/k0-boot/src/fdt.rs: what holds of a BootInfo while it is filled.
use k.Base.{
  length, ℕ, zero, suc, ◌+◌, ◌*◌, ◌/◌, ◌%◌, ◌≤◌, ◌<◌, ◌≡◌, ◌⊎◌, arith, true, false, not, ◌&&◌, ◌||◌,
  ltb, ◌==◌, update, List, some, Bool-cases, inl, inr,
}
use k.Base.Words.{word_size, checked_add}
use k.Base.Bytes.{take, drop}
use k.Fdt.{
  max_mem_regions, max_rsv_regions, max_entropy, MemRegion, BootInfo, bad_reg, too_many_regions,
  truncated,
}
use k.Fdt.Reg.{
  read_cells, Regions, put, reg_entry, reg_loop, one_or_two, parse_reg, push_regions,
  push_reserved_regions, push_reserved, push_entropy, rsv_loop,
}
use k.Fdt.Outcomes.{
  Returns, returned, >>=-Returns, ok_or-Returns, refuse-Returns, add-Returns, if-Returns,
  be64-Returns,
}

-- A region that is kept has a size, and ends in the address space.
abbrev pub IsRegion : MemRegion → Type 0
IsRegion r = (0 < r.size) × (r.base + r.size < word_size)

abbrev pub AreRegions : (len : ℕ) → (ℕ → MemRegion) → (count : ℕ) → Type 0
AreRegions len out count = (count ≤ len) × ((i : ℕ) → i < count → IsRegion (out i))

pub record IsFilled (dtb_start dtb_end : ℕ) (info : BootInfo) : Type 0 where
  pub start : info.dtb_start ≡ dtb_start
  pub end : info.dtb_end ≡ dtb_end
  pub memory : AreRegions max_mem_regions info.regions info.region_count
  pub reserved : AreRegions max_rsv_regions info.reserved info.reserved_count
  pub entropy : info.entropy_len ≤ max_entropy

abbrev AreFilled : (len : ℕ) → Regions → Type 0
AreFilled len rs = AreRegions len rs.0 rs.1

put-AreFilled :
    (len : ℕ) (r : MemRegion) (out : ℕ → MemRegion) (count : ℕ)
    → IsRegion r
    → AreRegions len out count
    → (count == len) ≡ false
    → Returns (AreFilled len) (put len r (out, count))
put-AreFilled len r out count good (bound, all) room =
    if-Returns (ltb count len) _ _
      (λ fits. returned _ (ground arith, λ i below. kept i below (Bool-cases (i == count))))
      (λ over. absurd (ground arith))
  where
    kept :
        (i : ℕ)
        → i < suc count
        → ((i == count) ≡ true) ⊎ ((i == count) ≡ false)
        → IsRegion (update out count r i)
    kept i below (inl same) = rw same good
    kept i below (inr other) = rw other (all i (ground arith))

-- `checked_add` has passed, and the size is not 0.
fits : (base size : ℕ) {end : ℕ} → checked_add base size ≡ some end → base + size < word_size
fits base size h = ground arith

reg_entry-AreFilled :
    (len addr_len : ℕ) (chunk : List ℕ) (rs : Regions)
    → AreFilled len rs
    → Returns (AreFilled len) (reg_entry len addr_len chunk rs)
unfolding reg_entry
reg_entry-AreFilled len addr_len chunk (out, count) h =
    let base = read_cells (take addr_len chunk) in
    let size = read_cells (drop addr_len chunk) in
    if-Returns (size == 0) _ _ (λ empty. returned _ h)
      (λ some_size. ok_or-Returns (checked_add base size) bad_reg _ (λ end e.
        refuse-Returns (count == len) too_many_regions _
          (λ room. put-AreFilled len _ out count (ground arith, fits base size e) h room)))

reg_loop-AreFilled :
    (len addr_len entry n : ℕ) (value : List ℕ) (rs : Regions)
    → AreFilled len rs
    → Returns (AreFilled len) (reg_loop len addr_len entry n value rs)
unfolding reg_loop
reg_loop-AreFilled len addr_len entry zero value rs h = returned rs h
reg_loop-AreFilled len addr_len entry (suc n) value rs h =
    >>=-Returns _ (reg_entry-AreFilled len addr_len (take entry value) rs h)
      (λ rs' h'. reg_loop-AreFilled len addr_len entry n (drop entry value) rs' h')

pub parse_reg-AreFilled :
    (value : List ℕ) (addr_cells size_cells len : ℕ) (rs : Regions)
    → AreFilled len rs
    → Returns (AreFilled len) (parse_reg value addr_cells size_cells len rs)
unfolding parse_reg
parse_reg-AreFilled value addr_cells size_cells len rs h =
    refuse-Returns (not (one_or_two addr_cells) || not (one_or_two size_cells)) _ _ (λ cells.
      let entry = (addr_cells + size_cells) * 4 in
      refuse-Returns (length value == 0 || not (length value % entry == 0)) _ _
        (λ whole. reg_loop-AreFilled len (addr_cells * 4) entry (length value / entry) value rs h))

module _ (dtb_start dtb_end : ℕ) where
  pub push_regions-IsFilled :
      (value : List ℕ) (addr_cells size_cells : ℕ) (info : BootInfo)
      → IsFilled dtb_start dtb_end info
      → Returns (IsFilled dtb_start dtb_end) (push_regions value addr_cells size_cells info)
  unfolding push_regions
  push_regions-IsFilled value addr_cells size_cells info h =
      >>=-Returns _
        (parse_reg-AreFilled value addr_cells size_cells max_mem_regions
          (info.regions, info.region_count) h.memory)
        (λ rs m. returned _ (record {
          start = h.start;
          end = h.end;
          memory = m;
          reserved = h.reserved;
          entropy = h.entropy;
        }))

  pub push_reserved_regions-IsFilled :
      (value : List ℕ) (addr_cells size_cells : ℕ) (info : BootInfo)
      → IsFilled dtb_start dtb_end info
      → Returns
          (IsFilled dtb_start dtb_end)
          (push_reserved_regions value addr_cells size_cells info)
  unfolding push_reserved_regions
  push_reserved_regions-IsFilled value addr_cells size_cells info h =
      >>=-Returns _
        (parse_reg-AreFilled value addr_cells size_cells max_rsv_regions
          (info.reserved, info.reserved_count) h.reserved)
        (λ rs m. returned _ (record {
          start = h.start;
          end = h.end;
          memory = h.memory;
          reserved = m;
          entropy = h.entropy;
        }))

  pub push_reserved-IsFilled :
      (info : BootInfo) (base size : ℕ)
      → (size == 0) ≡ false
      → IsFilled dtb_start dtb_end info
      → Returns (IsFilled dtb_start dtb_end) (push_reserved info base size)
  unfolding push_reserved
  push_reserved-IsFilled info base size some_size h =
      ok_or-Returns (checked_add base size) bad_reg _ (λ end e.
        refuse-Returns (info.reserved_count == max_rsv_regions) _ _ (λ room.
          >>=-Returns _
            (put-AreFilled max_rsv_regions _ info.reserved info.reserved_count
              (ground arith, fits base size e) h.reserved room)
            (λ rs m. returned _ (record {
              start = h.start;
              end = h.end;
              memory = h.memory;
              reserved = m;
              entropy = h.entropy;
            }))))

  pub push_entropy-IsFilled :
      (value : List ℕ) (info : BootInfo)
      → IsFilled dtb_start dtb_end info
      → Returns (IsFilled dtb_start dtb_end) (push_entropy value info)
  unfolding push_entropy
  push_entropy-IsFilled value info h =
      if-Returns (ltb max_entropy info.entropy_len) _ _ (λ over. absurd (ground (arith, h.entropy)))
        (λ fits. returned _ (record {
          start = h.start;
          end = h.end;
          memory = h.memory;
          reserved = h.reserved;
          entropy = ground arith;
        }))

  -- With more rounds than bytes behind the offset, the loop ends by itself.
  pub rsv_loop-IsFilled :
      (fuel : ℕ) (blob : List ℕ) (off : ℕ) (info : BootInfo)
      → length blob < word_size
      → 0 < fuel
      → length blob < fuel + off
      → IsFilled dtb_start dtb_end info
      → Returns (IsFilled dtb_start dtb_end) (rsv_loop fuel blob off info)
  unfolding rsv_loop
  rsv_loop-IsFilled zero blob off info small some_fuel enough h = absurd (omega arith)
  rsv_loop-IsFilled (suc fuel) blob off info small some_fuel enough h =
      >>=-Returns _ (be64-Returns blob off) (λ base first. add-Returns off 8 _ (omega arith) (
        >>=-Returns _ (be64-Returns blob (off + 8)) (λ size second.
          ok_or-Returns (checked_add off 16) truncated _ (λ next e.
            if-Returns (base == 0 && size == 0) _ _ (λ last. returned info h)
              (λ more.
                if-Returns (size == 0) _ _
                  (λ empty.
                    rsv_loop-IsFilled fuel blob next info small (ground arith) (ground arith) h)
                  (λ some_size.
                    >>=-Returns _ (push_reserved-IsFilled info base size some_size h) (λ info' h'.
                      rsv_loop-IsFilled fuel blob next info' small (ground arith) (ground arith)
                        h')))))))

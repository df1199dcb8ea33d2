-- ===== src/Fdt/Reg.antt =====
-- crates/k0-boot/src/fdt.rs: cells, `reg` properties, the memreserve block and the seeds.
use k.Base.{
  length, get_elem?, ℕ, zero, suc, ◌+◌, ◌-◌, ◌*◌, ◌/◌, ◌%◌, Bool, not, ◌&&◌, ◌||◌, bit_or, ltb, leb,
  ◌==◌, if◌then◌else◌, update, List, [], ◌∷◌, none, some, min,
}
use k.Base.Words.{word_size, checked_add}
use k.Base.Bytes.{take, drop, from_be}
use k.Fdt.{
  max_mem_regions, max_rsv_regions, max_entropy, MemRegion, BootInfo, truncated, unsupported_cells,
  bad_reg, too_many_regions, Outcome, ok, err, panic, unfinished, ◌>>=◌, ok_or, refuse, add, be64,
}

unfoldable pub cell_count : List ℕ → Outcome ℕ
cell_count value = if length value == 4 then ok (from_be value) else err unsupported_cells

-- `bytes.iter().fold(0, |acc, &b| (acc << 8) | b)` on `u64`.
unfoldable pub read_after : (acc : ℕ) → List ℕ → ℕ
read_after acc [] = acc
read_after acc (b ∷ bs) = read_after (bit_or (acc * 256 % word_size) b) bs

abbrev pub read_cells : List ℕ → ℕ
read_cells = read_after 0

-- `out` with `count`.
abbrev pub Regions : Type 0
Regions = (ℕ → MemRegion) × ℕ

-- `out[*count] = r; *count += 1`, which panics beyond the `len` elements.
abbrev pub put : (len : ℕ) → MemRegion → Regions → Outcome Regions
put len r (out, count) = if ltb count len then ok (update out count r, suc count) else panic

-- One chunk, with a base of `addr_len` bytes.
unfoldable pub reg_entry : (len addr_len : ℕ) → (chunk : List ℕ) → Regions → Outcome Regions
reg_entry len addr_len chunk (out, count) =
    let base = read_cells (take addr_len chunk) in
    let size = read_cells (drop addr_len chunk) in
    if size == 0 then ok (out, count) else do
      end ← ok_or (checked_add base size) bad_reg
      full ← refuse (count == len) too_many_regions
      put len (record { base = base; size = size }) (out, count)

-- `chunks_exact(entry)`: `n` chunks.
unfoldable pub reg_loop : (len addr_len entry n : ℕ) → (value : List ℕ) → Regions → Outcome Regions
reg_loop len addr_len entry zero value rs = ok rs
reg_loop len addr_len entry (suc n) value rs =
    reg_entry len addr_len (take entry value) rs
    >>= reg_loop len addr_len entry n (drop entry value)

abbrev pub one_or_two : ℕ → Bool
one_or_two n = leb 1 n && leb n 2

-- `len` is `out.len()`. The cells are 1 or 2 where they are added, so the sum cannot overflow.
unfoldable pub parse_reg :
    (value : List ℕ) → (addr_cells size_cells len : ℕ) → Regions → Outcome Regions
parse_reg value addr_cells size_cells len rs = do
  cells ← refuse (not (one_or_two addr_cells) || not (one_or_two size_cells)) unsupported_cells
  let entry = (addr_cells + size_cells) * 4
  whole ← refuse (length value == 0 || not (length value % entry == 0)) bad_reg
  reg_loop len (addr_cells * 4) entry (length value / entry) value rs

unfoldable pub push_regions :
    (value : List ℕ) → (addr_cells size_cells : ℕ) → BootInfo → Outcome BootInfo
push_regions value addr_cells size_cells info = do
  (out, count) ←
      parse_reg value addr_cells size_cells max_mem_regions (info.regions, info.region_count)
  ok (record info { regions = out; region_count = count })

unfoldable pub push_reserved_regions :
    (value : List ℕ) → (addr_cells size_cells : ℕ) → BootInfo → Outcome BootInfo
push_reserved_regions value addr_cells size_cells info = do
  (out, count) ←
      parse_reg value addr_cells size_cells max_rsv_regions (info.reserved, info.reserved_count)
  ok (record info { reserved = out; reserved_count = count })

unfoldable pub push_reserved : BootInfo → (base size : ℕ) → Outcome BootInfo
push_reserved info base size = do
  end ← ok_or (checked_add base size) bad_reg
  full ← refuse (info.reserved_count == max_rsv_regions) too_many_regions
  (out, count) ←
      put max_rsv_regions (record { base = base; size = size }) (info.reserved, info.reserved_count)
  ok (record info { reserved = out; reserved_count = count })

abbrev pub byte_at : List ℕ → ℕ → ℕ
byte_at xs i = elim (get_elem? xs i) [ none ↦ 0 | some b ↦ b ]

-- `copy_from_slice` of the first `n` bytes behind the `at` that are there. `cap` cannot be below 0.
unfoldable pub push_entropy : (value : List ℕ) → BootInfo → Outcome BootInfo
push_entropy value info =
    let at = info.entropy_len in
    if ltb max_entropy at
    then panic
    else let n = min (length value) (max_entropy - at) in
      ok (record info {
        entropy =
            λ i. if leb at i && ltb i (at + n) then byte_at value (i - at) else info.entropy i;
        entropy_len = at + n;
      })

-- The memreserve block, with at most `fuel` entries.
unfoldable pub rsv_loop : (fuel : ℕ) → (blob : List ℕ) → (rsv_off : ℕ) → BootInfo → Outcome BootInfo
rsv_loop zero blob rsv_off info = unfinished
rsv_loop (suc fuel) blob rsv_off info = do
  base ← be64 blob rsv_off
  second ← add rsv_off 8
  size ← be64 blob second
  next ← ok_or (checked_add rsv_off 16) truncated
  let skipped = rsv_loop fuel blob next info
  let kept = push_reserved info base size >>= rsv_loop fuel blob next
  if base == 0 && size == 0 then ok info else if size == 0 then skipped else kept

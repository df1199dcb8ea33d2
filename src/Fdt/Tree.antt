-- ===== src/Fdt/Tree.antt =====
-- crates/k0-boot/src/fdt.rs: parse_blob, with the walk over the structure block, and parse.
use k.Base.{
  length, ℕ, zero, suc, ◌+◌, ◌-◌, ◌%◌, ◌^◌, Bool, true, false, not, ◌&&◌, ◌||◌, ltb, leb, ◌==◌,
  if◌then◌else◌, List, [], ◌∷◌, Option, none, some,
}
use k.Base.Words.{checked_add}
use k.Base.Bytes.{get_range, find_zero, bytes_eq, starts_with, codes, from_be}
use k.Fdt.{
  max_depth, supported_version, fdt_magic, header_size, max_dtb_size, BootInfo, null_pointer,
  misaligned, bad_magic, bad_header, unsupported_version, overlaps_kernel, truncated, bad_structure,
  too_deep, bad_string, no_memory, Outcome, ok, err, panic, unfinished, ◌>>=◌, ok_or, refuse, add,
  index_range, be32, align4, at_most, below,
}
use k.Fdt.Reg.{cell_count, push_regions, push_reserved_regions, push_entropy, rsv_loop}
use Prim.Native.String.{String}

abbrev pub begin_token : ℕ
begin_token = 1

abbrev pub end_node_token : ℕ
end_node_token = 2

abbrev pub prop_token : ℕ
prop_token = 3

abbrev pub nop_token : ℕ
nop_token = 4

abbrev pub end_token : ℕ
end_token = 9

-- `name == b"..."` and `name.starts_with(b"...")`
unfoldable pub is_named : List ℕ → String → Bool
is_named name s = bytes_eq name (codes s)

unfoldable pub begins_with : List ℕ → String → Bool
begins_with name s = starts_with name (codes s)

-- Where the blocks of a blob lie.
pub record Layout : Type 0 where
  pub blob : List ℕ
  pub struct_end : ℕ
  pub off_strings : ℕ
  pub strings_end : ℕ

-- The variables of the loop over the tokens, but for the offset.
pub record Walk : Type 0 where
  pub depth : ℕ
  pub addr_cells : ℕ
  pub size_cells : ℕ
  pub memory_depth : Option ℕ
  pub chosen_depth : Option ℕ
  pub rsv_node : Bool
  pub rsv_addr_cells : ℕ
  pub rsv_size_cells : ℕ
  pub info : BootInfo

-- `o == Some(depth)`
abbrev pub is_at : Option ℕ → (depth : ℕ) → Bool
is_at none depth = false
is_at (some d) depth = d == depth

-- `a + 1` on `u32`, with the overflow check.
abbrev pub add_one : ℕ → Outcome ℕ
add_one a = if ltb (a + 1) (2 ^ 32) then ok (a + 1) else panic

unfoldable pub enter : (depth : ℕ) → (name : List ℕ) → Walk → Walk
enter depth name w =
    let second = depth == 2 in
    let reserved = second && is_named name "reserved-memory" in
    record w {
      depth = depth;
      memory_depth =
          if second && (is_named name "memory" || begins_with name "memory@")
          then some depth
          else w.memory_depth;
      chosen_depth = if second && is_named name "chosen" then some depth else w.chosen_depth;
      rsv_node = if reserved then true else w.rsv_node;
      rsv_addr_cells = if reserved then w.addr_cells else w.rsv_addr_cells;
      rsv_size_cells = if reserved then w.size_cells else w.rsv_size_cells;
    }

-- FDT_BEGIN_NODE
unfoldable pub begin_node : Layout → (off : ℕ) → Walk → Outcome (ℕ × Walk)
begin_node l off w = do
  depth ← add_one w.depth
  deep ← refuse (ltb max_depth depth) too_deep
  rest ← ok_or (get_range l.blob off l.struct_end) bad_structure
  rel ← ok_or (find_zero rest) bad_structure
  end ← add off rel
  name ← index_range l.blob off end
  root ← refuse (depth == 1 && not (length name == 0)) bad_structure
  after ← add end 1
  next ← align4 after
  ok (next, enter depth name w)

-- FDT_END_NODE
unfoldable pub end_node : Walk → Outcome Walk
end_node w =
    if w.depth == 0
    then err bad_structure
    else ok (record w {
      memory_depth = if is_at w.memory_depth w.depth then none else w.memory_depth;
      chosen_depth = if is_at w.chosen_depth w.depth then none else w.chosen_depth;
      rsv_node = if w.rsv_node && w.depth == 2 then false else w.rsv_node;
      depth = w.depth - 1;
    })

unfoldable pub prop_name : Layout → (name_off : ℕ) → Outcome (List ℕ)
prop_name l name_off = do
  start ← ok_or (below l.strings_end (checked_add l.off_strings name_off)) bad_string
  rest ← index_range l.blob start l.strings_end
  rel ← ok_or (find_zero rest) bad_string
  end ← add start rel
  index_range l.blob start end

unfoldable pub root_prop : (name value : List ℕ) → Walk → Outcome Walk
root_prop name value w =
    if is_named name "#address-cells"
    then cell_count value >>= (λ n. ok (record w { addr_cells = n }))
    else if is_named name "#size-cells"
    then cell_count value >>= (λ n. ok (record w { size_cells = n }))
    else ok w

unfoldable pub rsv_prop : (name value : List ℕ) → Walk → Outcome Walk
rsv_prop name value w =
    if is_named name "#address-cells"
    then cell_count value >>= (λ n. ok (record w { rsv_addr_cells = n }))
    else if is_named name "#size-cells"
    then cell_count value >>= (λ n. ok (record w { rsv_size_cells = n }))
    else ok w

-- What a property does, by the node that it is in.
unfoldable pub use_prop : (name value : List ℕ) → Walk → Outcome Walk
use_prop name value w =
    if w.depth == 1
    then root_prop name value w
    else if is_at w.memory_depth w.depth && is_named name "reg"
    then push_regions value w.addr_cells w.size_cells w.info >>= (λ i. ok (record w { info = i }))
    else if w.rsv_node && w.depth == 2
    then rsv_prop name value w
    else if w.rsv_node && (w.depth == 3 && is_named name "reg")
    then push_reserved_regions value w.rsv_addr_cells w.rsv_size_cells w.info
      >>= (λ i. ok (record w { info = i }))
    else if is_at w.chosen_depth w.depth && (is_named name "rng-seed" || is_named name "kaslr-seed")
    then push_entropy value w.info >>= (λ i. ok (record w { info = i }))
    else ok w

-- FDT_PROP
unfoldable pub prop : Layout → (off : ℕ) → Walk → Outcome (ℕ × Walk)
prop l off w = do
  outside ← refuse (w.depth == 0) bad_structure
  len ← be32 l.blob off
  second ← add off 4
  name_off ← be32 l.blob second
  val_start ← add off 8
  val_end ← ok_or (at_most l.struct_end (checked_add val_start len)) truncated
  name ← prop_name l name_off
  value ← index_range l.blob val_start val_end
  w' ← use_prop name value w
  next ← align4 val_end
  ok (next, w')

-- The `match` on a token other than FDT_END.
unfoldable pub step : Layout → (token off : ℕ) → Walk → Outcome (ℕ × Walk)
step l token off w =
    if token == begin_token
    then begin_node l off w
    else if token == end_node_token
    then end_node w >>= (λ w'. ok (off, w'))
    else if token == prop_token
    then prop l off w
    else if token == nop_token
    then ok (off, w)
    else err bad_structure

unfoldable pub finish : Walk → Outcome BootInfo
finish w = if w.depth == 0 then ok w.info else err bad_structure

-- The loop over the tokens, of at most `fuel` rounds.
unfoldable pub walk : (fuel : ℕ) → Layout → (off : ℕ) → Walk → Outcome BootInfo
walk zero l off w = unfinished
walk (suc fuel) l off w = do
  over ← refuse (leb l.struct_end off) bad_structure
  token ← be32 l.blob off
  next ← add off 4
  let more = step l token next w >>= (λ (off', w'). walk fuel l off' w')
  if token == end_token then finish w else more

abbrev pub empty_info : (dtb_start dtb_end : ℕ) → BootInfo
empty_info dtb_start dtb_end = record {
  dtb_start = dtb_start;
  dtb_end = dtb_end;
  regions = λ _. record { base = 0; size = 0 };
  region_count = 0;
  reserved = λ _. record { base = 0; size = 0 };
  reserved_count = 0;
  entropy = λ _. 0;
  entropy_len = 0;
}

abbrev pub at_root : BootInfo → Walk
at_root info = record {
  depth = 0;
  addr_cells = 2;
  size_cells = 1;
  memory_depth = none;
  chosen_depth = none;
  rsv_node = false;
  rsv_addr_cells = 2;
  rsv_size_cells = 1;
  info = info;
}

-- The last check.
unfoldable pub has_memory : BootInfo → Outcome BootInfo
has_memory info = if info.region_count == 0 then err no_memory else ok info

-- The rounds of both loops are bounded by the length of the blob.
unfoldable pub parse_blob : (blob : List ℕ) → (dtb_start dtb_end : ℕ) → Outcome BootInfo
parse_blob blob dtb_start dtb_end = do
  off_struct ← be32 blob 8
  off_strings ← be32 blob 12
  version ← be32 blob 20
  last_comp_version ← be32 blob 24
  size_strings ← be32 blob 32
  size_struct ← be32 blob 36
  known ←
      refuse (ltb version supported_version || ltb supported_version last_comp_version)
        unsupported_version
  aligned ← refuse (not (off_struct % 4 == 0) || not (size_struct % 4 == 0)) bad_header
  struct_end ← ok_or (at_most (length blob) (checked_add off_struct size_struct)) bad_header
  strings_end ← ok_or (at_most (length blob) (checked_add off_strings size_strings)) bad_header
  off_rsvmap ← be32 blob 16
  even ← refuse (not (off_rsvmap % 8 == 0)) bad_header
  info ← rsv_loop (suc (length blob)) blob off_rsvmap (empty_info dtb_start dtb_end)
  let l : Layout = record {
    blob = blob;
    struct_end = struct_end;
    off_strings = off_strings;
    strings_end = strings_end;
  }
  info' ← walk (suc struct_end) l off_struct (at_root info)
  has_memory info'

-- `read_be32_phys`: memory is the byte at each address.
abbrev pub read_be32_phys : (ℕ → ℕ) → (addr : ℕ) → ℕ
read_be32_phys mem addr = from_be (mem addr ∷ mem (addr + 1) ∷ mem (addr + 2) ∷ mem (addr + 3) ∷ [])

unfoldable pub dtb_span : (mem : ℕ → ℕ) → (dtb_phys : ℕ) → Outcome (ℕ × ℕ)
dtb_span mem dtb_phys = do
  null ← refuse (dtb_phys == 0) null_pointer
  aligned ← refuse (not (dtb_phys % 8 == 0)) misaligned
  magic ← refuse (not (read_be32_phys mem dtb_phys == fdt_magic)) bad_magic
  second ← add dtb_phys 4
  let totalsize = read_be32_phys mem second
  size ← refuse (not (leb header_size totalsize && leb totalsize max_dtb_size)) bad_header
  dtb_end ← ok_or (checked_add dtb_phys totalsize) bad_header
  ok (dtb_phys, dtb_end)

-- `from_raw_parts`: the `len` bytes from `base` on.
unfoldable pub bytes_from : (ℕ → ℕ) → (base len : ℕ) → List ℕ
bytes_from mem base zero = []
bytes_from mem base (suc len) = mem base ∷ bytes_from mem (base + 1) len

-- The kernel image is from `kernel_start` up to `kernel_end`.
unfoldable pub parse :
    (mem : ℕ → ℕ) → (dtb_phys kernel_start kernel_end read_offset : ℕ) → Outcome BootInfo
parse mem dtb_phys kernel_start kernel_end read_offset = do
  read_base ← ok_or (checked_add dtb_phys read_offset) bad_header
  (start, end) ← dtb_span mem read_base
  let len = end - start
  dtb_end ← ok_or (checked_add dtb_phys len) bad_header
  clear ← refuse (ltb dtb_phys kernel_end && ltb kernel_start dtb_end) overlaps_kernel
  parse_blob (bytes_from mem start len) dtb_phys dtb_end

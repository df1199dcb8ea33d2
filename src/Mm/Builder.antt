-- ===== src/Mm/Builder.antt =====
-- crates/k0-mm/src/user.rs: FrameAlloc, which cuts frames from the boot window, and UserSpace, which
-- builds the table of the first task with them.
pub mod Frames
use k.Base.{
  ℕ, zero, suc, ◌+◌, ◌-◌, ◌*◌, ◌/◌, ◌%◌, ◌^◌, Bool, true, false, ◌&&◌, ◌||◌, not, bit_and, bit_or,
  ltb, leb, ◌==◌, if◌then◌else◌, update, Result, ok, err, Option, none, some,
}
use k.Base.Words.{word_size, checked_add}
use k.Mm.{
  Platform, granule, addr_mask, desc_table, MmuError, misaligned, null_page, overlap, bad_table,
  out_of_frames, index, Memory, entry,
}
use k.Mm.User.{UserPerm, user_attrs, is_table}

pub record FrameAlloc : Type 0 where
  pub start : ℕ
  pub next : ℕ
  pub end : ℕ

-- The window is from `start` up to `end`.
unfoldable pub new_frames : Platform → (start end : ℕ) → Result MmuError FrameAlloc
new_frames p start end =
    let g = granule p in
    if not (start % g == 0) || (not (end % g == 0) || leb end start)
    then err misaligned
    else ok (record { start = start; next = start; end = end })

-- `a.checked_mul(b)` on `u64`.
abbrev pub checked_mul : ℕ → ℕ → Option ℕ
checked_mul a b = if ltb (a * b) word_size then some (a * b) else none

-- `write_bytes` of zeros over `len` bytes.
abbrev pub zeroed_range : Memory → (base len : ℕ) → Memory
zeroed_range mem base len = λ a. if leb base a && ltb a (base + len) then 0 else mem a

-- The allocator and the memory, and what a step answers.
abbrev pub Build : Type 0 → Type 0
Build A = FrameAlloc × Memory × Result MmuError A

abbrev pub take_to : FrameAlloc → Memory → (len : ℕ) → Option ℕ → Build ℕ
take_to fa mem len none = (fa, mem, err out_of_frames)
take_to fa mem len (some top) =
    if ltb fa.end top
    then (fa, mem, err out_of_frames)
    else (record fa { next = top }, zeroed_range mem fa.next len, ok fa.next)

abbrev pub take_len : FrameAlloc → Memory → Option ℕ → Build ℕ
take_len fa mem none = (fa, mem, err out_of_frames)
take_len fa mem (some len) =
    if len == 0 then (fa, mem, err out_of_frames) else take_to fa mem len (checked_add fa.next len)

unfoldable pub alloc_contig : Platform → FrameAlloc → Memory → (n : ℕ) → Build ℕ
alloc_contig p fa mem n = take_len fa mem (checked_mul n (granule p))

unfoldable pub alloc_frame : Platform → FrameAlloc → Memory → Build ℕ
alloc_frame p fa mem = alloc_contig p fa mem 1

-- The operator `?`.
abbrev pub then_build : {A B : Type 0} → Build A → (FrameAlloc → Memory → A → Build B) → Build B
then_build (fa, mem, err e) rest = (fa, mem, err e)
then_build (fa, mem, ok a) rest = rest fa mem a

-- A fresh table below the empty entry at `at`.
abbrev pub link_frame : (at : ℕ) → Build ℕ → Build ℕ
link_frame at (fa, mem, err e) = (fa, mem, err e)
link_frame at (fa, mem, ok child) = (fa, update mem at (bit_or child desc_table), ok child)

unfoldable pub child_table : Platform → FrameAlloc → Memory → (at : ℕ) → Build ℕ
child_table p fa mem at =
    if mem at == 0
    then link_frame at (alloc_frame p fa mem)
    else (fa, mem, if is_table (mem at) then ok (bit_and (mem at) (addr_mask p)) else err bad_table)

-- The loop over the levels of which `left` are left, with the leaf at its end.
unfoldable pub build_page :
    Platform → (va pa attributes left : ℕ) → FrameAlloc → Memory → (table : ℕ) → Build (Unit {0})
build_page p va pa attributes zero fa mem table =
    let at = entry table (index p va 3) in
    if mem at == 0
    then (fa, update mem at (bit_or pa attributes), ok tt)
    else (fa, mem, err overlap)
build_page p va pa attributes (suc left) fa mem table =
    then_build (child_table p fa mem (entry table (index p va (2 - left))))
      (build_page p va pa attributes left)

-- `UserSpace::map_page`
unfoldable pub build_map :
    Platform → (root va pa attributes : ℕ) → FrameAlloc → Memory → Build (Unit {0})
build_map p root va pa attributes fa mem = build_page p va pa attributes 3 fa mem root

-- The loop over `n` pages.
unfoldable pub build_pages :
    Platform → (root attributes n : ℕ) → (va pa : ℕ) → FrameAlloc → Memory → Build (Unit {0})
build_pages p root attributes zero va pa fa mem = (fa, mem, ok tt)
build_pages p root attributes (suc n) va pa fa mem =
    then_build (build_map p root va pa attributes fa mem)
      (λ fa mem _. build_pages p root attributes n (va + granule p) (pa + granule p) fa mem)

abbrev pub range_end_ok : Option ℕ → Bool
range_end_ok none = false
range_end_ok (some end) = leb end (2 ^ 48)

-- `UserSpace::map_range`
unfoldable pub build_range :
    Platform → (root va pa len : ℕ) → UserPerm → FrameAlloc → Memory → Build (Unit {0})
build_range p root va pa len perm fa mem =
    let g = granule p in
    if not (va % g == 0) || (not (pa % g == 0) || (not (len % g == 0) || (len == 0)))
    then (fa, mem, err misaligned)
    else if ltb va g
    then (fa, mem, err null_page)
    else if range_end_ok (checked_add va len)
    then build_pages p root (user_attrs perm) (len / g) va pa fa mem
    else (fa, mem, err misaligned)

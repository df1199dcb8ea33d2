-- ===== src/Examples/Main.antt =====
-- kernel/src/main.rs: a machine of 512 MiB that boots.
use k.Base.{
  Bool, ℕ, ◌^◌, zero, suc, List, length, none, ◌+◌, ◌-◌, ◌≡◌, refl, true, false, ◌==◌, ◌||◌, [],
  ◌∷◌,
}
use k.Base.Bytes.{get_range, find_zero, from_be_after, to_be, bytes_eq, starts_with}
use k.Abi.{kernel_va_offset}
use k.Cap.{new_cnode, push}
use k.Cap.Bootstrap.{bootstrap}
use k.Task.{zero_tcb}
use k.Sched.{Machine, handoff}
use k.Mm.{apple, index}
use k.Mm.Paging.{enable_paging, check_features, tcr, map_segments, map_devices}
use k.Mm.Pool.{
  map_kernel_window, map_alias, map_range, map_pages, map_page, descend, next_table, alloc,
  index_of, attrs, unlink,
}
use k.Mm.Builder.{
  alloc_frame, alloc_contig, child_table, build_page, build_map, build_pages, build_range,
  new_frames,
}
use k.Fdt.{index_range, be32, be64, align4, prefix}
use k.Fdt.Reg.{
  byte_at, cell_count, read_after, reg_entry, reg_loop, parse_reg, push_regions,
  push_reserved_regions, push_reserved, push_entropy, rsv_loop,
}
use k.Fdt.Tree.{
  is_named, begins_with, enter, begin_node, end_node, prop_name, root_prop, rsv_prop, use_prop,
  step, finish, walk, has_memory, parse_blob, dtb_span, bytes_from, parse,
}
use k.Fdt.Tree as T
use k.Fdt.Builder.{
  new, reg, cells, build, words, rsv_bytes, zeros, begin, raw, token, pad, prop_at, string_offset,
  seek_name, memreserve,
}
use k.Fdt.Builder as B
use k.Fdt.Board.{perform, perform_all, reserve_all}
use k.Boot.{check_memory_map, pick_window, seek, pass_over}
use k.Boot.Spawn.{text, load_segs, finish_spawn, spawn_root}
use k.Boot.Checks.{At, Symbols, RootTask, check_wx, check_user_wx, verify_root_task}
use k.Irq.{init}
use k.Boot.Keys.{
  derive_pac_keys, derive_from, fill_keys, words_of, from_le, to_le, all_le, block_input,
}
use k.Boot.Main.{Boot, goes_on, Setup, Started, kernel_main}
use k.Boot.Init.{Reset, kernel_init}
use k.Boot.Main.Safety.{Ends, IsStarted, HasHighBank, kernel_main-IsStarted}
use k.Examples.Dtb.{small_blob, high_blob}

abbrev machine : Machine
machine = record {
  tcbs = λ _. zero_tcb;
  eps = λ _. record { head = 0; tail = 0 };
  sched = record { current = 0; head = 0; tail = 0 };
  cnode = record { slots = λ _. k.Cap.empty; used = 0 };
  context = 0;
  ttbr0 = 0;
}

abbrev symbols : Symbols
symbols = record {
  text = kernel_va_offset + 0x40080000;
  rodata = kernel_va_offset + 0x400A0000;
  stack_bottom = kernel_va_offset + 0x400F0000;
  stack_top = kernel_va_offset + 0x40100000;
}

-- The answers when the tables are as they should be.
abbrev kernel_at : At
kernel_at = record {
  can_read = λ a. (a == kernel_va_offset + 0x40080000) || (a == 0x40080000);
  can_write = λ a. a == kernel_va_offset + 0x400FC000;
  can_read_pan_checked = λ _. false;
  can_user_read = λ _. false;
  can_user_write = λ _. false;
}

abbrev user_at : At
user_at = record {
  can_read = λ _. false;
  can_write = λ _. false;
  can_read_pan_checked = λ _. false;
  can_user_read = λ a. (a == 0x400000) || (a == 0x0F000000);
  can_user_write = λ a. a == 0x0FFFC000;
}

abbrev first_task : RootTask
first_task = record {
  content = λ _. 5;
  len = 0x4000;
  base = 0x400000;
  entry = 0x400010;
  segments = record { va = 0x400000; memsz = 0x800; kind = text } ∷ [];
}

abbrev pub repeat_zero : ℕ → List ℕ
repeat_zero zero = []
repeat_zero (suc n) = 0 ∷ repeat_zero n

pub zeros_length : length (repeat_zero 32) ≡ 32
zeros_length = refl

abbrev setup : Setup
setup = record {
  platform = apple;
  symbols = symbols;
  kernel_start = 0x40080000;
  kernel_end = 0x40100000;
  dtb_phys = 0x48000000;
  loaded = λ a. byte_at small_blob (a - (kernel_va_offset + 0x48000000));
  words = λ _. 7;
  pool_base = 0x40090000;
  pool = record { tables = λ _ _. 0; used = 2; enabled = true; root1 = 1 };
  machine = machine;
  root_tcb = 0x80;
  digest = λ _ _. 1 ∷ [];
  sha256 = 1 ∷ [];
  root_task = first_task;
  hash = λ _. repeat_zero 32;
  cntpct = 1;
  rndr = none;
  ctlr = λ _. 0;
  waker = λ _. 0;
  pan2 = true;
  kernel_at = kernel_at;
  user_at = user_at;
}

kernel_main-IsStarted_example : Ends (IsStarted setup) (HasHighBank setup) (kernel_main setup)
kernel_main-IsStarted_example = kernel_main-IsStarted setup (λ _. zeros_length)

wx : check_wx apple symbols kernel_at ≡ true
unfolding check_wx
wx = refl

user_wx : check_user_wx apple symbols user_at first_task.segments true ≡ true
unfolding check_user_wx
user_wx = refl

abbrev runs_at : Boot Started → ℕ
runs_at (goes_on b) = b.machine.sched.current
runs_at _ = 0

boots : runs_at (kernel_main setup) ≡ 0x80
unfolding kernel_main init derive_pac_keys derive_from fill_keys words_of from_le to_le all_le
    block_input check_wx check_memory_map verify_root_task pick_window seek pass_over
    map_kernel_window map_alias map_range map_pages map_page descend next_table alloc index_of attrs
    unlink index new_frames alloc_frame alloc_contig child_table build_page build_map build_pages
    build_range spawn_root load_segs finish_spawn bootstrap push check_user_wx handoff small_blob
    get_range find_zero from_be_after to_be bytes_eq starts_with index_range be32 be64 align4 prefix
    cell_count read_after reg_entry reg_loop parse_reg push_regions push_reserved_regions
    push_reserved push_entropy rsv_loop is_named begins_with enter begin_node end_node prop_name
    root_prop rsv_prop use_prop T.prop step finish walk has_memory parse_blob dtb_span bytes_from
    parse perform perform_all reserve_all reg cells words rsv_bytes zeros begin raw token pad
    prop_at string_offset seek_name memreserve build B.prop B.end
boots = refl

-- Before the jump.
abbrev reset : Reset
reset = record {
  later = record setup {
    pool = record { tables = λ _ _. 0; used = 0; enabled = false; root1 = 0 };
  };
  bytes = λ a. byte_at small_blob (a - 0x48000000);
  mmfr0 = 2 ^ 20 + 5;
  data_start = 0x400C0000;
}

starts_up : runs_at (kernel_init reset) ≡ 0x80
unfolding kernel_init enable_paging check_features tcr map_segments map_devices kernel_main init
    derive_pac_keys derive_from fill_keys words_of from_le to_le all_le block_input check_wx
    check_memory_map verify_root_task pick_window seek pass_over map_kernel_window map_alias
    map_range map_pages map_page descend next_table alloc index_of attrs unlink index new_frames
    alloc_frame alloc_contig child_table build_page build_map build_pages build_range spawn_root
    load_segs finish_spawn bootstrap push check_user_wx handoff small_blob get_range find_zero
    from_be_after to_be bytes_eq starts_with index_range be32 be64 align4 prefix cell_count
    read_after reg_entry reg_loop parse_reg push_regions push_reserved_regions push_reserved
    push_entropy rsv_loop is_named begins_with enter begin_node end_node prop_name root_prop
    rsv_prop use_prop T.prop step finish walk has_memory parse_blob dtb_span bytes_from parse
    perform perform_all reserve_all reg cells words rsv_bytes zeros begin raw token pad prop_at
    string_offset seek_name memreserve build B.prop B.end
starts_up = refl

-- The same machine with its memory from 2 ^ 48 on.
abbrev is_crashed : Boot Started → Bool
is_crashed Boot.crashed = true
is_crashed _ = false

high_bank :
    is_crashed (
      kernel_main
        (record setup { loaded = λ a. byte_at high_blob (a - (kernel_va_offset + 0x48000000)) }))
    ≡ true
unfolding kernel_main init derive_pac_keys derive_from fill_keys words_of from_le to_le all_le
    block_input check_wx check_memory_map verify_root_task pick_window seek pass_over
    map_kernel_window map_alias map_range map_pages map_page descend next_table alloc index_of attrs
    unlink index new_frames alloc_frame alloc_contig child_table build_page build_map build_pages
    build_range spawn_root load_segs finish_spawn bootstrap push check_user_wx handoff high_blob
    get_range find_zero from_be_after to_be bytes_eq starts_with index_range be32 be64 align4 prefix
    cell_count read_after reg_entry reg_loop parse_reg push_regions push_reserved_regions
    push_reserved push_entropy rsv_loop is_named begins_with enter begin_node end_node prop_name
    root_prop rsv_prop use_prop T.prop step finish walk has_memory parse_blob dtb_span bytes_from
    parse perform perform_all reserve_all reg cells words rsv_bytes zeros begin raw token pad
    prop_at string_offset seek_name memreserve build B.prop B.end
high_bank = refl

-- ===== src/Fdt/RoundTrip.antt =====
-- crates/k0-boot/src/fdt.rs and fdt/builder.rs: a Board, written and parsed.
use k.Base.{
  length, ℕ, ◌+◌, ◌^◌, ◌≤◌, ◌<◌, ◌≡◌, refl, ap, ◌∙◌, arith, true, ◌&&◌, List, [], ◌∷◌, ◌++◌,
  length-append, All,
}
use k.Base.Bytes.{codes, bytes_eq}
use k.Fdt.{
  MemRegion, BootInfo, ok, ◌>>=◌, max_mem_regions, max_rsv_regions, memory, reserved_list,
  entropy_list, prefix,
}
use k.Fdt.Reg.{one_or_two}
use k.Fdt.Tree.{
  enter, end_node, use_prop, root_prop, is_named, finish, has_memory, empty_info, at_root,
  parse_blob,
}
use k.Fdt.Builder.{expected}
use k.Fdt.Board.{
  Call, begin_call, end_call, prop_call, Board, root_cells, unwrap_or, until_end, expected_memory,
  expected_children, expected_reserved, expected_entropy, cells_calls, chosen_calls, memory_calls,
  reserved_calls, tree_calls, write, blob,
}
use k.Fdt.Calls.{run_call, run_calls}
use k.Fdt.Shows.{Shows, Ends, length-prefix, reserve_entries-Shows}
use k.Fdt.Nodes.{in_root, IsReg, chosen_calls-Runs, memory_calls-Runs}
use k.Fdt.Children.{IsChild, run_before, root_cells-Runs, reserved_calls-Runs, small_cells}
use k.Fdt.Written.{AreWords}
use k.Fdt.Texts.{tree_calls-IsCall}
use k.Fdt.Blob.{parse_blob-build}

abbrev rsv_cells_of : Board → ℕ × ℕ
rsv_cells_of board = unwrap_or board.rsv_cells (root_cells board)

-- A Board that the parser can hold: one or two cells each, properties whose entries fit into their cells and into the
-- address space, from 1 to 8 regions of memory and at most 8 reserved ones, and a blob below 4 GiB.
pub record IsBoard (board : Board) : Type 0 where
  pub root_few : (one_or_two (root_cells board).0 && one_or_two (root_cells board).1) ≡ true
  pub rsv_few : (one_or_two (rsv_cells_of board).0 && one_or_two (rsv_cells_of board).1) ≡ true
  pub memory_fits : All (IsReg (root_cells board).0 (root_cells board).1) board.memory
  pub children_fit : All (IsChild (rsv_cells_of board).0 (rsv_cells_of board).1) board.rsv_children
  pub entries_fit : All AreWords board.memreserve
  pub entries_end : All Ends (until_end board.memreserve)
  pub some_memory : 0 < length (expected_memory board.memory)
  pub memory_room : length (expected_memory board.memory) ≤ max_mem_regions
  pub reserved_room : length (expected_reserved board) ≤ max_rsv_regions
  pub small : length (blob board) < 2 ^ 32

root_begun :
    (cs : List Call) (info : BootInfo)
    → run_calls (begin_call [] ∷ cs) (at_root info) ≡ run_calls cs (in_root 2 1 2 1 info)
unfolding run_calls run_call enter
root_begun cs info = refl

module _ (a s ra rs : ℕ) where
  compatible :
      (value : List ℕ) (cs : List Call) (info : BootInfo)
      → run_calls (prop_call (codes "compatible") value ∷ cs) (in_root a s ra rs info)
        ≡ run_calls cs (in_root a s ra rs info)
  unfolding run_calls run_call use_prop root_prop is_named bytes_eq
  compatible value cs info = refl

  root_left :
      (info : BootInfo) → (run_calls (end_call ∷ []) (in_root a s ra rs info) >>= finish) ≡ ok info
  unfolding run_calls run_call end_node finish
  root_left info = refl

-- The calls of `write`, after the memreserve block.
tree_calls-Shows :
    (board : Board) (r : List MemRegion) (info : BootInfo)
    → IsBoard board
    → Shows [] r [] info
    → length r + length (expected_children board.rsv_children) ≤ max_rsv_regions
    → (info' : BootInfo) × ((run_calls (tree_calls board) (at_root info) >>= finish) ≡ ok info')
      × Shows
          (expected_memory board.memory)
          (r ++ expected_children board.rsv_children)
          (expected_entropy board)
          info'
unfolding tree_calls expected_entropy
tree_calls-Shows board r info h shown room =
    let a = (root_cells board).0 in
    let s = (root_cells board).1 in
    let fits = small_cells a s h.root_few in
    let (i1, o1, s1) = chosen_calls-Runs a s 2 1 board.rng_seed board.kaslr_seed [] r info shown in
    let (i2, o2, s2) =
      memory_calls-Runs a s 2 1 h.root_few board.memory 0 [] r (expected_entropy board) i1 s1
        h.memory_fits (omega (arith, h.memory_room)) in
    let (ra, rs, (i3, o3, s3)) =
      reserved_calls-Runs a s 2 1 board.rsv_cells board.rsv_children h.rsv_few
        (expected_memory board.memory) r (expected_entropy board) i2 s2 h.children_fit room in
    let reserved = reserved_calls board.rsv_cells (a, s) board.rsv_children in
    let memory = memory_calls a s 0 board.memory in
    let chosen = chosen_calls board.rng_seed board.kaslr_seed in
    let from_compatible =
      prop_call (codes "compatible") (codes "linux,dummy-virt" ++ (0 ∷ []))
      ∷ (chosen ++ (memory ++ (reserved ++ (end_call ∷ [])))) in
    (
      i3,
      ap (λ m. m >>= finish)
            (root_begun (cells_calls board.cells ++ from_compatible) info
              ∙ (run_before (cells_calls board.cells) from_compatible (in_root 2 1 2 1 info)
                    (root_cells-Runs 2 1 board.cells 2 1 info fits.0 fits.1)
                  ∙ (compatible a s 2 1 (codes "linux,dummy-virt" ++ (0 ∷ []))
                        (chosen ++ (memory ++ (reserved ++ (end_call ∷ [])))) info
                      ∙ (run_before chosen (memory ++ (reserved ++ (end_call ∷ [])))
                            (in_root a s 2 1 info) o1
                          ∙ (run_before memory (reserved ++ (end_call ∷ [])) (in_root a s 2 1 i1) o2
                              ∙ run_before reserved (end_call ∷ []) (in_root a s 2 1 i2) o3)))))
          ∙ root_left a s ra rs i3,
      s3,
    )

counted : (info : BootInfo) → 0 < info.region_count → has_memory info ≡ ok info
unfolding has_memory
counted info some_region = ground arith

empty_shown : (start end : ℕ) → Shows [] [] [] (empty_info start end)
unfolding prefix
empty_shown start end = record {
  memory_shown = refl;
  reserved_shown = refl;
  entropy_shown = refl;
  bounded = omega arith;
}

-- A Board that the parser can hold, written as a blob and parsed, gives back its regions of memory, its
-- reserved regions and its seeds, in order, as the Board expects them.
pub parse_blob-blob :
    (board : Board) (start end : ℕ)
    → IsBoard board
    → (info : BootInfo) × (parse_blob (blob board) start end ≡ ok info)
      × (memory info ≡ expected_memory board.memory)
      × (reserved_list info ≡ expected_reserved board)
      × (entropy_list info ≡ expected_entropy board)
unfolding blob write expected_reserved
parse_blob-blob board start end h =
    let lengths =
      length-append (expected (until_end board.memreserve))
        (expected_children board.rsv_children) in
    let (i1, o1, s1) =
      reserve_entries-Shows board.memreserve [] [] [] (empty_info start end) (empty_shown start end)
        h.entries_end (omega (arith, h.reserved_room, lengths)) in
    let (i2, o2, s2) =
      tree_calls-Shows board (expected (until_end board.memreserve)) i1 h s1
        (omega (arith, h.reserved_room, lengths)) in
    (
      i2,
      parse_blob-build (tree_calls board) board.memreserve start end (tree_calls-IsCall board)
            h.entries_fit h.small
          ∙ rw (o1, o2)
              (counted i2 (
                omega (
                  arith,
                  h.some_memory,
                  ap length s2.memory_shown,
                  length-prefix i2.regions i2.region_count,
                ))),
      s2.memory_shown,
      s2.reserved_shown,
      s2.entropy_shown,
    )

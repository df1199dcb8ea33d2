-- ===== src/Examples/Dtb.antt =====
-- Device trees, written and parsed.
use k.Base.{ℕ, ◌+◌, ◌-◌, ◌≤◌, ◌≡◌, refl, arith, List, [], ◌∷◌, length, none, some}
use k.Base.Bytes.{codes, to_be, bytes_eq}
use k.Fdt.{BootInfo, MemRegion, ok, ◌>>=◌, memory, reserved_list, entropy_list}
use k.Fdt.Reg.{parse_reg, byte_at}
use k.Fdt.Tree.{finish, has_memory, empty_info, at_root, parse_blob, parse}
use k.Fdt.Builder.{
  new, reg, cells, expected, build, words, rsv_bytes, zeros, begin, raw, token, pad, prop_at,
  string_offset, seek_name, memreserve,
}
use k.Fdt.Builder as B
use k.Fdt.Board.{Call, begin_call, end_call, prop_call, perform, perform_all, reserve_all}
use k.Fdt.Outcomes.{Returns}
use k.Fdt.Total.{IsParsed, parse_blob-IsParsed}
use k.Fdt.Accepted.{IsAccepted, parse-IsAccepted}
use k.Fdt.RegTrip.{Filled, parse_reg-reg}
use k.Fdt.Calls.{run_calls}
use k.Fdt.Written.{reserve_entries}
use k.Fdt.Blob.{parse_blob-build}
use k.Fdt.Board.{
  Board, blob, write, tree_calls, cells_calls, chosen_calls, seed_calls, memory_calls, memory_name,
  reserved_calls, child_calls, digits_to, expected_memory, expected_reserved, expected_entropy,
  until_end, expected_children,
}
use k.Fdt.RoundTrip.{IsBoard, parse_blob-blob}

-- A machine with one bank of memory, from `base` on.
abbrev bank_at : (base : ℕ) → List Call
bank_at base =
    begin_call []
    ∷ prop_call (codes "#size-cells") (to_be 4 1)
    ∷ begin_call (codes "memory")
    ∷ prop_call (codes "reg") (reg ((base, 0x20000000) ∷ []) 2 1)
    ∷ end_call
    ∷ end_call
    ∷ []

abbrev one_bank : List Call
one_bank = bank_at 0x40000000

-- The bank starts where the kernel has no alias.
unfoldable pub high_blob : List ℕ
high_blob = build (perform_all (bank_at 0x1000000000000) new)

unfoldable pub small_blob : List ℕ
small_blob = build (perform_all one_bank (reserve_all ((0x1000, 0x1000) ∷ []) new))

small_length : length small_blob ≡ 160
unfolding small_blob build perform_all reserve_all to_be reg cells words rsv_bytes zeros perform
    begin B.end B.prop raw token pad prop_at string_offset seek_name memreserve bytes_eq
small_length = refl

parse_blob-IsParsed_example :
    Returns (IsParsed 0x40000000 0x40001000) (parse_blob small_blob 0x40000000 0x40001000)
parse_blob-IsParsed_example =
    parse_blob-IsParsed small_blob 0x40000000 0x40001000 (omega (arith, small_length))

-- Memory with the blob at 0x48000000.
abbrev loaded : ℕ → ℕ
loaded a = byte_at small_blob (a - 0x48000000)

parse-IsAccepted_example :
    Returns
      (IsAccepted 0x48000000 0x40080000 0x40100000)
      (parse loaded 0x48000000 0x40080000 0x40100000 0)
parse-IsAccepted_example = parse-IsAccepted loaded 0x48000000 0x40080000 0x40100000 0

abbrev two_banks : List (ℕ × ℕ)
two_banks = (0x40000000, 0x20000000) ∷ (7, 0) ∷ (0x100000000, 0x1000) ∷ []

abbrev no_regions : ℕ → MemRegion
no_regions i = record { base = 0; size = 0 }

has_room : 0 + length (expected two_banks) ≤ 8
unfolding expected
has_room = omega arith

parse_reg-reg_example :
    Filled (no_regions, 0) two_banks (parse_reg (reg two_banks 2 2) 2 2 8 (no_regions, 0))
parse_reg-reg_example =
    parse_reg-reg 2 2 refl 8 two_banks no_regions 0 (omega arith) (omega arith) has_room

parse_blob-build_example : parse_blob small_blob 0 160 ≡ (
    reserve_entries ((0x1000, 0x1000) ∷ []) (empty_info 0 160)
    >>= (λ info. (run_calls one_bank (at_root info) >>= finish) >>= has_memory))
unfolding small_blob
parse_blob-build_example =
    parse_blob-build one_bank ((0x1000, 0x1000) ∷ []) 0 160 (omega arith) (omega arith)
      (omega (arith, small_length))

small_board : Board
small_board = record {
  cells = none;
  memory = ((0x40000000, 0x1000) ∷ []) ∷ [];
  memreserve = [];
  rsv_cells = none;
  rsv_children = [];
  rng_seed = some (1 ∷ 2 ∷ []);
  kaslr_seed = none;
}

board_length : length (blob small_board) ≡ 277
unfolding small_board blob write tree_calls cells_calls chosen_calls seed_calls memory_calls
    memory_name reserved_calls child_calls digits_to build perform_all reserve_all to_be reg cells
    words rsv_bytes zeros perform begin B.end B.nop B.prop raw token pad prop_at string_offset
    seek_name memreserve bytes_eq
board_length = refl

small_board-IsBoard : IsBoard small_board
unfolding small_board expected_memory expected_reserved expected until_end expected_children
small_board-IsBoard = record {
  root_few = refl;
  rsv_few = refl;
  memory_fits = omega arith;
  children_fit = tt;
  entries_fit = tt;
  entries_end = tt;
  some_memory = omega arith;
  memory_room = omega arith;
  reserved_room = omega arith;
  small = omega (arith, board_length);
}

parse_blob-blob_example :
    (info : BootInfo) × (parse_blob (blob small_board) 0 4096 ≡ ok info)
    × (memory info ≡ expected_memory small_board.memory)
    × (reserved_list info ≡ expected_reserved small_board)
    × (entropy_list info ≡ expected_entropy small_board)
parse_blob-blob_example = parse_blob-blob small_board 0 4096 small_board-IsBoard

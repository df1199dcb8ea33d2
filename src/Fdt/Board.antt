-- ===== src/Fdt/Board.antt =====
-- crates/k0-boot/src/fdt/builder.rs: Board, which writes the tree of a machine with the calls of Builder.
use k.Base.{
  ℕ, zero, suc, ◌+◌, ◌/◌, ◌%◌, Bool, true, false, ◌&&◌, ◌||◌, ltb, ◌==◌, if◌then◌else◌, List, [],
  ◌∷◌, ◌++◌, Option, none, some,
}
use k.Base.Bytes.{to_be, codes, take}
use k.Fdt.{MemRegion, max_entropy}
use k.Fdt.Builder.{Builder, new, memreserve, begin, end, nop, prop, build, reg, expected}

-- A call of Builder that writes to the tree. `prop_u32` is a call of `prop`.
pub data Call : Type 0 where
  begin_call : (name : List ℕ) → Call
  end_call : Call
  nop_call : Call
  prop_call : (name value : List ℕ) → Call

unfoldable pub perform : Call → Builder → Builder
unfolding begin end nop prop
perform (begin_call name) b = begin name b
perform end_call b = end b
perform nop_call b = nop b
perform (prop_call name value) b = prop name value b

unfoldable pub perform_all : List Call → Builder → Builder
unfolding perform
perform_all [] b = b
perform_all (c ∷ cs) b = perform_all cs (perform c b)

pub record Board : Type 0 where
  pub cells : Option (ℕ × ℕ)
  pub memory : List (List (ℕ × ℕ))
  pub memreserve : List (ℕ × ℕ)
  pub rsv_cells : Option (ℕ × ℕ)
  pub rsv_children : List (Option (List (ℕ × ℕ)))
  pub rng_seed : Option (List ℕ)
  pub kaslr_seed : Option (List ℕ)

abbrev pub unwrap_or : Option (ℕ × ℕ) → ℕ × ℕ → ℕ × ℕ
unwrap_or none d = d
unwrap_or (some c) d = c

abbrev pub root_cells : Board → ℕ × ℕ
root_cells board = unwrap_or board.cells (2, 1)

abbrev pub digit : ℕ → ℕ
digit d = if ltb d 10 then 0x30 + d else 0x57 + d

-- The digits of `n` to a base, of which there are at most 64, before those in `out`.
unfoldable pub digits_to : (fuel radix n : ℕ) → (out : List ℕ) → List ℕ
digits_to zero radix n out = out
digits_to (suc fuel) radix n out =
    let rest = digits_to fuel radix (n / radix) (digit (n % radix) ∷ out) in
    if n / radix == 0 then digit (n % radix) ∷ out else rest

-- `{n:x}` and `{n}`
abbrev pub hex : ℕ → List ℕ
hex n = digits_to 64 16 n []

abbrev pub decimal : ℕ → List ℕ
decimal n = digits_to 64 10 n []

unfoldable pub cells_calls : Option (ℕ × ℕ) → List Call
cells_calls none = []
cells_calls (some (a, s)) =
    prop_call (codes "#address-cells") (to_be 4 a)
    ∷ prop_call (codes "#size-cells") (to_be 4 s)
    ∷ []

unfoldable pub seed_calls : (name : List ℕ) → Option (List ℕ) → List Call
seed_calls name none = []
seed_calls name (some seed) = prop_call name seed ∷ []

abbrev pub is_some : Option (List ℕ) → Bool
is_some none = false
is_some (some s) = true

unfoldable pub chosen_calls : (rng_seed kaslr_seed : Option (List ℕ)) → List Call
unfolding seed_calls
chosen_calls rng_seed kaslr_seed =
    if is_some rng_seed || is_some kaslr_seed
    then begin_call (codes "chosen")
      ∷ (seed_calls (codes "rng-seed") rng_seed
          ++ (prop_call (codes "bootargs") (codes "console=ttyAMA0" ++ (0 ∷ []))
              ∷ (seed_calls (codes "kaslr-seed") kaslr_seed ++ (end_call ∷ []))))
    else []

-- Nodes of an even number carry the base of their first entry in the name.
unfoldable pub memory_name : (i : ℕ) → (entries : List (ℕ × ℕ)) → List ℕ
memory_name i [] = codes "memory"
memory_name i ((base, s) ∷ es) = if i % 2 == 0 then codes "memory@" ++ hex base else codes "memory"

unfoldable pub memory_calls : (addr_cells size_cells i : ℕ) → List (List (ℕ × ℕ)) → List Call
unfolding memory_name
memory_calls ac sc i [] = []
memory_calls ac sc i (entries ∷ nodes) =
    begin_call (memory_name i entries)
    ∷ prop_call (codes "device_type") (codes "memory" ++ (0 ∷ []))
    ∷ prop_call (codes "reg") (reg entries ac sc)
    ∷ end_call
    ∷ memory_calls ac sc (i + 1) nodes

unfoldable pub child_prop : (addr_cells size_cells : ℕ) → Option (List (ℕ × ℕ)) → Call
child_prop rac rsc (some entries) = prop_call (codes "reg") (reg entries rac rsc)
child_prop rac rsc none = prop_call (codes "size") (reg ((0, 0x100000) ∷ []) 0 rsc)

unfoldable pub child_calls :
    (addr_cells size_cells i : ℕ) → List (Option (List (ℕ × ℕ))) → List Call
unfolding child_prop
child_calls rac rsc i [] = []
child_calls rac rsc i (child ∷ children) =
    begin_call (codes "region@" ++ decimal i)
    ∷ child_prop rac rsc child
    ∷ prop_call (codes "no-map") []
    ∷ end_call
    ∷ child_calls rac rsc (i + 1) children

abbrev pub no_reserved : Option (ℕ × ℕ) → List (Option (List (ℕ × ℕ))) → Bool
no_reserved none [] = true
no_reserved none (c ∷ cs) = false
no_reserved (some c) children = false

unfoldable pub reserved_calls :
    (rsv_cells : Option (ℕ × ℕ)) → (root : ℕ × ℕ) → List (Option (List (ℕ × ℕ))) → List Call
unfolding cells_calls child_calls
reserved_calls rsv_cells root children =
    if no_reserved rsv_cells children
    then []
    else let c = unwrap_or rsv_cells root in
      begin_call (codes "reserved-memory")
      ∷ (cells_calls rsv_cells
          ++ (prop_call (codes "ranges") [] ∷ (child_calls c.0 c.1 0 children ++ (end_call ∷ []))))

-- `write`, with the noise that `blob` passes, which is none.
unfoldable pub tree_calls : Board → List Call
unfolding cells_calls chosen_calls memory_calls reserved_calls
tree_calls board =
    let c = root_cells board in
    begin_call []
    ∷ (cells_calls board.cells
        ++ (prop_call (codes "compatible") (codes "linux,dummy-virt" ++ (0 ∷ []))
            ∷ (chosen_calls board.rng_seed board.kaslr_seed
                ++ (memory_calls c.0 c.1 0 board.memory
                    ++ (reserved_calls board.rsv_cells c board.rsv_children ++ (end_call ∷ []))))))

unfoldable pub reserve_all : List (ℕ × ℕ) → Builder → Builder
unfolding memreserve
reserve_all [] b = b
reserve_all ((base, size) ∷ es) b = reserve_all es (memreserve base size b)

unfoldable pub write : Board → Builder → Builder
unfolding tree_calls perform_all reserve_all
write board b = perform_all (tree_calls board) (reserve_all board.memreserve b)

unfoldable pub blob : Board → List ℕ
unfolding write build
blob board = build (write board new)

-- `expected_memory`
unfoldable pub expected_memory : List (List (ℕ × ℕ)) → List MemRegion
unfolding expected
expected_memory [] = []
expected_memory (entries ∷ nodes) = expected entries ++ expected_memory nodes

unfoldable pub until_end : List (ℕ × ℕ) → List (ℕ × ℕ)
until_end [] = []
until_end ((b, s) ∷ es) = if b == 0 && s == 0 then [] else (b, s) ∷ until_end es

unfoldable pub expected_children : List (Option (List (ℕ × ℕ))) → List MemRegion
unfolding expected
expected_children [] = []
expected_children (none ∷ children) = expected_children children
expected_children (some entries ∷ children) = expected entries ++ expected_children children

unfoldable pub expected_reserved : Board → List MemRegion
unfolding expected until_end expected_children
expected_reserved board =
    expected (until_end board.memreserve) ++ expected_children board.rsv_children

abbrev pub seed_bytes : Option (List ℕ) → List ℕ
seed_bytes none = []
seed_bytes (some s) = s

unfoldable pub expected_entropy : Board → List ℕ
expected_entropy board = take max_entropy (seed_bytes board.rng_seed ++ seed_bytes board.kaslr_seed)

unfoldable pub count_from : (n : ℕ) → (i : ℕ) → List ℕ
count_from zero i = []
count_from (suc n) i = i ∷ count_from n (i + 1)

unfoldable pub repeat_byte : (n b : ℕ) → List ℕ
repeat_byte zero b = []
repeat_byte (suc n) b = b ∷ repeat_byte n b

unfoldable pub qemu_virt : Board
unfolding count_from repeat_byte
qemu_virt = record {
  cells = some (2, 2);
  memory = ((0x40000000, 0x20000000) ∷ []) ∷ [];
  memreserve = [];
  rsv_cells = none;
  rsv_children = [];
  rng_seed = some (count_from 32 0);
  kaslr_seed = some (repeat_byte 8 0xA5);
}

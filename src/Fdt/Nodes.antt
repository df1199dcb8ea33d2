-- ===== src/Fdt/Nodes.antt =====
-- crates/k0-boot/src/fdt.rs and fdt/builder.rs: the nodes of a Board, and what the walk makes of each.
use k.Base.{
  length, ℕ, ◌+◌, ◌%◌, ◌≤◌, ◌<◌, ◌≡◌, refl, sym, ◌∙◌, subst, arith, true, false, ◌&&◌, ◌||◌, ◌==◌,
  List, [], ◌∷◌, ◌++◌, Option, none, some, length-append, All, Bool-cases, inl, inr,
}
use mathlib.Core.List.{append_assoc, append-nil}
use k.Base.Bytes.{take, codes, bytes_eq, starts_with}
use k.Fdt.{MemRegion, BootInfo, ok, max_entropy, max_mem_regions}
use k.Fdt.Reg.{push_regions, one_or_two}
use k.Fdt.Tree.{Walk, enter, end_node, use_prop, is_named, begins_with}
use k.Fdt.Board.{
  Call, begin_call, end_call, prop_call, chosen_calls, seed_bytes, memory_calls, memory_name,
  expected_memory,
}
use k.Fdt.Calls.{run_call, run_calls}
use k.Fdt.RegTrip.{FitsEntry}
use k.Fdt.Builder.{reg, expected}
use k.Fdt.Shows.{Shows, push_regions-Shows}
use k.Fdt.Seeds.{push_entropy-Shows, take-take}

-- In the root node, between its children.
abbrev pub in_root : (addr_cells size_cells rsv_addr rsv_size : ℕ) → BootInfo → Walk
in_root a s ra rs info = record {
  depth = 1;
  addr_cells = a;
  size_cells = s;
  memory_depth = none;
  chosen_depth = none;
  rsv_node = false;
  rsv_addr_cells = ra;
  rsv_size_cells = rs;
  info = info;
}

-- The calls succeed, and the BootInfo shows these lists.
abbrev pub Runs :
    List Call → Walk → (m r : List MemRegion) → (e : List ℕ) → (BootInfo → Walk) → Type 0
Runs cs w m r e place = (info : BootInfo) × (run_calls cs w ≡ ok (place info)) × Shows m r e info

module _ (a s ra rs : ℕ) where
  pub chosen_calls-Runs :
      (rng kaslr : Option (List ℕ)) (m r : List MemRegion) (info : BootInfo)
      → Shows m r [] info
      → Runs
          (chosen_calls rng kaslr)
          (in_root a s ra rs info)
          m
          r
          (take max_entropy (seed_bytes rng ++ seed_bytes kaslr))
          (in_root a s ra rs)
  unfolding run_calls run_call use_prop enter end_node is_named begins_with bytes_eq starts_with
      chosen_calls
  chosen_calls-Runs none none m r info h = (info, refl, h)
  chosen_calls-Runs (some x) none m r info h =
      let (i1, o1, s1) = push_entropy-Shows x m r [] info h in
      (i1, rw o1 refl, subst (λ t. Shows m r (take max_entropy t) i1) (sym (append-nil x)) s1)
  chosen_calls-Runs none (some y) m r info h =
      let (i1, o1, s1) = push_entropy-Shows y m r [] info h in (i1, rw o1 refl, s1)
  chosen_calls-Runs (some x) (some y) m r info h =
      let (i1, o1, s1) = push_entropy-Shows x m r [] info h in
      let (i2, o2, s2) = push_entropy-Shows y m r (take max_entropy x) i1 s1 in
      (i2, rw (o1, o2) refl, subst (λ t. Shows m r t i2) (take-take max_entropy x y) s2)

-- How the walk takes the name of a node of memory.
abbrev IsMemoryName : List ℕ → Type 0
IsMemoryName name =
    ((is_named name "memory" || begins_with name "memory@") ≡ true)
    × (is_named name "chosen" ≡ false)
    × (is_named name "reserved-memory" ≡ false)

memory_name-IsMemoryName : (i : ℕ) (entries : List (ℕ × ℕ)) → IsMemoryName (memory_name i entries)
unfolding memory_name is_named begins_with bytes_eq starts_with
memory_name-IsMemoryName i [] = (refl, refl, refl)
memory_name-IsMemoryName i ((base, size) ∷ es) = elim (Bool-cases (i % 2 == 0)) [
  | inl even ↦ rw even (refl, refl, refl)
  | inr odd ↦ rw odd (refl, refl, refl)
]

-- Entries of a `reg` property that can be read back.
abbrev pub IsReg : (addr_cells size_cells : ℕ) → List (ℕ × ℕ) → Type 0
IsReg a s entries = (0 < length entries) × All (FitsEntry a s) entries

module _ (a s ra rs : ℕ) (few : (one_or_two a && one_or_two s) ≡ true) where
  memory_node :
      (name : List ℕ) (entries : List (ℕ × ℕ)) (rest : List Call) (m r : List MemRegion)
      (e : List ℕ) (info : BootInfo)
      → IsMemoryName name
      → {o : BootInfo} → push_regions (reg entries a s) a s info ≡ ok o
      → run_calls
          (begin_call name
            ∷ prop_call (codes "device_type") (codes "memory" ++ (0 ∷ []))
            ∷ prop_call (codes "reg") (reg entries a s)
            ∷ end_call
            ∷ rest)
          (in_root a s ra rs info)
        ≡ run_calls rest (in_root a s ra rs o)
  unfolding run_calls run_call use_prop enter end_node is_named bytes_eq
  memory_node name entries rest m r e info (memory, chosen, reserved) o =
      rw (memory, chosen, reserved, o) refl

  pub memory_calls-Runs :
      (nodes : List (List (ℕ × ℕ))) (i : ℕ) (m r : List MemRegion) (e : List ℕ) (info : BootInfo)
      → Shows m r e info
      → All (IsReg a s) nodes
      → length m + length (expected_memory nodes) ≤ max_mem_regions
      → Runs
          (memory_calls a s i nodes)
          (in_root a s ra rs info)
          (m ++ expected_memory nodes)
          r
          e
          (in_root a s ra rs)
  unfolding memory_calls expected_memory run_calls
  memory_calls-Runs [] i m r e info h regs room =
      (info, refl, subst (λ t. Shows t r e info) (sym (append-nil m)) h)
  memory_calls-Runs (entries ∷ nodes) i m r e info h ((some_entry, fits), regs) room =
      let more = length-append (expected entries) (expected_memory nodes) in
      let (i1, o1, s1) =
        push_regions-Shows a s few entries some_entry fits m r e info h
          (omega (arith, room, more)) in
      let (i2, o2, s2) =
        memory_calls-Runs nodes (i + 1) (m ++ expected entries) r e i1 s1 regs
          (omega (arith, room, more, length-append m (expected entries))) in
      (
        i2,
        memory_node (memory_name i entries) entries (memory_calls a s (i + 1) nodes) m r e info
              (memory_name-IsMemoryName i entries) o1
            ∙ o2,
        subst (λ t. Shows t r e i2) (append_assoc m (expected entries) (expected_memory nodes)) s2,
      )

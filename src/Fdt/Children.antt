-- ===== src/Fdt/Children.antt =====
-- crates/k0-boot/src/fdt.rs and fdt/builder.rs: /reserved-memory and its children, and the cells of a node.
use k.Base.{
  length, ℕ, ◌+◌, ◌^◌, ◌≤◌, ◌<◌, ◌≡◌, refl, sym, ap, ◌∙◌, subst, arith, true, ◌&&◌, List, [], ◌∷◌,
  ◌++◌, Option, none, some, length-append, All,
}
use mathlib.Core.List.{append_assoc, append-nil}
use k.Base.Bytes.{codes, bytes_eq, starts_with, to_be}
use k.Fdt.{MemRegion, BootInfo, ok, ◌>>=◌, max_rsv_regions}
use k.Fdt.Reg.{push_reserved_regions, cell_count, one_or_two}
use k.Fdt.Tree.{Walk, enter, end_node, use_prop, root_prop, rsv_prop, is_named, begins_with}
use k.Fdt.Builder.{reg, expected}
use k.Fdt.Board.{
  Call, begin_call, end_call, prop_call, cells_calls, child_calls, child_prop, expected_children,
  unwrap_or, reserved_calls,
}
use k.Fdt.At.{from_be-to_be4}
use k.Fdt.Calls.{run_call, run_calls}
use k.Fdt.Shows.{Shows, push_reserved_regions-Shows}
use k.Fdt.Nodes.{in_root, Runs, IsReg}
use k.Fdt.Calls.Loop.{>>=-cong}
use k.Fdt.Calls.Steps.{>>=-assoc}

run_calls-append :
    (cs ds : List Call) (w : Walk) → run_calls (cs ++ ds) w ≡ (run_calls cs w >>= run_calls ds)
unfolding run_calls
run_calls-append [] ds w = refl
run_calls-append (c ∷ cs) ds w =
    >>=-cong (run_call c w) _ _ (λ w'. run_calls-append cs ds w')
    ∙ sym (>>=-assoc (run_call c w) (run_calls cs) (run_calls ds))

-- Calls that have run, and what follows them.
pub run_before :
    (cs ds : List Call) (w : Walk) {w' : Walk}
    → run_calls cs w ≡ ok w'
    → run_calls (cs ++ ds) w ≡ run_calls ds w'
run_before cs ds w h = run_calls-append cs ds w ∙ ap (λ m. m >>= run_calls ds) h

-- In /reserved-memory, between its children.
abbrev in_reserved : (addr_cells size_cells rsv_addr rsv_size : ℕ) → BootInfo → Walk
in_reserved a s ra rs info = record {
  depth = 2;
  addr_cells = a;
  size_cells = s;
  memory_depth = none;
  chosen_depth = none;
  rsv_node = true;
  rsv_addr_cells = ra;
  rsv_size_cells = rs;
  info = info;
}

-- A child with a `reg` property that can be read back, or with none.
abbrev pub IsChild : (addr_cells size_cells : ℕ) → Option (List (ℕ × ℕ)) → Type 0
IsChild a s none = Unit
IsChild a s (some entries) = IsReg a s entries

cell_count-to_be : (n : ℕ) → n < 2 ^ 32 → cell_count (to_be 4 n) ≡ ok n
unfolding cell_count to_be
cell_count-to_be n h = ap (λ t. ok t) (from_be-to_be4 n h)

module _ (a s : ℕ) where
  -- The cells of /reserved-memory itself, or those that it has from the root.
  rsv_cells-Runs :
      (cells : Option (ℕ × ℕ)) (ra rs : ℕ) (info : BootInfo)
      → (unwrap_or cells (ra, rs)).0 < 2 ^ 32
      → (unwrap_or cells (ra, rs)).1 < 2 ^ 32
      → run_calls (cells_calls cells) (in_reserved a s ra rs info)
        ≡ ok (in_reserved a s (unwrap_or cells (ra, rs)).0 (unwrap_or cells (ra, rs)).1 info)
  unfolding run_calls run_call use_prop rsv_prop is_named bytes_eq cells_calls
  rsv_cells-Runs none ra rs info h k = refl
  rsv_cells-Runs (some (x, y)) ra rs info h k = rw (cell_count-to_be x h, cell_count-to_be y k) refl

  pub root_cells-Runs :
      (cells : Option (ℕ × ℕ)) (ra rs : ℕ) (info : BootInfo)
      → (unwrap_or cells (a, s)).0 < 2 ^ 32
      → (unwrap_or cells (a, s)).1 < 2 ^ 32
      → run_calls (cells_calls cells) (in_root a s ra rs info)
        ≡ ok (in_root (unwrap_or cells (a, s)).0 (unwrap_or cells (a, s)).1 ra rs info)
  unfolding run_calls run_call use_prop root_prop is_named bytes_eq cells_calls
  root_cells-Runs none ra rs info h k = refl
  root_cells-Runs (some (x, y)) ra rs info h k =
      rw (cell_count-to_be x h, cell_count-to_be y k) refl

  module _ (ra rs : ℕ) (few : (one_or_two ra && one_or_two rs) ≡ true) where
    region_child :
        (name : List ℕ) (entries : List (ℕ × ℕ)) (rest : List Call) (info : BootInfo)
        → {o : BootInfo} → push_reserved_regions (reg entries ra rs) ra rs info ≡ ok o
        → run_calls
            (begin_call name
              ∷ prop_call (codes "reg") (reg entries ra rs)
              ∷ prop_call (codes "no-map") []
              ∷ end_call
              ∷ rest)
            (in_reserved a s ra rs info)
          ≡ run_calls rest (in_reserved a s ra rs o)
    unfolding run_calls run_call use_prop enter end_node is_named bytes_eq
    region_child name entries rest info o = rw o refl

    dynamic_child :
        (name value : List ℕ) (rest : List Call) (info : BootInfo)
        → run_calls
            (begin_call name
              ∷ prop_call (codes "size") value
              ∷ prop_call (codes "no-map") []
              ∷ end_call
              ∷ rest)
            (in_reserved a s ra rs info)
          ≡ run_calls rest (in_reserved a s ra rs info)
    unfolding run_calls run_call use_prop enter end_node is_named bytes_eq
    dynamic_child name value rest info = refl

    child_calls-Runs :
        (children : List (Option (List (ℕ × ℕ)))) (i : ℕ) (m r : List MemRegion) (e : List ℕ)
        (info : BootInfo)
        → Shows m r e info
        → All (IsChild ra rs) children
        → length r + length (expected_children children) ≤ max_rsv_regions
        → Runs
            (child_calls ra rs i children)
            (in_reserved a s ra rs info)
            m
            (r ++ expected_children children)
            e
            (in_reserved a s ra rs)
    unfolding child_calls child_prop expected_children run_calls
    child_calls-Runs [] i m r e info h regs room =
        (info, refl, subst (λ t. Shows m t e info) (sym (append-nil r)) h)
    child_calls-Runs (none ∷ children) i m r e info h (_, regs) room =
        let (i2, o2, s2) = child_calls-Runs children (i + 1) m r e info h regs room in
        (i2, dynamic_child _ _ (child_calls ra rs (i + 1) children) info ∙ o2, s2)
    child_calls-Runs (some entries ∷ children) i m r e info h ((some_entry, fits), regs) room =
        let more = length-append (expected entries) (expected_children children) in
        let (i1, o1, s1) =
          push_reserved_regions-Shows ra rs few entries some_entry fits m r e info h
            (omega (arith, room, more)) in
        let (i2, o2, s2) =
          child_calls-Runs children (i + 1) m (r ++ expected entries) e i1 s1 regs
            (omega (arith, room, more, length-append r (expected entries))) in
        (
          i2,
          region_child _ entries (child_calls ra rs (i + 1) children) info o1 ∙ o2,
          subst (λ t. Shows m t e i2)
              (append_assoc r (expected entries) (expected_children children)) s2,
        )

module _ (a s ra rs : ℕ) where
  entered :
      (cs : List Call) (info : BootInfo)
      → run_calls (begin_call (codes "reserved-memory") ∷ cs) (in_root a s ra rs info)
        ≡ run_calls cs (in_reserved a s a s info)
  unfolding run_calls run_call enter is_named begins_with bytes_eq starts_with
  entered cs info = refl

  ranged :
      (cs : List Call) (info : BootInfo)
      → run_calls (prop_call (codes "ranges") [] ∷ cs) (in_reserved a s ra rs info)
        ≡ run_calls cs (in_reserved a s ra rs info)
  unfolding run_calls run_call use_prop rsv_prop is_named bytes_eq
  ranged cs info = refl

  left :
      (info : BootInfo)
      → run_calls (end_call ∷ []) (in_reserved a s ra rs info) ≡ ok (in_root a s ra rs info)
  unfolding run_calls run_call end_node
  left info = refl

-- Between the children of the root, with any cells for /reserved-memory.
abbrev pub RunsRoot : List Call → Walk → (a s : ℕ) → (m r : List MemRegion) → (e : List ℕ) → Type 0
RunsRoot cs w a s m r e = (ra : ℕ) × (rs : ℕ) × Runs cs w m r e (in_root a s ra rs)

pub small_cells : (x y : ℕ) → (one_or_two x && one_or_two y) ≡ true → (x < 2 ^ 32) × (y < 2 ^ 32)
small_cells x y few = (ground arith, ground arith)

module _ (a s ra0 rs0 : ℕ) (cells : Option (ℕ × ℕ)) (children : List (Option (List (ℕ × ℕ)))) where
  ra : ℕ
  ra = (unwrap_or cells (a, s)).0

  rs : ℕ
  rs = (unwrap_or cells (a, s)).1

  -- The node with what stands in it.
  node : List Call
  node =
      begin_call (codes "reserved-memory")
      ∷ (cells_calls cells
          ++ (prop_call (codes "ranges") [] ∷ (child_calls ra rs 0 children ++ (end_call ∷ []))))

  node-Runs :
      (few : (one_or_two ra && one_or_two rs) ≡ true) (m r : List MemRegion) (e : List ℕ)
      (info : BootInfo)
      → Shows m r e info
      → All (IsChild ra rs) children
      → length r + length (expected_children children) ≤ max_rsv_regions
      → RunsRoot node (in_root a s ra0 rs0 info) a s m (r ++ expected_children children) e
  unfolding ra rs node
  node-Runs few m r e info h regs room =
      let (i1, o1, s1) = child_calls-Runs a s ra rs few children 0 m r e info h regs room in
      let small = small_cells ra rs few in
      let kids = child_calls ra rs 0 children ++ (end_call ∷ []) in
      (
        ra,
        rs,
        (
          i1,
          entered a s ra0 rs0 (cells_calls cells ++ (prop_call (codes "ranges") [] ∷ kids)) info
              ∙ (run_before (cells_calls cells) (prop_call (codes "ranges") [] ∷ kids)
                    (in_reserved a s a s info) (rsv_cells-Runs a s cells a s info small.0 small.1)
                  ∙ (ranged a s ra rs kids info
                      ∙ (run_before (child_calls ra rs 0 children) (end_call ∷ [])
                            (in_reserved a s ra rs info) o1
                          ∙ left a s ra rs i1))),
          s1,
        ),
      )

run_nothing : (w : Walk) → run_calls [] w ≡ ok w
unfolding run_calls
run_nothing w = refl

no_children : (r : List MemRegion) → r ≡ r ++ expected_children []
unfolding expected_children
no_children r = sym (append-nil r)

-- The node stands there unless a Board has neither cells nor children for it.
pub reserved_calls-Runs :
    (a s ra0 rs0 : ℕ) (cells : Option (ℕ × ℕ)) (children : List (Option (List (ℕ × ℕ))))
    → (one_or_two (unwrap_or cells (a, s)).0 && one_or_two (unwrap_or cells (a, s)).1) ≡ true
    → (m r : List MemRegion) (e : List ℕ) (info : BootInfo) → Shows m r e info
    → All (IsChild (unwrap_or cells (a, s)).0 (unwrap_or cells (a, s)).1) children
    → length r + length (expected_children children) ≤ max_rsv_regions
    → RunsRoot
        (reserved_calls cells (a, s) children)
        (in_root a s ra0 rs0 info)
        a
        s
        m
        (r ++ expected_children children)
        e
unfolding reserved_calls node ra rs
reserved_calls-Runs a s ra0 rs0 none [] few m r e info h kids room = (
  ra0,
  rs0,
  (info, run_nothing (in_root a s ra0 rs0 info), subst (λ t. Shows m t e info) (no_children r) h),
)
reserved_calls-Runs a s ra0 rs0 none (c ∷ cs) few m r e info h kids room =
    node-Runs a s ra0 rs0 none (c ∷ cs) few m r e info h kids room
reserved_calls-Runs a s ra0 rs0 (some c) children few m r e info h kids room =
    node-Runs a s ra0 rs0 (some c) children few m r e info h kids room

-- ===== src/Fdt/Texts.antt =====
-- crates/k0-boot/src/fdt/builder.rs: the names that Board::write gives are texts.
use k.Base.{
  ℕ, zero, suc, ◌+◌, ◌/◌, ◌%◌, ◌<◌, arith, ◌==◌, List, [], ◌∷◌, ◌++◌, Option, none, some, All,
  Bool-cases, inl, inr,
}
use k.Base.Bytes.{codes}
use k.Fdt.Board.{
  Call, end_call, prop_call, Board, digit, digits_to, hex, decimal, cells_calls, chosen_calls,
  memory_calls, memory_name, child_calls, child_prop, reserved_calls, tree_calls, root_cells,
}
use k.Fdt.At.{NoZero}
use k.Fdt.Calls.{IsCall}

All-append : (xs ys : List Call) → All IsCall xs → All IsCall ys → All IsCall (xs ++ ys)
All-append [] ys h k = k
All-append (x ∷ xs) ys (h, hs) k = (h, All-append xs ys hs k)

NoZero-append : (xs ys : List ℕ) → NoZero xs → NoZero ys → NoZero (xs ++ ys)
NoZero-append [] ys h k = k
NoZero-append (x ∷ xs) ys (h, hs) k = (h, NoZero-append xs ys hs k)

digits_to-NoZero :
    (fuel radix n : ℕ) (out : List ℕ) → NoZero out → NoZero (digits_to fuel radix n out)
unfolding digits_to
digits_to-NoZero zero radix n out h = h
digits_to-NoZero (suc fuel) radix n out h =
    let here : 0 < digit (n % radix) = ground arith in
    elim (Bool-cases (n / radix == 0)) [
      | inl last ↦ rw last (here, h)
      | inr more ↦
          rw more (digits_to-NoZero fuel radix (n / radix) (digit (n % radix) ∷ out) (here, h))
    ]

cells_calls-IsCall : (cells : Option (ℕ × ℕ)) → All IsCall (cells_calls cells)
unfolding cells_calls
cells_calls-IsCall none = tt
cells_calls-IsCall (some (a, s)) = omega arith

chosen_calls-IsCall : (rng kaslr : Option (List ℕ)) → All IsCall (chosen_calls rng kaslr)
unfolding chosen_calls
chosen_calls-IsCall none none = tt
chosen_calls-IsCall (some x) none = omega arith
chosen_calls-IsCall none (some y) = omega arith
chosen_calls-IsCall (some x) (some y) = omega arith

memory_name-NoZero : (i : ℕ) (entries : List (ℕ × ℕ)) → NoZero (memory_name i entries)
unfolding memory_name
memory_name-NoZero i [] = omega arith
memory_name-NoZero i ((base, size) ∷ es) = elim (Bool-cases (i % 2 == 0)) [
  | inl even ↦
      rw even (
        NoZero-append (codes "memory@") (hex base) (omega arith)
          (digits_to-NoZero 64 16 base [] tt))
  | inr odd ↦ rw odd (omega arith)
]

memory_calls-IsCall :
    (a s i : ℕ) (nodes : List (List (ℕ × ℕ))) → All IsCall (memory_calls a s i nodes)
unfolding memory_calls
memory_calls-IsCall a s i [] = tt
memory_calls-IsCall a s i (entries ∷ nodes) = (
  memory_name-NoZero i entries,
  (omega arith, (omega arith, (tt, memory_calls-IsCall a s (i + 1) nodes))),
)

child_calls-IsCall :
    (a s i : ℕ) (children : List (Option (List (ℕ × ℕ)))) → All IsCall (child_calls a s i children)
unfolding child_calls child_prop
child_calls-IsCall a s i [] = tt
child_calls-IsCall a s i (none ∷ children) = (
  NoZero-append (codes "region@") (decimal i) (omega arith) (digits_to-NoZero 64 10 i [] tt),
  (omega arith, (omega arith, (tt, child_calls-IsCall a s (i + 1) children))),
)
child_calls-IsCall a s i (some entries ∷ children) = (
  NoZero-append (codes "region@") (decimal i) (omega arith) (digits_to-NoZero 64 10 i [] tt),
  (omega arith, (omega arith, (tt, child_calls-IsCall a s (i + 1) children))),
)

reserved_calls-IsCall :
    (cells : Option (ℕ × ℕ)) (root : ℕ × ℕ) (children : List (Option (List (ℕ × ℕ))))
    → All IsCall (reserved_calls cells root children)
unfolding reserved_calls
reserved_calls-IsCall none root [] = tt
reserved_calls-IsCall none root (c ∷ cs) = (
  omega arith,
  (
    omega arith,
    All-append (child_calls root.0 root.1 0 (c ∷ cs)) (end_call ∷ [])
        (child_calls-IsCall root.0 root.1 0 (c ∷ cs)) (tt, tt),
  ),
)
reserved_calls-IsCall (some (x, y)) root children = (
  omega arith,
  All-append (cells_calls (some (x, y)))
      (prop_call (codes "ranges") [] ∷ (child_calls x y 0 children ++ (end_call ∷ [])))
      (cells_calls-IsCall (some (x, y)))
      (
        omega arith,
        All-append (child_calls x y 0 children) (end_call ∷ []) (child_calls-IsCall x y 0 children)
            (tt, tt),
      ),
)

pub tree_calls-IsCall : (board : Board) → All IsCall (tree_calls board)
unfolding tree_calls
tree_calls-IsCall board =
    let c = root_cells board in
    (
      tt,
      All-append (cells_calls board.cells) _ (cells_calls-IsCall board.cells) (
        omega arith,
        All-append (chosen_calls board.rng_seed board.kaslr_seed) _
            (chosen_calls-IsCall board.rng_seed board.kaslr_seed)
            (All-append (memory_calls c.0 c.1 0 board.memory) _
              (memory_calls-IsCall c.0 c.1 0 board.memory)
              (All-append (reserved_calls board.rsv_cells c board.rsv_children) (end_call ∷ [])
                (reserved_calls-IsCall board.rsv_cells c board.rsv_children) (tt, tt))),
      ),
    )

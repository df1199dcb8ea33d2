-- ===== src/Mm/Walk.antt =====
-- The table walk of the MMU, and what the walkers of `user_map_frame` and `user_install_table` do
-- to it.
use k.Base.{
  Bool, ◌&&◌, ◌≤◌, Result, bit_or, ℕ, zero, suc, ◌-◌, ◌≡◌, refl, ap, ◌∙◌, arith, true, false,
  bit_and, ◌==◌, if◌then◌else◌, update, ok, err, Option, none, some, Bool-cases, inl, inr,
}
use k.Mm.Bits.{bit}
use k.Mm.{Platform, addr_mask, desc_table, MmuError, missing_table, index, Memory, entry}
use k.Mm.User.{is_table, leaf_table, install_walk}

-- The descriptor that the MMU finds for `va`: three levels of tables, then a page.
unfoldable pub lookup : Platform → Memory → (va left table : ℕ) → Option ℕ
lookup p mem va zero table =
    let e = mem (entry table (index p va 3)) in if is_table e then some e else none
lookup p mem va (suc left) table =
    let e = mem (entry table (index p va (2 - left))) in
    let rest = lookup p mem va left (bit_and e (addr_mask p)) in if is_table e then rest else none

unfoldable pub translate : Platform → Memory → (root va : ℕ) → Option ℕ
translate p mem root va = lookup p mem va 3 root

-- What the MMU allows with the descriptor of a page, by its bits: AF (10), AP[1] (6), AP[2] (7), UXN (54) and
-- PXN (53). An access to a page without AF faults.
abbrev pub is_page : (d : ℕ) → Bool
is_page d = is_table d && (bit 10 d == 1)

abbrev pub el0_reads : (d : ℕ) → Bool
el0_reads d = is_page d && (bit 6 d == 1)

abbrev pub el0_writes : (d : ℕ) → Bool
el0_writes d = el0_reads d && (bit 7 d == 0)

abbrev pub el0_runs : (d : ℕ) → Bool
el0_runs d = is_page d && (bit 54 d == 0)

abbrev pub el1_runs : (d : ℕ) → Bool
el1_runs d = is_page d && (bit 53 d == 0)

module _ (p : Platform) (mem : Memory) (at e : ℕ) (free : mem at ≡ 0) where
  -- An entry that links or maps is not the empty one.
  other : (a : ℕ) → is_table (mem a) ≡ true → update mem at e a ≡ mem a
  other a link = elim (Bool-cases (a == at)) [
    | inl same ↦
        let z : mem a ≡ 0 = ap mem {x = a} {y = at} (ground arith) ∙ free in
        absurd (let n : is_table (mem a) ≡ false = ap is_table z in ground arith)
    | inr apart ↦ ground arith
  ]

  -- A write to an empty entry changes no walk that ends at a page.
  pub lookup-update :
      (va left table d : ℕ)
      → lookup p mem va left table ≡ some d
      → lookup p (update mem at e) va left table ≡ some d
  unfolding lookup
  lookup-update va zero table d h =
      let a = entry table (index p va 3) in
      elim (Bool-cases (is_table (mem a))) [
        | inl page ↦ ground (arith, other a page)
        | inr broken ↦ absurd (ground arith)
      ]
  lookup-update va (suc left) table d h =
      let a = entry table (index p va (2 - left)) in
      elim (Bool-cases (is_table (mem a))) [
        | inl link ↦
            rw (other a link, link)
              (lookup-update va left (bit_and (mem a) (addr_mask p)) d (ground arith))
        | inr broken ↦ absurd (ground arith)
      ]

-- The walker of `user_map_frame` reads what the MMU reads.
pub leaf_table-lookup :
    (p : Platform) (mem : Memory) (va left table leaf d : ℕ)
    → leaf_table p mem va left table ≡ ok leaf
    → mem (entry leaf (index p va 3)) ≡ d
    → is_table d ≡ true
    → lookup p mem va left table ≡ some d
unfolding lookup leaf_table
leaf_table-lookup p mem va zero table leaf d found here page =
    let same : table ≡ leaf = ground arith in
    let read : mem (entry table (index p va 3)) ≡ d =
      ap (λ t. mem (entry t (index p va 3))) same ∙ here in
    rw (read, page) refl
leaf_table-lookup p mem va (suc left) table leaf d found here page =
    let e = mem (entry table (index p va (2 - left))) in
    elim (Bool-cases (is_table e)) [
      | inl link ↦ rw link (
          leaf_table-lookup p mem va left (bit_and e (addr_mask p)) leaf d (ground arith) here page)
      | inr broken ↦ absurd (ground arith)
    ]

-- A write to an empty entry keeps the walk to a leaf table, too.
pub leaf_table-update :
    (p : Platform) (mem : Memory) (at e : ℕ)
    → mem at ≡ 0
    → (va left table leaf : ℕ) → leaf_table p mem va left table ≡ ok leaf
    → leaf_table p (update mem at e) va left table ≡ ok leaf
unfolding leaf_table
leaf_table-update p mem at e free va zero table leaf h = h
leaf_table-update p mem at e free va (suc left) table leaf h =
    let a = entry table (index p va (2 - left)) in
    elim (Bool-cases (is_table (mem a))) [
      | inl link ↦
          let ne : (mem a == 0) ≡ false = ground arith in
          rw (other p mem at e free a link, ne, link)
            (leaf_table-update p mem at e free va left (bit_and (mem a) (addr_mask p)) leaf
              (ground arith))
      | inr broken ↦ absurd (ground arith)
    ]

-- The walk to a leaf table goes on below a link.
leaf_table_link :
    (p : Platform) (mem : Memory) (va left table : ℕ)
    → is_table (mem (entry table (index p va (2 - left)))) ≡ true
    → leaf_table p mem va (suc left) table
      ≡ leaf_table p mem va left (bit_and (mem (entry table (index p va (2 - left)))) (addr_mask p))
unfolding leaf_table
leaf_table_link p mem va left table link =
    let nonzero : (mem (entry table (index p va (2 - left))) == 0) ≡ false = ground arith in
    rw (nonzero, link) refl

-- A descriptor of the table at `table_pa`.
abbrev pub IsLink : Platform → (table_pa : ℕ) → Type 0
IsLink p table_pa =
    (is_table (bit_or table_pa desc_table) ≡ true)
    × (bit_and (bit_or table_pa desc_table) (addr_mask p) ≡ table_pa)

-- What the installation of a table at `table_pa` leaves: one empty entry, at the level, has become a link to it, and
-- the walk goes on there, one level below.
pub record IsInstalled (p : Platform) (mem : Memory) (va table_pa left table : ℕ)
    (made : Memory × Result MmuError ℕ) : Type 0 where
  pub level : ℕ
  pub answer : made.1 ≡ ok level
  pub bound : level ≤ 2
  pub at : ℕ
  pub empty : mem at ≡ 0
  pub written : made.0 ≡ update mem at (bit_or table_pa desc_table)
  pub walks_on : leaf_table p made.0 va left table ≡ leaf_table p made.0 va (2 - level) table_pa

-- Where a link is missing a table can be installed.
pub install_walk-missing :
    (p : Platform) (mem : Memory) (va table_pa left table : ℕ)
    → IsLink p table_pa
    → left ≤ 3
    → leaf_table p mem va left table ≡ err missing_table
    → IsInstalled p mem va table_pa left table (install_walk p mem va table_pa left table)
unfolding leaf_table install_walk
install_walk-missing p mem va table_pa zero table good few h = absurd (ground arith)
install_walk-missing p mem va table_pa (suc left) table good few h =
    let a = entry table (index p va (2 - left)) in
    let d = bit_or table_pa desc_table in
    elim (Bool-cases (mem a == 0)) [
      | inl free ↦
          let here : update mem a d a ≡ d = ground arith in
          rw free (record {
            level = 2 - left;
            answer = refl;
            bound = omega arith;
            at = a;
            empty = ground arith;
            written = refl;
            walks_on =
                leaf_table_link p (update mem a d) va left table (ap is_table here ∙ good.0)
                ∙ ap (λ t. leaf_table p (update mem a d) va left t)
                    (ap (λ t. bit_and t (addr_mask p)) here ∙ good.1)
                ∙ ap (λ n. leaf_table p (update mem a d) va n table_pa) {x = left}
                    {y = 2 - (2 - left)} (omega arith);
          })
      | inr used ↦ elim (Bool-cases (is_table (mem a))) [
        | inl link ↦
            let below = bit_and (mem a) (addr_mask p) in
            let rest =
              install_walk-missing p mem va table_pa left below good (omega arith) (ground arith) in
            let made = install_walk p mem va table_pa left below in
            let kept : made.0 a ≡ mem a =
              ap (λ m. m a) rest.written ∙ other p mem rest.at d rest.empty a link in
            rw (used, link)
              (record {
                level = rest.level;
                answer = rest.answer;
                bound = rest.bound;
                at = rest.at;
                empty = rest.empty;
                written = rest.written;
                walks_on =
                    leaf_table_link p made.0 va left table (ap is_table kept ∙ link)
                    ∙ ap (λ t. leaf_table p made.0 va left (bit_and t (addr_mask p))) kept
                    ∙ rest.walks_on;
              })
        | inr broken ↦ absurd (ground arith)
      ]
    ]

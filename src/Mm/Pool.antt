-- ===== src/Mm/Pool.antt =====
-- crates/k0-mm/src/paging.rs: the static pool of kernel page tables. `base` is the physical address
-- of the pool, where the linker puts it.
pub mod Rollback
pub mod Reach
use k.Base.{
  ℕ, zero, suc, ◌+◌, ◌-◌, ◌*◌, ◌/◌, ◌%◌, Bool, true, false, ◌&&◌, ◌||◌, not, bit_and, bit_or, ltb,
  leb, ◌==◌, if◌then◌else◌, update, List, [], ◌∷◌, ◌++◌, Result, ok, err,
}
use k.Base.Words.{word_size}
use k.Abi.{kernel_va_offset}
use k.Mm.{
  Platform, granule, addr_mask, desc_table, desc_page, attr_af, sh_inner, sh_outer, ap_ro, ap_rw,
  pxn, uxn, idx_normal, idx_device, MmuError, not_enabled, out_of_tables, misaligned, overlap,
  bad_table, index,
}
use k.Mm.User.{is_table}

abbrev pub pool_len : ℕ
pool_len = 32

pub data Perm : Type 0 where
  text ro rw device : Perm

abbrev flags : (sh ap idx : ℕ) → ℕ
flags sh ap idx = bit_or (bit_or (bit_or (bit_or desc_page attr_af) sh) ap) idx

unfoldable pub attrs : Perm → ℕ
attrs text = bit_or (flags sh_inner ap_ro idx_normal) uxn
attrs ro = bit_or (bit_or (flags sh_inner ap_ro idx_normal) uxn) pxn
attrs rw = bit_or (bit_or (flags sh_inner ap_rw idx_normal) uxn) pxn
attrs device = bit_or (bit_or (flags sh_outer ap_rw idx_device) uxn) pxn

-- `tables` by the number of the table and the index of the entry.
pub record Pool : Type 0 where
  pub tables : ℕ → ℕ → ℕ
  pub used : ℕ
  pub enabled : Bool
  pub root1 : ℕ

abbrev pub set_entry : Pool → (t idx e : ℕ) → Pool
set_entry pool t idx e = record pool {
  tables = update pool.tables t (update (pool.tables t) idx e);
}

unfoldable pub alloc : Pool → Result MmuError (Pool × ℕ)
alloc pool =
    if pool.used == pool_len
    then err out_of_tables
    else ok (record pool { used = suc pool.used }, pool.used)

module _ (p : Platform) (base : ℕ) where
  -- `pa`
  abbrev pub table_pa : ℕ → ℕ
  table_pa i = base + i * granule p

  unfoldable pub index_of : Pool → ℕ → Result MmuError ℕ
  index_of pool pa =
      if ltb pa base
      then err bad_table
      else let off = pa - base in
        let i = off / granule p in
        if not (off % granule p == 0) || leb pool.used i then err bad_table else ok i

-- Where a walk has come to: the pool, and the links that it has written so far.
abbrev pub Links : Type 0
Links = List (ℕ × ℕ)

abbrev pub Step : Type 0
Step = Pool × Links × Result MmuError ℕ

-- A fresh table is linked at entry `idx` of table `t`.
abbrev pub link :
    Platform → (base : ℕ) → Pool → Links → (t idx : ℕ) → Result MmuError (Pool × ℕ) → Step
link p base pool links t idx (err e) = (pool, links, err e)
link p base pool links t idx (ok (grown, child)) = (
  set_entry grown t idx (bit_or (table_pa p base child) desc_table),
  links ++ ((t, idx) ∷ []),
  ok child,
)

-- The table below entry `idx` of table `t`.
unfoldable pub next_table : Platform → (base : ℕ) → Pool → Links → (t idx : ℕ) → Step
next_table p base pool links t idx =
    let e = pool.tables t idx in
    if e == 0 then link p base pool links t idx (alloc pool) else (
      pool,
      links,
      if is_table e then index_of p base pool (bit_and e (addr_mask p)) else err bad_table,
    )

-- The operator `?`: the rest of the walk, from the table that was found.
abbrev pub and_then : Step → (Pool → Links → ℕ → Step) → Step
and_then (pool, links, err e) rest = (pool, links, err e)
and_then (pool, links, ok t) rest = rest pool links t

-- The loop over the levels of which `left` are left.
unfoldable pub descend : Platform → (base va left : ℕ) → Pool → Links → (t : ℕ) → Step
descend p base va zero pool links t = (pool, links, ok t)
descend p base va (suc left) pool links t =
    and_then (next_table p base pool links t (index p va (2 - left))) (descend p base va left)

-- The leaf, once the walk has found its table.
abbrev pub set_leaf :
    Platform → (va pa attributes : ℕ) → Step → Pool × Links × Result MmuError (Unit {0})
set_leaf p va pa attributes (pool, links, err e) = (pool, links, err e)
set_leaf p va pa attributes (pool, links, ok t) =
    let idx = index p va 3 in
    if pool.tables t idx == 0
    then (set_entry pool t idx (bit_or pa attributes), links, ok tt)
    else (pool, links, err overlap)

unfoldable pub unlink : Pool → Links → Pool
unlink pool [] = pool
unlink pool ((t, idx) ∷ links) = unlink (set_entry pool t idx 0) links

-- A failure takes the links back, and the tables with them.
abbrev pub settle :
    (used_before : ℕ)
    → Pool × Links × Result MmuError (Unit {0})
    → Pool × Result MmuError (Unit {0})
settle used_before (pool, links, err e) = (record (unlink pool links) { used = used_before }, err e)
settle used_before (pool, links, ok u) = (pool, ok u)

unfoldable pub map_page :
    Platform → (base : ℕ) → Pool → (root va pa attributes : ℕ) → Pool × Result MmuError (Unit {0})
map_page p base pool root va pa attributes =
    settle pool.used (set_leaf p va pa attributes (descend p base va 3 pool [] root))

-- How a mapping of many pages ends: the `Result`, or the panic of an address sum that overflows.
pub data Mapped (A : Type 0) : Type 0 where
  all_mapped : A → Mapped A
  refused : MmuError → Mapped A
  panic : Mapped A

abbrev pub and_more :
    {A : Type 0} → Pool × Mapped (Unit {0}) → (Pool → Pool × Mapped A) → Pool × Mapped A
and_more (pool, refused e) rest = (pool, refused e)
and_more (pool, panic) rest = (pool, panic)
and_more (pool, all_mapped u) rest = rest pool

abbrev pub of_result : Pool × Result MmuError (Unit {0}) → Pool × Mapped (Unit {0})
of_result (pool, err e) = (pool, refused e)
of_result (pool, ok u) = (pool, all_mapped u)

-- The loop over `n` pages; the page is at `va` and `pa`, if these sums are words.
unfoldable pub map_pages :
    Platform → (base root attributes n : ℕ) → (va pa : ℕ) → Pool → Pool × Mapped (Unit {0})
map_pages p base root attributes zero va pa pool = (pool, all_mapped tt)
map_pages p base root attributes (suc n) va pa pool = elim (ltb va word_size && ltb pa word_size) [
  | false ↦ (pool, panic)
  | true ↦
      and_more (of_result (map_page p base pool root va pa attributes))
        (map_pages p base root attributes n (va + granule p) (pa + granule p))
]

unfoldable pub map_range :
    Platform → (base : ℕ) → Pool → (root va pa len : ℕ) → Perm → Pool × Mapped (Unit {0})
map_range p base pool root va pa len perm =
    let g = granule p in
    if not (va % g == 0) || (not (pa % g == 0) || not (len % g == 0))
    then (pool, refused misaligned)
    else map_pages p base root (attrs perm) (len / g) va pa pool

-- `pool.map_range(root, start + KERNEL_VA_OFFSET, start, len, perm)`
unfoldable pub map_alias :
    Platform → (base : ℕ) → Pool → (root start len : ℕ) → Perm → Pool × Mapped (Unit {0})
map_alias p base pool root start len perm =
    if ltb (start + kernel_va_offset) word_size
    then map_range p base pool root (start + kernel_va_offset) start len perm
    else (pool, panic)

-- The window is from `start` up to `end`.
unfoldable pub map_kernel_window :
    Platform → (base : ℕ) → Pool → (start end : ℕ) → Pool × Mapped (Unit {0})
map_kernel_window p base pool start end =
    let g = granule p in
    if leb end start || (not (start % g == 0) || not (end % g == 0))
    then (pool, refused misaligned)
    else if not pool.enabled
    then (pool, refused not_enabled)
    else map_alias p base pool pool.root1 start (end - start) rw

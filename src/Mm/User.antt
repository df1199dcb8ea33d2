-- ===== src/Mm/User.antt =====
-- crates/k0-mm/src/user.rs: the walkers that MAP uses on an installed user table.
use k.Base.{
  ℕ, zero, suc, ◌-◌, ◌%◌, ◌^◌, Bool, ◌||◌, bit_and, bit_or, ltb, leb, ◌==◌, not, if◌then◌else◌,
  update, Result, ok, err, none, some,
}
use k.Base.Words.{checked_add}
use k.Mm.{
  Platform, granule, addr_mask, desc_table, desc_page, attr_af, sh_inner, ap_ro_all, ap_rw_all, pxn,
  uxn, idx_normal, MmuError, misaligned, null_page, overlap, bad_table, missing_table, index,
  Memory, entry,
}

pub data UserPerm : Type 0 where
  text_user ro_user rw_user : UserPerm

abbrev common : ℕ
common = bit_or (bit_or desc_page attr_af) sh_inner

unfoldable pub user_attrs : UserPerm → ℕ
user_attrs text_user = bit_or (bit_or (bit_or common ap_ro_all) idx_normal) pxn
user_attrs ro_user = bit_or (bit_or (bit_or (bit_or common ap_ro_all) idx_normal) uxn) pxn
user_attrs rw_user = bit_or (bit_or (bit_or (bit_or common ap_rw_all) idx_normal) uxn) pxn

-- `entry & 0b11 == DESC_TABLE`
abbrev pub is_table : ℕ → Bool
is_table e = bit_and e 3 == desc_table

-- The loop over the levels of which `left` are left: the table that holds the leaf of `va`.
unfoldable pub leaf_table : Platform → Memory → (va left table : ℕ) → Result MmuError ℕ
leaf_table p mem va zero table = ok table
leaf_table p mem va (suc left) table =
    let e = mem (entry table (index p va (2 - left))) in
    let rest = leaf_table p mem va left (bit_and e (addr_mask p)) in
    if e == 0 then err missing_table else if is_table e then rest else err bad_table

abbrev pub checked_va : Platform → (va pa : ℕ) → Result MmuError (Unit {0})
checked_va p va pa =
    if not (va % granule p == 0) || not (pa % granule p == 0)
    then err misaligned
    else if ltb va (granule p)
    then err null_page
    else elim (checked_add va (granule p)) [
      | none ↦ err misaligned
      | some end ↦ if ltb (2 ^ 48) end then err misaligned else ok tt
    ]

-- The write of the leaf, into a table that the walk has found.
abbrev pub write_leaf :
    Platform → Memory → (va pa attrs : ℕ) → Result MmuError ℕ → Memory × Result MmuError (Unit {0})
write_leaf p mem va pa attrs (err e) = (mem, err e)
write_leaf p mem va pa attrs (ok table) =
    let at = entry table (index p va 3) in
    if mem at == 0 then (update mem at (bit_or pa attrs), ok tt) else (mem, err overlap)

abbrev pub checked_map :
    Platform
    → Memory
    → (root va pa attrs : ℕ) → Result MmuError (Unit {0})
    → Memory × Result MmuError (Unit {0})
checked_map p mem root va pa attrs (err e) = (mem, err e)
checked_map p mem root va pa attrs (ok _) =
    write_leaf p mem va pa attrs (leaf_table p mem va 3 root)

unfoldable pub user_map_frame :
    Platform → Memory → (root va pa : ℕ) → UserPerm → Memory × Result MmuError (Unit {0})
user_map_frame p mem root va pa perm =
    checked_map p mem root va pa (user_attrs perm) (checked_va p va pa)

-- The loop of `user_install_table`; the result is the level of the new link.
unfoldable pub install_walk :
    Platform → Memory → (va table_pa left table : ℕ) → Memory × Result MmuError ℕ
install_walk p mem va table_pa zero table = (mem, err overlap)
install_walk p mem va table_pa (suc left) table =
    let at = entry table (index p va (2 - left)) in
    let rest = install_walk p mem va table_pa left (bit_and (mem at) (addr_mask p)) in
    if mem at == 0
    then (update mem at (bit_or table_pa desc_table), ok (2 - left))
    else if is_table (mem at)
    then rest
    else (mem, err bad_table)

unfoldable pub user_install_table :
    Platform → Memory → (root va table_pa : ℕ) → Memory × Result MmuError ℕ
user_install_table p mem root va table_pa =
    if not (table_pa % granule p == 0) || leb (2 ^ 48) va
    then (mem, err misaligned)
    else install_walk p mem va table_pa 3 root

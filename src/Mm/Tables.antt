-- ===== src/Mm/Tables.antt =====
-- crates/k0-mm/src/user.rs: what the installation of a table does, and when it is possible.
use k.Base.{
  ℕ, true, ◌<◌, bit_and, zero, suc, ◌-◌, ◌%◌, ◌^◌, ◌≡◌, ◌≢◌, refl, ap, ◌∙◌, arith, false, ◌||◌, not,
  bit_and, bit_or, leb, ◌==◌, Result, ok, err, some, Bool-cases, inl, inr,
}
use k.Mm.{
  Platform, virt, apple, granule, addr_mask, MmuError, missing_table, index, Memory, entry,
  desc_table,
}
use k.Mm.User.{
  UserPerm, user_attrs, is_table, leaf_table, write_leaf, checked_va, checked_map, user_map_frame,
  install_walk, user_install_table,
}
use k.Mm.Bits.{bit-bit_or, masked_address}
use k.Mm.Mapping.{low_bits, granule_bits}
use k.Mm.Walk.{translate, lookup-update, IsLink, IsInstalled, install_walk-missing}

module _ (p : Platform) (mem : Memory) (root' va' d : ℕ)
    (mapped : translate p mem root' va' ≡ some d) where
  walk_keeps :
      (va table_pa left table : ℕ)
      → translate p (install_walk p mem va table_pa left table).0 root' va' ≡ some d
  unfolding install_walk translate
  walk_keeps va table_pa zero table = mapped
  walk_keeps va table_pa (suc left) table =
      let at = entry table (index p va (2 - left)) in
      let rest = walk_keeps va table_pa left (bit_and (mem at) (addr_mask p)) in
      elim (Bool-cases (mem at == 0)) [
        | inl free ↦ rw free (
            lookup-update p mem at (bit_or table_pa desc_table) (ground arith) va' 3 root' d mapped)
        | inr used ↦ elim (Bool-cases (is_table (mem at))) [
          | inl link ↦ rw (used, link) rest
          | inr broken ↦ rw (used, broken) mapped
        ]
      ]

  -- A page that is mapped, in whichever address space, stays as it is when MAP installs a table or
  -- refuses to.
  pub user_install_table-keeps :
      (root va table_pa : ℕ)
      → translate p (user_install_table p mem root va table_pa).0 root' va' ≡ some d
  unfolding user_install_table
  user_install_table-keeps root va table_pa =
      elim (Bool-cases (not (table_pa % granule p == 0) || leb (2 ^ 48) va)) [
        | inl refused ↦ rw refused mapped
        | inr good ↦ rw good (walk_keeps va table_pa 3 root)
      ]

module _ (p : Platform) (mem : Memory) (root va pa : ℕ) (perm : UserPerm) where
  write_missing :
      (l : Result MmuError ℕ)
      → (write_leaf p mem va pa (user_attrs perm) l).1 ≡ err missing_table
      → l ≡ err missing_table
  write_missing (err e) h = let same : e ≡ missing_table = ground arith in ap err same
  write_missing (ok table) h = elim (Bool-cases (mem (entry table (index p va 3)) == 0)) [
    | inl free ↦ absurd (ground arith)
    | inr used ↦ absurd (ground arith)
  ]

  -- The checks of the arguments neither miss a table nor let an address beyond 48 bits pass.
  checked_bound : checked_va p va pa ≡ ok tt → leb (2 ^ 48) va ≡ false
  checked_bound h = ground arith

  checked_never : checked_va p va pa ≢ err missing_table
  checked_never h = ground arith

  map_missing :
      (c : Result MmuError (Unit {0}))
      → checked_va p va pa ≡ c
      → (checked_map p mem root va pa (user_attrs perm) c).1 ≡ err missing_table
      → (leaf_table p mem va 3 root ≡ err missing_table) × (leb (2 ^ 48) va ≡ false)
  map_missing (err e) guards h = absurd (checked_never (guards ∙ h))
  map_missing (ok u) guards h = (write_missing (leaf_table p mem va 3 root) h, checked_bound guards)

  link_bits : (a : ℕ) → a % 4 ≡ 0 → is_table (bit_or a desc_table) ≡ true
  link_bits a h =
      low_bits (bit_or a desc_table) (bit-bit_or 0 a desc_table ∙ omega arith)
        (bit-bit_or 1 a desc_table ∙ omega arith)

  table-IsLink : (a : ℕ) → a % granule p ≡ 0 → a < 2 ^ 48 → IsLink p a
  table-IsLink a aligned small = (
    link_bits a (granule_bits p a aligned).0,
    masked_address p a desc_table aligned small (outside p),
  )
    where
      outside : (p : Platform) → bit_and desc_table (addr_mask p) ≡ 0
      outside virt = refl
      outside apple = refl

  -- When MAP of a frame answers that a table is missing, a table of its own granule below 2 ^ 48 is installed for the
  -- same address: one entry that was empty becomes a link to it, at the level that is answered, and the walk of the next
  -- MAP goes on in the new table, one level below.
  pub user_install_table-missing :
      (table_pa : ℕ)
      → table_pa % granule p ≡ 0
      → table_pa < 2 ^ 48
      → (user_map_frame p mem root va pa perm).1 ≡ err missing_table
      → IsInstalled p mem va table_pa 3 root (user_install_table p mem root va table_pa)
  unfolding user_map_frame user_install_table
  user_install_table-missing table_pa aligned small h =
      let (missing, bound) = map_missing (checked_va p va pa) refl h in
      let good : (not (table_pa % granule p == 0) || leb (2 ^ 48) va) ≡ false = ground arith in
      rw good (
        install_walk-missing p mem va table_pa 3 root (table-IsLink table_pa aligned small)
          (omega arith) missing)

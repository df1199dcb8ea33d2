-- ===== src/Mm/Mapping.antt =====
-- crates/k0-mm/src/user.rs: what MAP does to the translations of user addresses.
use k.Base.{
  ℕ, Bool, false, ◌<◌, ◌^◌, ◌%◌, ◌≡◌, refl, ◌∙◌, arith, true, bit_and, bit_or, ◌==◌, Result, ok,
  err, some, Bool-cases, inl, inr,
}
use k.Base.Align.{bit_and_mask}
use k.Mm.{Platform, virt, apple, granule, addr_mask, MmuError, index, Memory, entry}
use k.Mm.Bits.{bit}
use k.Mm.User.{
  UserPerm, text_user, ro_user, rw_user, user_attrs, is_table, leaf_table, write_leaf, checked_va,
  checked_map, user_map_frame,
}
use k.Mm.Walk.{el0_reads, el0_writes, el0_runs, el1_runs, translate, lookup-update}

-- Which permission makes a page writable.
abbrev pub is_rw : UserPerm → Bool
is_rw rw_user = true
is_rw _ = false

-- What the MMU does with the page that MAP writes for a permission: user code reads it, writes it only with
-- `rw_user`, and neither user code nor the kernel runs it. It is inner shareable, of the memory type 0, and, for a
-- frame below 2 ^ 48, the page is the frame.
pub record IsPage (p : Platform) (perm : UserPerm) (pa d : ℕ) : Type 0 where
  pub descriptor : d ≡ bit_or pa (user_attrs perm)
  pub valid : is_table d ≡ true
  pub accessed : bit 10 d ≡ 1
  pub user_reads : el0_reads d ≡ true
  pub user_writes : el0_writes d ≡ is_rw perm
  pub user_never_runs : el0_runs d ≡ false
  pub kernel_never_runs : el1_runs d ≡ false
  pub shared : (bit 8 d ≡ 1) × (bit 9 d ≡ 1)
  pub normal : (bit 2 d ≡ 0) × (bit 3 d ≡ 0) × (bit 4 d ≡ 0)
  pub address : pa < 2 ^ 48 → bit_and d (addr_mask p) ≡ pa

-- The two permissions that MAP offers.
abbrev pub IsData : UserPerm → Type 0
IsData text_user = ⊥
IsData ro_user = Unit
IsData rw_user = Unit

-- The bits below the granule are free.
pub granule_bits :
    (p : Platform) (pa : ℕ)
    → pa % granule p ≡ 0
    → (pa % 4 ≡ 0) × (bit 7 pa ≡ 0) × (bit 2 pa ≡ 0) × (bit 3 pa ≡ 0) × (bit 4 pa ≡ 0)
granule_bits virt pa h = (omega arith, omega arith, omega arith, omega arith, omega arith)
granule_bits apple pa h = (omega arith, omega arith, omega arith, omega arith, omega arith)

pub low_bits : (a : ℕ) → bit 0 a ≡ 1 → bit 1 a ≡ 1 → is_table a ≡ true
low_bits a b c = let e : bit_and a 3 ≡ 3 = bit_and_mask 2 a ∙ omega arith in rw e refl

-- The attributes of the permissions that MAP offers, bit by bit.
record IsAttrs (perm : UserPerm) (a : ℕ) : Type 0 where
  pub page : (bit 0 a ≡ 1) × (bit 1 a ≡ 1)
  pub access : (bit 10 a ≡ 1) × (bit 6 a ≡ 1)
  pub never_run : (bit 54 a ≡ 1) × (bit 53 a ≡ 1)
  pub shares : (bit 8 a ≡ 1) × (bit 9 a ≡ 1)
  pub kind : (bit 2 a ≡ 0) × (bit 3 a ≡ 0) × (bit 4 a ≡ 0)
  pub writes : (bit 7 a == 0) ≡ is_rw perm

module _ (p : Platform) (mem : Memory) (root va pa : ℕ) (perm : UserPerm) where
  write_keeps :
      (l : Result MmuError ℕ) (root' va' d : ℕ)
      → translate p mem root' va' ≡ some d
      → translate p (write_leaf p mem va pa (user_attrs perm) l).0 root' va' ≡ some d
  unfolding translate
  write_keeps (err e) root' va' d h = h
  write_keeps (ok table) root' va' d h =
      let at = entry table (index p va 3) in
      elim (Bool-cases (mem at == 0)) [
        | inl free ↦
            rw free
              (lookup-update p mem at (bit_or pa (user_attrs perm)) (ground arith) va' 3 root' d h)
        | inr used ↦ rw used h
      ]

  map_keeps :
      (c : Result MmuError (Unit {0})) (root' va' d : ℕ)
      → translate p mem root' va' ≡ some d
      → translate p (checked_map p mem root va pa (user_attrs perm) c).0 root' va' ≡ some d
  map_keeps (err e) root' va' d h = h
  map_keeps (ok u) root' va' d h = write_keeps (leaf_table p mem va 3 root) root' va' d h

  -- A page that is mapped, in whichever address space, stays as it is when MAP maps a frame or
  -- refuses to.
  pub user_map_frame-keeps :
      (root' va' d : ℕ)
      → translate p mem root' va' ≡ some d
      → translate p (user_map_frame p mem root va pa perm).0 root' va' ≡ some d
  unfolding user_map_frame
  user_map_frame-keeps root' va' d h = map_keeps (checked_va p va pa) root' va' d h

  write_unchanged :
      (l : Result MmuError ℕ) (e : MmuError)
      → (write_leaf p mem va pa (user_attrs perm) l).1 ≡ err e
      → (write_leaf p mem va pa (user_attrs perm) l).0 ≡ mem
  write_unchanged (err e') e h = refl
  write_unchanged (ok table) e h = elim (Bool-cases (mem (entry table (index p va 3)) == 0)) [
    | inl free ↦ absurd (ground arith)
    | inr used ↦ rw used refl
  ]

  map_unchanged :
      (c : Result MmuError (Unit {0})) (e : MmuError)
      → (checked_map p mem root va pa (user_attrs perm) c).1 ≡ err e
      → (checked_map p mem root va pa (user_attrs perm) c).0 ≡ mem
  map_unchanged (err e') e h = refl
  map_unchanged (ok u) e h = write_unchanged (leaf_table p mem va 3 root) e h

  -- A mapping that is refused leaves the tables as they were.
  pub user_map_frame-unchanged :
      (e : MmuError)
      → (user_map_frame p mem root va pa perm).1 ≡ err e
      → (user_map_frame p mem root va pa perm).0 ≡ mem
  unfolding user_map_frame
  user_map_frame-unchanged e h = map_unchanged (checked_va p va pa) e h

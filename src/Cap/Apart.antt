-- ===== src/Cap/Apart.antt =====
-- The physical memory that the capabilities of a CNode speak for, and the invariant of its slots.
use k.Base.{ℕ, ◌+◌, ◌≤◌, ◌<◌, ◌≡◌}
use k.Cap.{
  CNode, Cap, cnode_slots, empty, root_tcb, console, addr_space, tcb, untyped, frame, page_table,
  endpoint,
}
use k.Base.Words.{word_size}

-- Byte `k` belongs to the granule at `base`.
abbrev pub InGranule : (granule base k : ℕ) → Type 0
InGranule granule base k = (base ≤ k) × (k < base + granule)

-- Byte `k` is what the capability gives away: the untouched rest of an untyped, or the object.
abbrev pub Claims : (granule : ℕ) → Cap → (k : ℕ) → Type 0
Claims g (untyped base size used) k = (base + used ≤ k) × (k < base + size)
Claims g (tcb base) k = InGranule g base k
Claims g (frame base mapped) k = InGranule g base k
Claims g (page_table base installed) k = InGranule g base k
Claims g (endpoint base) k = InGranule g base k
Claims g empty k = ⊥
Claims g root_tcb k = ⊥
Claims g console k = ⊥
Claims g (addr_space root_pa) k = ⊥

-- An untyped ends inside the address range, and its watermark inside it.
abbrev pub IsSized : Cap → Type 0
IsSized (untyped base size used) = (used ≤ size) × (base + size < word_size)
IsSized _ = Unit

pub record IsApart (granule : ℕ) (cn : CNode) : Type 0 where
  pub capacity : cn.used ≤ cnode_slots
  pub sized : (i : ℕ) → i < cn.used → IsSized (cn.slots i)
  -- No byte is claimed by two slots.
  pub separate :
      (i j k : ℕ)
      → i < cn.used
      → j < cn.used
      → Claims granule (cn.slots i) k
      → Claims granule (cn.slots j) k
      → i ≡ j

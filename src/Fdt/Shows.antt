-- ===== src/Fdt/Shows.antt =====
-- crates/k0-boot/src/fdt.rs and fdt/builder.rs: what a BootInfo shows of a Board, while it is filled.
use k.Base.{
  length, ℕ, zero, suc, ◌+◌, ◌≤◌, ◌<◌, ◌≡◌, refl, sym, ap, ◌∙◌, subst, arith, true, false, ◌&&◌,
  ltb, ◌==◌, List, [], ◌∷◌, ◌++◌, some, length-append, All, Bool-cases, inl, inr, update,
}
use mathlib.Core.List.{append_assoc, append-nil}
use k.Base.Words.{word_size, checked_add}
use k.Fdt.{
  MemRegion, BootInfo, Outcome, ok, prefix, memory, reserved_list, entropy_list, max_entropy,
  max_mem_regions, max_rsv_regions,
}
use k.Fdt.Reg.{one_or_two, push_regions, push_reserved_regions, push_reserved}
use k.Fdt.Builder.{reg, expected}
use k.Fdt.Board.{until_end}
use k.Fdt.RegTrip.{FitsEntry, parse_reg-reg, prefix-put}
use k.Fdt.Written.{reserve_entries}

pub record Shows (m r : List MemRegion) (e : List ℕ) (info : BootInfo) : Type 0 where
  pub memory_shown : memory info ≡ m
  pub reserved_shown : reserved_list info ≡ r
  pub entropy_shown : entropy_list info ≡ e
  pub bounded : info.entropy_len ≤ max_entropy

pub length-prefix : {A : Type 0} (f : ℕ → A) (n : ℕ) → length (prefix f n) ≡ n
unfolding prefix
length-prefix f zero = refl
length-prefix f (suc n) = omega (arith, length-append (prefix f n) (f n ∷ []), length-prefix f n)

-- A step that succeeds, with what its BootInfo shows.
abbrev pub Gives : (m r : List MemRegion) (e : List ℕ) → Outcome BootInfo → Type 0
Gives m r e o = (info : BootInfo) × (o ≡ ok info) × Shows m r e info

module _ (addr_cells size_cells : ℕ) (few : (one_or_two addr_cells && one_or_two size_cells) ≡ true)
    (es : List (ℕ × ℕ)) (some_entry : 0 < length es)
    (fits : All (FitsEntry addr_cells size_cells) es) (m r : List MemRegion) (e : List ℕ)
    (info : BootInfo) (s : Shows m r e info) where
  pub push_regions-Shows :
      length m + length (expected es) ≤ max_mem_regions
      → Gives
          (m ++ expected es)
          r
          e
          (push_regions (reg es addr_cells size_cells) addr_cells size_cells info)
  unfolding push_regions
  push_regions-Shows room =
      let (rs, o, p) =
        parse_reg-reg addr_cells size_cells few max_mem_regions es info.regions info.region_count
          some_entry fits
          (omega (
            arith,
            room,
            ap length s.memory_shown,
            length-prefix info.regions info.region_count,
          )) in
      (
        record info { regions = rs.0; region_count = rs.1 },
        rw o refl,
        record {
          memory_shown = p ∙ ap (λ t. t ++ expected es) s.memory_shown;
          reserved_shown = s.reserved_shown;
          entropy_shown = s.entropy_shown;
          bounded = s.bounded;
        },
      )

  pub push_reserved_regions-Shows :
      length r + length (expected es) ≤ max_rsv_regions
      → Gives m
          (r ++ expected es)
          e
          (push_reserved_regions (reg es addr_cells size_cells) addr_cells size_cells info)
  unfolding push_reserved_regions
  push_reserved_regions-Shows room =
      let (rs, o, p) =
        parse_reg-reg addr_cells size_cells few max_rsv_regions es info.reserved info.reserved_count
          some_entry fits
          (omega (
            arith,
            room,
            ap length s.reserved_shown,
            length-prefix info.reserved info.reserved_count,
          )) in
      (
        record info { reserved = rs.0; reserved_count = rs.1 },
        rw o refl,
        record {
          reserved_shown = p ∙ ap (λ t. t ++ expected es) s.reserved_shown;
          memory_shown = s.memory_shown;
          entropy_shown = s.entropy_shown;
          bounded = s.bounded;
        },
      )

-- One entry of the memreserve block.
push_reserved-Shows :
    (base size : ℕ) (m r : List MemRegion) (e : List ℕ) (info : BootInfo)
    → Shows m r e info
    → base + size < word_size
    → length r < max_rsv_regions
    → Gives m (r ++ (record { base = base; size = size } ∷ [])) e (push_reserved info base size)
unfolding push_reserved
push_reserved-Shows base size m r e info s fits room = (
  record info {
    reserved = update info.reserved info.reserved_count x;
    reserved_count = suc info.reserved_count;
  },
  rw (sum, full, left) refl,
  record {
    memory_shown = s.memory_shown;
    reserved_shown =
        prefix-put info.reserved info.reserved_count x ∙ ap (λ t. t ++ (x ∷ [])) s.reserved_shown;
    entropy_shown = s.entropy_shown;
    bounded = s.bounded;
  },
)
  where
    x : MemRegion
    x = record { base = base; size = size }

    count : info.reserved_count < max_rsv_regions
    count =
        omega
          (arith, room, ap length s.reserved_shown, length-prefix info.reserved info.reserved_count)

    sum : checked_add base size ≡ some (base + size)
    sum = ground arith

    full : (info.reserved_count == max_rsv_regions) ≡ false
    full = ground (arith, count)

    left : ltb info.reserved_count max_rsv_regions ≡ true
    left = ground (arith, count)

-- The entries that are read end in the address space.
abbrev pub Ends : ℕ × ℕ → Type 0
Ends (base, size) = base + size < word_size

pub reserve_entries-Shows :
    (es : List (ℕ × ℕ)) (m r : List MemRegion) (e : List ℕ) (info : BootInfo)
    → Shows m r e info
    → All Ends (until_end es)
    → length r + length (expected (until_end es)) ≤ max_rsv_regions
    → Gives m (r ++ expected (until_end es)) e (reserve_entries es info)
unfolding reserve_entries until_end expected
reserve_entries-Shows [] m r e info s fits room = (
  info,
  refl,
  record {
    memory_shown = s.memory_shown;
    reserved_shown = s.reserved_shown ∙ sym (append-nil r);
    entropy_shown = s.entropy_shown;
    bounded = s.bounded;
  },
)
reserve_entries-Shows ((base, size) ∷ es) m r e info s fits room =
    elim (Bool-cases (base == 0 && size == 0)) [
      | inl last ↦ rw last (
        info,
        refl,
        record {
          memory_shown = s.memory_shown;
          reserved_shown = s.reserved_shown ∙ sym (append-nil r);
          entropy_shown = s.entropy_shown;
          bounded = s.bounded;
        },
      )
      | inr more ↦
          let all : All Ends ((base, size) ∷ until_end es) = rw more at fits in
          let space : length r + length (expected ((base, size) ∷ until_end es)) ≤ max_rsv_regions =
            rw more at room in
          elim (Bool-cases (size == 0)) [
            | inl empty ↦
                rw (more, empty) (reserve_entries-Shows es m r e info s all.1 (rw empty at space))
            | inr full ↦
                let space' : length r + suc (length (expected (until_end es))) ≤ max_rsv_regions =
                  rw full at space in
                let x : MemRegion = record { base = base; size = size } in
                let (info1, o1, s1) =
                  push_reserved-Shows base size m r e info s all.0 (omega (arith, space')) in
                let (info2, o2, s2) =
                  reserve_entries-Shows es m (r ++ (x ∷ [])) e info1 s1 all.1
                    (omega (arith, space', length-append r (x ∷ []))) in
                rw (more, full, o1)
                  (
                    info2,
                    o2,
                    subst (λ t. Shows m t e info2)
                        (append_assoc r (x ∷ []) (expected (until_end es))) s2,
                  )
          ]
    ]

-- ===== src/Fdt/Total.antt =====
-- crates/k0-boot/src/fdt.rs: parse_blob and parse on any bytes at all.
use k.Base.{
  length, ℕ, zero, suc, ◌+◌, ◌%◌, ◌^◌, ◌≤◌, ◌<◌, ◌≡◌, refl, arith, not, ◌&&◌, ◌||◌, ltb, leb, ◌==◌,
  List, Option, none, some, Bool-cases, inl, inr,
}
use k.Base.Words.{checked_add}
use k.Base.Bytes.{get_range, find_zero, find_zero-lt}
use k.Fdt.{max_depth, BootInfo, Outcome, ok, ◌>>=◌, at_most, below, supported_version}
use k.Fdt.Reg.{cell_count}
use k.Fdt.Tree.{
  Layout, Walk, is_at, is_named, add_one, enter, begin_node, end_node, prop_name, root_prop,
  rsv_prop, use_prop, prop, step, finish, walk, empty_info, at_root, has_memory, parse_blob,
  begin_token, end_node_token, prop_token, nop_token, end_token,
}
use k.Fdt.Outcomes.{
  Returns, returned, refused, >>=-Returns, ok_or-Returns, refuse-Returns, add-Returns, if-Returns,
  index_range-length, be32-Returns, align4-Returns, get_range-some, forget,
}
use k.Fdt.Filled.{
  IsFilled, push_regions-IsFilled, push_reserved_regions-IsFilled, push_entropy-IsFilled,
  rsv_loop-IsFilled,
}

cell_count-Returns : (value : List ℕ) → Returns (λ _. Unit {0}) (cell_count value)
unfolding cell_count
cell_count-Returns value = if-Returns (length value == 4) _ _ (λ _. returned _ tt) (λ _. refused _)

add_one-Returns :
    {B : Type 0} {P : B → Type 0} (a : ℕ) (rest : ℕ → Outcome B)
    → a ≤ max_depth
    → Returns P (rest (a + 1))
    → Returns P (add_one a >>= rest)
add_one-Returns a rest h k = elim (Bool-cases (ltb (a + 1) (2 ^ 32))) [
  | inl fits ↦ rw fits k
  | inr over ↦ absurd (ground arith)
]

module _ (start end : ℕ) where
  -- The depth is bounded.
  record IsWalk (w : Walk) : Type 0 where
    shallow : w.depth ≤ max_depth
    filled : IsFilled start end w.info

  -- A part that sets a number of cells, and leaves the rest of the walk.
  cells-IsWalk :
      (value : List ℕ) (set_cells : ℕ → Walk)
      → ((n : ℕ) → IsWalk (set_cells n))
      → Returns (IsWalk) (cell_count value >>= (λ n. ok (set_cells n)))
  cells-IsWalk value set_cells h =
      >>=-Returns _ (cell_count-Returns value) (λ n _. returned _ (h n))

  -- A part that fills the BootInfo, and leaves the rest of the walk.
  filled-IsWalk :
      (w : Walk)
      → IsWalk w
      → {m : Outcome BootInfo} → Returns (IsFilled start end) m
      → Returns (IsWalk) (m >>= (λ i. ok (record w { info = i })))
  filled-IsWalk w h r =
      >>=-Returns _ r (λ i f. returned _ record { shallow = h.shallow; filled = f })

  module _ (name value : List ℕ) (w : Walk) (h : IsWalk w) where
    root_prop-IsWalk : Returns (IsWalk) (root_prop name value w)
    unfolding root_prop
    root_prop-IsWalk =
        if-Returns (is_named name "#address-cells") _ _
          (λ _. cells-IsWalk value _ (λ n. record { shallow = h.shallow; filled = h.filled }))
          (λ _.
            if-Returns (is_named name "#size-cells") _ _
              (λ _. cells-IsWalk value _ (λ n. record { shallow = h.shallow; filled = h.filled }))
              (λ _. returned w h))

    rsv_prop-IsWalk : Returns (IsWalk) (rsv_prop name value w)
    unfolding rsv_prop
    rsv_prop-IsWalk =
        if-Returns (is_named name "#address-cells") _ _
          (λ _. cells-IsWalk value _ (λ n. record { shallow = h.shallow; filled = h.filled }))
          (λ _.
            if-Returns (is_named name "#size-cells") _ _
              (λ _. cells-IsWalk value _ (λ n. record { shallow = h.shallow; filled = h.filled }))
              (λ _. returned w h))

    use_prop-IsWalk : Returns (IsWalk) (use_prop name value w)
    unfolding use_prop
    use_prop-IsWalk =
        if-Returns (w.depth == 1) _ _ (λ _. root_prop-IsWalk)
          (λ _.
            if-Returns (is_at w.memory_depth w.depth && is_named name "reg") _ _
              (λ _.
                filled-IsWalk w h
                  (push_regions-IsFilled start end value w.addr_cells w.size_cells w.info h.filled))
              (λ _.
                if-Returns (w.rsv_node && w.depth == 2) _ _ (λ _. rsv_prop-IsWalk)
                  (λ _.
                    if-Returns (w.rsv_node && (w.depth == 3 && is_named name "reg")) _ _
                      (λ _. filled-IsWalk w h (
                        push_reserved_regions-IsFilled start end value w.rsv_addr_cells
                          w.rsv_size_cells w.info h.filled))
                      (λ _.
                        if-Returns
                          (is_at w.chosen_depth w.depth
                            && (is_named name "rng-seed" || is_named name "kaslr-seed"))
                          _ _
                          (λ _.
                            filled-IsWalk w h
                              (push_entropy-IsFilled start end value w.info h.filled))
                          (λ _. returned w h)))))

  module _ (l : Layout) (small : length l.blob < 2 ^ 63) (in_blob : l.struct_end ≤ length l.blob)
      (names_in_blob : l.strings_end ≤ length l.blob) where
    -- A round has not gone back behind `low`.
    abbrev IsAfter : (low : ℕ) → ℕ × Walk → Type 0
    IsAfter low (off, w) = (low ≤ off) × IsWalk w

    begin_node-IsWalk : (off : ℕ) (w : Walk) → IsWalk w → Returns (IsAfter off) (begin_node l off w)
    unfolding begin_node enter
    begin_node-IsWalk off w h = add_one-Returns w.depth _ h.shallow (
        refuse-Returns (ltb max_depth (w.depth + 1)) _ _ (λ fits.
          ok_or-Returns (get_range l.blob off l.struct_end) _ _ (λ rest e.
            ok_or-Returns (find_zero rest) _ _ (λ rel f.
              let (before, inside, long) = get_range-some l.blob off l.struct_end e in
              let short = find_zero-lt rest rel f in
              add-Returns off rel _ (omega arith) (
                >>=-Returns _
                  (index_range-length l.blob off (off + rel) (omega arith) (omega arith))
                  (λ name n.
                    refuse-Returns (w.depth + 1 == 1 && not (length name == 0)) _ _ (λ root.
                      add-Returns (off + rel) 1 _ (omega arith) (
                        >>=-Returns _ (align4-Returns (off + rel + 1)) (λ next later. returned _ (
                          omega arith,
                          record { shallow = ground arith; filled = h.filled },
                        ))))))))))

    end_node-IsWalk : (w : Walk) → IsWalk w → Returns (IsWalk) (end_node w)
    unfolding end_node
    end_node-IsWalk w h =
        if-Returns (w.depth == 0) _ _ (λ _. refused _)
          (λ _. returned _ record { shallow = omega (arith, h.shallow); filled = h.filled })

    prop_name-Returns : (name_off : ℕ) → Returns (λ _. Unit {0}) (prop_name l name_off)
    unfolding prop_name
    prop_name-Returns name_off =
        ok_or-Returns (below l.strings_end (checked_add l.off_strings name_off)) _ _ (λ from e.
          let inside : from < l.strings_end = ground arith in
          >>=-Returns _ (index_range-length l.blob from l.strings_end (omega arith) names_in_blob)
            (λ rest n. ok_or-Returns (find_zero rest) _ _ (λ rel f.
              let short = find_zero-lt rest rel f in
              add-Returns from rel _ (omega arith) (
                forget (index_range-length l.blob from (from + rel) (omega arith) (omega arith))))))

    prop-IsWalk : (off : ℕ) (w : Walk) → IsWalk w → Returns (IsAfter off) (prop l off w)
    unfolding prop
    prop-IsWalk off w h = refuse-Returns (w.depth == 0) _ _ (λ inside.
        >>=-Returns _ (be32-Returns l.blob off) (λ len first. add-Returns off 4 _ (omega arith) (
          >>=-Returns _ (be32-Returns l.blob (off + 4)) (λ name_off second.
            add-Returns off 8 _ (omega arith) (
              ok_or-Returns (at_most l.struct_end (checked_add (off + 8) len)) _ _ (λ val_end e.
                let last : val_end ≤ l.struct_end = ground arith in
                let later : off + 8 ≤ val_end = ground arith in
                >>=-Returns _ (prop_name-Returns name_off) (λ name _.
                  >>=-Returns _ (index_range-length l.blob (off + 8) val_end later (omega arith))
                    (λ value n. >>=-Returns _ (use_prop-IsWalk name value w h) (λ w' h'.
                      >>=-Returns _ (align4-Returns val_end)
                        (λ next after. returned _ (omega arith, h')))))))))))

    step-IsWalk : (token off : ℕ) (w : Walk) → IsWalk w → Returns (IsAfter off) (step l token off w)
    unfolding step
    step-IsWalk token off w h =
        if-Returns (token == begin_token) _ _ (λ _. begin_node-IsWalk off w h)
          (λ _.
            if-Returns (token == end_node_token) _ _
              (λ _. >>=-Returns _ (end_node-IsWalk w h) (λ w' h'. returned _ (omega arith, h')))
              (λ _.
                if-Returns (token == prop_token) _ _ (λ _. prop-IsWalk off w h)
                  (λ _.
                    if-Returns (token == nop_token) _ _ (λ _. returned _ (omega arith, h))
                      (λ _. refused _))))

    -- Each round takes a token at least, so the loop ends by itself.
    walk-IsFilled :
        (fuel off : ℕ) (w : Walk)
        → 0 < fuel
        → l.struct_end < fuel + off
        → IsWalk w
        → Returns (IsFilled start end) (walk fuel l off w)
    unfolding walk finish
    walk-IsFilled zero off w some_fuel enough h = absurd (omega arith)
    walk-IsFilled (suc fuel) off w some_fuel enough h =
        refuse-Returns (leb l.struct_end off) _ _ (λ more.
          >>=-Returns _ (be32-Returns l.blob off) (λ token inside.
            add-Returns off 4 _ (omega arith) (
              if-Returns (token == end_token) _ _
                (λ last.
                  if-Returns (w.depth == 0) _ _ (λ _. returned w.info h.filled) (λ _. refused _))
                (λ other. >>=-Returns _ (step-IsWalk token (off + 4) w h) (λ at g.
                  walk-IsFilled fuel at.0 at.1 (ground arith) (ground (arith, g.0)) g.1)))))

-- What parse_blob answers on success.
pub record IsParsed (start end : ℕ) (info : BootInfo) : Type 0 where
  pub has_region : 0 < info.region_count
  pub filled : IsFilled start end info

-- On any bytes, fewer than 2 ^ 63, the parser ends, without a panic, and so without a read outside of the blob. What it returns
-- has 1 to 8 memory regions and at most 8 reserved ones, each of some size and inside the address space, at most 72
-- bytes of entropy, and the range that was given.
pub parse_blob-IsParsed :
    (blob : List ℕ) (start end : ℕ)
    → length blob < 2 ^ 63
    → Returns (IsParsed start end) (parse_blob blob start end)
unfolding parse_blob has_memory
parse_blob-IsParsed blob start end small = >>=-Returns _ (be32-Returns blob 8) (λ off_struct _.
    >>=-Returns _ (be32-Returns blob 12) (λ off_strings _.
      >>=-Returns _ (be32-Returns blob 20) (λ version _.
        >>=-Returns _ (be32-Returns blob 24) (λ last_comp _.
          >>=-Returns _ (be32-Returns blob 32) (λ size_strings _.
            >>=-Returns _ (be32-Returns blob 36) (λ size_struct _.
              refuse-Returns (ltb version supported_version || ltb supported_version last_comp) _ _
                (λ known.
                  refuse-Returns (not (off_struct % 4 == 0) || not (size_struct % 4 == 0)) _ _
                    (λ aligned.
                      ok_or-Returns (at_most (length blob) (checked_add off_struct size_struct)) _ _
                        (λ struct_end e.
                          ok_or-Returns
                            (at_most (length blob) (checked_add off_strings size_strings)) _ _
                            (λ strings_end f. >>=-Returns _ (be32-Returns blob 16) (λ off_rsvmap _.
                              refuse-Returns (not (off_rsvmap % 8 == 0)) _ _ (λ even.
                                >>=-Returns _
                                  (rsv_loop-IsFilled start end (suc (length blob)) blob off_rsvmap
                                    (empty_info start end) (omega arith) (omega arith) (omega arith)
                                    record {
                                      start = refl;
                                      end = refl;
                                      memory = (omega arith, λ i below. absurd (omega arith));
                                      reserved = (omega arith, λ i below. absurd (omega arith));
                                      entropy = omega arith;
                                    })
                                  (λ info g.
                                    >>=-Returns _
                                      (walk-IsFilled start end
                                        (record {
                                          blob = blob;
                                          struct_end = struct_end;
                                          off_strings = off_strings;
                                          strings_end = strings_end;
                                        })
                                        small (at_most-le _ e) (at_most-le _ f) (suc struct_end)
                                        off_struct (at_root info) (omega arith) (omega arith)
                                        record { shallow = omega arith; filled = g })
                                      (λ info' g'.
                                        if-Returns (info'.region_count == 0) _ _ (λ _. refused _)
                                          (λ some_region. returned info' record {
                                            has_region = ground arith;
                                            filled = g';
                                          })))))))))))))))
  where
    at_most-le : {limit e : ℕ} (o : Option ℕ) → at_most limit o ≡ some e → e ≤ limit
    at_most-le none h = absurd (cc)
    at_most-le (some v) h = ground arith

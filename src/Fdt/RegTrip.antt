-- ===== src/Fdt/RegTrip.antt =====
-- crates/k0-boot/src/fdt.rs and fdt/builder.rs: cells and `reg` properties, written and read back.
use k.Base.{
  length, ℕ, zero, suc, ◌+◌, ◌*◌, ◌/◌, ◌%◌, ◌^◌, ◌≤◌, ◌<◌, ◌≡◌, refl, sym, ap, ◌∙◌, arith, true,
  false, not, ◌&&◌, ◌||◌, ltb, ◌==◌, update, List, [], ◌∷◌, ◌++◌, Bool-cases, inl, inr, bit_or, All,
  length-append,
}
use k.Base.Words.{word_size}
use k.Base.Align.{bit_or_fields}
use k.Base.Bytes.{take, drop, take-append, drop-append, to_be}
use k.Fdt.{MemRegion, Outcome, ok, prefix}
use k.Fdt.Reg.{read_after, read_cells, Regions, reg_entry, reg_loop, one_or_two, parse_reg}
use k.Fdt.Builder.{cells, reg, expected}
use native.Mathlib.Nat.{mul-div_cancel, mul-mod_left, mul-pos}
use mathlib.Core.List.{append_assoc, append-nil}

-- One byte, while the top byte of the digits is free.
read_byte : (acc b : ℕ) → acc < 2 ^ 56 → b < 256 → bit_or (acc * 256 % word_size) b ≡ acc * 256 + b
read_byte acc b small byte = rw small_lem (bit_or_fields 8 acc b byte)
  where
    small_lem : acc * 256 % word_size ≡ acc * 256
    small_lem = omega arith

-- One word of 32 bits.
read_after-word :
    (acc w : ℕ) (rest : List ℕ)
    → acc < 2 ^ 32
    → w < 2 ^ 32
    → read_after acc (to_be 4 w ++ rest) ≡ read_after (acc * 2 ^ 32 + w) rest
unfolding read_after to_be
read_after-word acc w rest small word =
    rw
      (
        read_byte acc b0 (omega arith) (omega arith),
        read_byte (acc * 256 + b0) b1 (omega arith) (omega arith),
        read_byte ((acc * 256 + b0) * 256 + b1) b2 (omega arith) (omega arith),
        read_byte (((acc * 256 + b0) * 256 + b1) * 256 + b2) b3 (omega arith) (omega arith),
      )
      (ap (λ t. read_after t rest) (omega arith))
  where
    b0 : ℕ
    b0 = w / 256 ^ 3 % 256

    b1 : ℕ
    b1 = w / 256 ^ 2 % 256

    b2 : ℕ
    b2 = w / 256 ^ 1 % 256

    b3 : ℕ
    b3 = w / 256 ^ 0 % 256

read_nil : (acc : ℕ) → read_after acc [] ≡ acc
unfolding read_after
read_nil acc = refl

-- What a number of cells can hold.
abbrev pub FitsCells : (n x : ℕ) → Type 0
FitsCells n x = x < 2 ^ (32 * n)

read_cells-cells : (n x : ℕ) → one_or_two n ≡ true → FitsCells n x → read_cells (cells n x) ≡ x
unfolding cells
read_cells-cells zero x few fits = absurd (cc)
read_cells-cells (suc zero) x few fits =
    read_after-word 0 (x / 1 % 2 ^ 32) [] (omega arith) (omega arith) ∙ (read_nil _ ∙ omega arith)
read_cells-cells (suc (suc zero)) x few fits =
    read_after-word 0 (x / 2 ^ 32 % 2 ^ 32) (to_be 4 (x / 1 % 2 ^ 32) ++ []) (omega arith)
      (omega arith)
    ∙ (read_after-word (0 * 2 ^ 32 + x / 2 ^ 32 % 2 ^ 32) (x / 1 % 2 ^ 32) [] (omega arith)
          (omega arith)
        ∙ (read_nil _ ∙ omega arith))
read_cells-cells (suc (suc (suc n))) x few fits = absurd (ground arith)

length-cells : (n x : ℕ) → length (cells n x) ≡ n * 4
unfolding cells to_be
length-cells zero x = refl
length-cells (suc n) x = omega (arith, length-cells n x)

pub prefix-update :
    {A : Type 0} (f : ℕ → A) (n m : ℕ) (v : A) → m ≤ n → prefix (update f n v) m ≡ prefix f m
unfolding prefix
prefix-update f n zero v h = refl
prefix-update f n (suc m) v h = rw (prefix-update f n m v (omega arith), other) refl
  where
    other : (m == n) ≡ false
    other = ground arith

pub prefix-put :
    {A : Type 0} (f : ℕ → A) (n : ℕ) (v : A)
    → prefix (update f n v) (suc n) ≡ prefix f n ++ (v ∷ [])
unfolding prefix
prefix-put f n v = rw (prefix-update f n n v (omega arith), same) refl
  where
    same : (n == n) ≡ true
    same = ground arith

-- What has been put ends with what the entries stand for.
abbrev pub Filled : (rs : Regions) → (entries : List (ℕ × ℕ)) → Outcome Regions → Type 0
Filled rs es o =
    (rs' : Regions) × (o ≡ ok rs') × (prefix rs'.0 rs'.1 ≡ prefix rs.0 rs.1 ++ expected es)

module _ (addr_cells size_cells : ℕ) where
  abbrev chunk : (b s : ℕ) → List ℕ
  chunk b s = cells addr_cells b ++ cells size_cells s

  abbrev entry_size : ℕ
  entry_size = (addr_cells + size_cells) * 4

  length-chunk : (b s : ℕ) → length (chunk b s) ≡ entry_size
  length-chunk b s = omega (
    arith,
    length-append (cells addr_cells b) (cells size_cells s),
    length-cells addr_cells b,
    length-cells size_cells s,
  )

  take-chunk : (b s : ℕ) (rest : List ℕ) → take entry_size (chunk b s ++ rest) ≡ chunk b s
  take-chunk b s rest = rw (sym (length-chunk b s)) (take-append (chunk b s) rest)

  drop-chunk : (b s : ℕ) (rest : List ℕ) → drop entry_size (chunk b s ++ rest) ≡ rest
  drop-chunk b s rest = rw (sym (length-chunk b s)) (drop-append (chunk b s) rest)

  length-reg : (es : List (ℕ × ℕ)) → length (reg es addr_cells size_cells) ≡ length es * entry_size
  unfolding reg
  length-reg [] = omega arith
  length-reg ((b, s) ∷ es) =
      let here = length-append (chunk b s) (reg es addr_cells size_cells) in
      let size = length-chunk b s in let rest = length-reg es in grind arith

  -- The words of an entry, within its cells and within the address space.
  abbrev pub FitsEntry : ℕ × ℕ → Type 0
  FitsEntry (b, s) = FitsCells addr_cells b × FitsCells size_cells s × (b + s < word_size)

  module _ (few : (one_or_two addr_cells && one_or_two size_cells) ≡ true) (len : ℕ) where
    few_addr : one_or_two addr_cells ≡ true
    few_addr = ground arith

    few_size : one_or_two size_cells ≡ true
    few_size = ground arith

    read_base :
        (b s : ℕ) → FitsCells addr_cells b → read_cells (take (addr_cells * 4) (chunk b s)) ≡ b
    read_base b s fits =
        rw (sym (length-cells addr_cells b), take-append (cells addr_cells b) (cells size_cells s))
          (read_cells-cells addr_cells b few_addr fits)

    read_size :
        (b s : ℕ) → FitsCells size_cells s → read_cells (drop (addr_cells * 4) (chunk b s)) ≡ s
    read_size b s fits =
        rw (sym (length-cells addr_cells b), drop-append (cells addr_cells b) (cells size_cells s))
          (read_cells-cells size_cells s few_size fits)

    reg_entry-empty :
        (b s : ℕ) (rs : Regions)
        → FitsEntry (b, s)
        → (s == 0) ≡ true
        → reg_entry len (addr_cells * 4) (chunk b s) rs ≡ ok rs
    unfolding reg_entry
    reg_entry-empty b s (out, count) fits empty = rw (read_size b s fits.1, empty) refl

    reg_entry-full :
        (b s : ℕ) (out : ℕ → MemRegion) (count : ℕ)
        → FitsEntry (b, s)
        → (s == 0) ≡ false
        → count < len
        → reg_entry len (addr_cells * 4) (chunk b s) (out, count)
          ≡ ok (update out count (record { base = b; size = s }), suc count)
    unfolding reg_entry
    reg_entry-full b s out count fits full room =
        rw (read_size b s fits.1, read_base b s fits.0, full, in_range, not_full, room_left) refl
      where
        in_range : ltb (b + s) word_size ≡ true
        in_range = ground arith

        not_full : (count == len) ≡ false
        not_full = ground arith

        room_left : ltb count len ≡ true
        room_left = ground arith

    reg_loop-nil : (rs : Regions) → reg_loop len (addr_cells * 4) entry_size 0 [] rs ≡ ok rs
    unfolding reg_loop
    reg_loop-nil rs = refl

    reg_loop-step :
        (b s n : ℕ) (rest : List ℕ) (rs rs' : Regions)
        → reg_entry len (addr_cells * 4) (chunk b s) rs ≡ ok rs'
        → reg_loop len (addr_cells * 4) entry_size (suc n) (chunk b s ++ rest) rs
          ≡ reg_loop len (addr_cells * 4) entry_size n rest rs'
    unfolding reg_loop
    reg_loop-step b s n rest rs rs' e = rw (take-chunk b s rest, drop-chunk b s rest, e) refl

    reg_loop-reg :
        (es : List (ℕ × ℕ)) (out : ℕ → MemRegion) (count : ℕ)
        → All FitsEntry es
        → count + length (expected es) ≤ len
        → Filled
            (out, count)
            es
            (reg_loop len
              (addr_cells * 4)
              entry_size
              (length es)
              (reg es addr_cells size_cells)
              (out, count))
    unfolding reg expected
    reg_loop-reg [] out count fits room =
        ((out, count), reg_loop-nil (out, count), sym (append-nil _))
    reg_loop-reg ((b, s) ∷ es) out count (fit, fits) room = elim (Bool-cases (s == 0)) [
      | inl empty ↦
          let rest = reg_loop-reg es out count fits (ground arith) in
          rw
            (
              reg_loop-step b s (length es) (reg es addr_cells size_cells) (out, count) (out, count)
                  (reg_entry-empty b s (out, count) fit empty),
              empty,
            )
            rest
      | inr full ↦
          let r : MemRegion = record { base = b; size = s } in
          let (rs', e, p) = reg_loop-reg es (update out count r) (suc count) fits (ground arith) in
          rw
            (
              reg_loop-step b s (length es) (reg es addr_cells size_cells) (out, count)
                  (update out count r, suc count)
                  (reg_entry-full b s out count fit full (ground arith)),
              full,
            )
            (
              rs',
              e,
              p
                  ∙ (ap (λ t. t ++ expected es) (prefix-put out count r)
                      ∙ append_assoc (prefix out count) (r ∷ []) (expected es)),
            )
    ]

    -- A `reg` property that `reg` of the builder has written is read as it was meant: with one or two cells each, with entries that fit into
    -- their cells and into the address space, and with room for those of some size, parse_reg succeeds and
    -- appends those, in order, to what is there.
    pub parse_reg-reg :
        (es : List (ℕ × ℕ)) (out : ℕ → MemRegion) (count : ℕ)
        → 0 < length es
        → All FitsEntry es
        → count + length (expected es) ≤ len
        → Filled
            (out, count)
            es
            (parse_reg (reg es addr_cells size_cells) addr_cells size_cells len (out, count))
    unfolding parse_reg
    parse_reg-reg es out count some_entry fits room =
        rw (few_lem, length-reg es, not_empty, whole, rounds) (reg_loop-reg es out count fits room)
      where
        few_lem : (not (one_or_two addr_cells) || not (one_or_two size_cells)) ≡ false
        few_lem = ground arith

        some_size : 0 < entry_size
        some_size = ground arith

        product : 0 < length es * entry_size
        product = omega (arith, mul-pos some_entry some_size)

        not_empty : (length es * entry_size == 0) ≡ false
        not_empty = ground (arith, product)

        whole : (length es * entry_size % entry_size == 0) ≡ true
        whole = ground (arith, mul-mod_left (length es) entry_size)

        rounds : length es * entry_size / entry_size ≡ length es
        rounds = mul-div_cancel (length es) some_size

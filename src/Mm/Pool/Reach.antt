-- ===== src/Mm/Pool/Reach.antt =====
-- crates/k0-mm/src/paging.rs: where a mapping at the alias of the kernel can lie.
use k.Base.{
  ℕ, zero, suc, ◌+◌, ◌-◌, ◌*◌, ◌/◌, ◌%◌, ◌^◌, ◌≤◌, ◌<◌, ◌≡◌, refl, arith, Bool, true, false, ◌&&◌,
  ◌||◌, not, ltb, leb, ◌==◌, Bool-cases, ◌⊎◌, inl, inr, Result, ok, err,
}
use k.Base.Words.{word_size}
use k.Abi.{kernel_va_offset}
use k.Mm.{Platform, virt, apple, granule, MmuError, not_enabled, misaligned}
use k.Mm.Pool.{
  Perm, rw, attrs, Pool, Mapped, all_mapped, refused, panic, and_more, of_result, map_page,
  map_pages, map_range, map_alias, map_kernel_window,
}

-- The first address that has no alias.
abbrev pub alias_end : ℕ
alias_end = 2 ^ 48

next_aligned :
    (p : Platform) (a : ℕ)
    → a % granule p ≡ 0
    → a < word_size
    → (a + granule p ≤ word_size) × ((a + granule p) % granule p ≡ 0)
next_aligned virt a h small = (omega arith, omega arith)
next_aligned apple a h small = (omega arith, omega arith)

whole_granules : (p : Platform) (len : ℕ) → len % granule p ≡ 0 → len / granule p * granule p ≡ len
whole_granules virt len h = omega arith
whole_granules apple len h = omega arith

wider : (p : Platform) (n : ℕ) → 0 < suc n * granule p
wider virt n = omega arith
wider apple n = omega arith

moved_on : (a g n : ℕ) → (a + g) + n * g ≡ a + suc n * g
moved_on a g n = grind arith

-- A sequence of mappings panics in its first part or in its second one.
and_more_panic :
    {A : Type 0} (first : Pool × Mapped (Unit {0})) (rest : Pool → Pool × Mapped A)
    → (and_more first rest).1 ≡ panic
    → (first.1 ≡ panic) ⊎ ((pool : Pool) × ((rest pool).1 ≡ panic))
and_more_panic (pool, all_mapped u) rest h = inr (pool, h)
and_more_panic (pool, refused e) rest h = absurd (cc)
and_more_panic (pool, panic) rest h = inl refl

and_more_mapped :
    (first : Pool × Mapped (Unit {0})) (rest : Pool → Pool × Mapped (Unit {0}))
    → (and_more first rest).1 ≡ all_mapped tt
    → (pool : Pool) × ((rest pool).1 ≡ all_mapped tt)
and_more_mapped (pool, all_mapped u) rest h = (pool, h)
and_more_mapped (pool, refused e) rest h = absurd (cc)
and_more_mapped (pool, panic) rest h = absurd (cc)

of_result_sound : (r : Pool × Result MmuError (Unit {0})) → (of_result r).1 ≡ panic → ⊥
of_result_sound (pool, ok u) h = absurd (cc)
of_result_sound (pool, err e) h = absurd (cc)

over_either :
    (va pa : ℕ)
    → (ltb va word_size && ltb pa word_size) ≡ false
    → (word_size ≤ va) ⊎ (word_size ≤ pa)
over_either va pa over = elim (Bool-cases (ltb va word_size)) [
  | inl small ↦ inr (ground arith)
  | inr big ↦ inl (ground arith)
]

module _ (p : Platform) (base root : ℕ) where
  beyond :
      (va pa n : ℕ)
      → (word_size ≤ va) ⊎ (word_size ≤ pa)
      → (word_size < va + suc n * granule p) ⊎ (word_size < pa + suc n * granule p)
  beyond va pa n (inl v) = inl (omega (arith, v, wider p n))
  beyond va pa n (inr w) = inr (omega (arith, w, wider p n))

  module _ (attributes : ℕ) where
    map_pages_panic :
        (n va pa : ℕ) (pool : Pool)
        → (map_pages p base root attributes n va pa pool).1 ≡ panic
        → (word_size < va + n * granule p) ⊎ (word_size < pa + n * granule p)
    unfolding map_pages
    map_pages_panic zero va pa pool h = absurd (cc)
    map_pages_panic (suc n) va pa pool h =
        by_fit (λ pool k. map_pages_panic n (va + granule p) (pa + granule p) pool k)
          (ltb va word_size && ltb pa word_size) refl h
      where
        by_fit :
            ((pool : Pool)
              → (map_pages p base root attributes n (va + granule p) (pa + granule p) pool).1
                ≡ panic
              → (word_size < va + granule p + n * granule p)
                ⊎ (word_size < pa + granule p + n * granule p))
            → (b : Bool) → (ltb va word_size && ltb pa word_size) ≡ b
            → (elim b as (λ _. Pool × Mapped (Unit {0})) [
              | false ↦ (pool, panic)
              | true ↦
                  and_more
                    (of_result (map_page p base pool root va pa attributes))
                    (map_pages p base root attributes n (va + granule p) (pa + granule p))
            ]).1
              ≡ panic
            → (word_size < va + suc n * granule p) ⊎ (word_size < pa + suc n * granule p)
        by_fit again true fits h = elim (and_more_panic _ _ h) [
          | inl first ↦ absurd (of_result_sound (map_page p base pool root va pa attributes) first)
          | inr (pool', later) ↦ elim (again pool' later) [
            | inl v ↦ inl (omega (arith, v, moved_on va (granule p) n))
            | inr w ↦ inr (omega (arith, w, moved_on pa (granule p) n))
          ]
        ]
        by_fit again false over h = beyond va pa n (over_either va pa over)

    map_pages_mapped :
        (n va pa : ℕ) (pool : Pool)
        → va % granule p ≡ 0
        → va ≤ word_size
        → (map_pages p base root attributes n va pa pool).1 ≡ all_mapped tt
        → va + n * granule p ≤ word_size
    unfolding map_pages
    map_pages_mapped zero va pa pool aligned small h = omega arith
    map_pages_mapped (suc n) va pa pool aligned small h =
        by_fit (λ pool a t k. map_pages_mapped n (va + granule p) (pa + granule p) pool a t k)
          (ltb va word_size && ltb pa word_size) refl h
      where
        by_fit :
            ((pool : Pool)
              → (va + granule p) % granule p ≡ 0
              → va + granule p ≤ word_size
              → (map_pages p base root attributes n (va + granule p) (pa + granule p) pool).1
                ≡ all_mapped tt
              → va + granule p + n * granule p ≤ word_size)
            → (b : Bool) → (ltb va word_size && ltb pa word_size) ≡ b
            → (elim b as (λ _. Pool × Mapped (Unit {0})) [
              | false ↦ (pool, panic)
              | true ↦
                  and_more
                    (of_result (map_page p base pool root va pa attributes))
                    (map_pages p base root attributes n (va + granule p) (pa + granule p))
            ]).1
              ≡ all_mapped tt
            → va + suc n * granule p ≤ word_size
        by_fit ih false over h = absurd (cc)
        by_fit ih true fits h =
            let (pool', later) =
              and_more_mapped (of_result (map_page p base pool root va pa attributes))
                (map_pages p base root attributes n (va + granule p) (pa + granule p)) h in
            let (top, again) = next_aligned p va aligned (ground arith) in
            omega (arith, moved_on va (granule p) n, ih pool' again top later)

  -- A range panics only if it reaches past the last word.
  map_range_panic :
      (pool : Pool) (va pa len : ℕ) (perm : Perm)
      → (map_range p base pool root va pa len perm).1 ≡ panic
      → (word_size < va + len) ⊎ (word_size < pa + len)
  unfolding map_range
  map_range_panic pool va pa len perm h =
      elim (Bool-cases
        (not (va % granule p == 0) || (not (pa % granule p == 0) || not (len % granule p == 0)))) [
          | inl uneven ↦ absurd (ground (arith, h))
          | inr even ↦
              let whole = whole_granules p len (ground arith) in
              elim (map_pages_panic (attrs perm) (len / granule p) va pa pool (ground (arith, h))) [
                | inl v ↦ inl (omega (arith, v, whole))
                | inr w ↦ inr (omega (arith, w, whole))
              ]
        ]

  map_range_mapped :
      (pool : Pool) (va pa len : ℕ) (perm : Perm)
      → va ≤ word_size
      → (map_range p base pool root va pa len perm).1 ≡ all_mapped tt
      → va + len ≤ word_size
  unfolding map_range
  map_range_mapped pool va pa len perm small h =
      elim (Bool-cases
        (not (va % granule p == 0) || (not (pa % granule p == 0) || not (len % granule p == 0)))) [
          | inl uneven ↦ absurd (ground (arith, h))
          | inr even ↦
              let whole = whole_granules p len (ground arith) in
              omega (
                arith,
                whole,
                map_pages_mapped (attrs perm) (len / granule p) va pa pool (ground arith) small
                    (ground (arith, h)),
              )
        ]

  -- A range at the alias panics only if it reaches past 2 ^ 48.
  map_alias_panic :
      (pool : Pool) (start len : ℕ) (perm : Perm)
      → 0 < len
      → (map_alias p base pool root start len perm).1 ≡ panic
      → alias_end < start + len
  unfolding map_alias
  map_alias_panic pool start len perm some_len h =
      elim (Bool-cases (ltb (start + kernel_va_offset) word_size)) [
        | inr over ↦ ground arith
        | inl fits ↦
            elim (map_range_panic pool (start + kernel_va_offset) start len perm
              (ground (arith, h))) [ inl v ↦ omega arith | inr w ↦ omega arith ]
      ]

  map_alias_mapped :
      (pool : Pool) (start len : ℕ) (perm : Perm)
      → (map_alias p base pool root start len perm).1 ≡ all_mapped tt
      → start + len ≤ alias_end
  unfolding map_alias
  map_alias_mapped pool start len perm h =
      elim (Bool-cases (ltb (start + kernel_va_offset) word_size)) [
        | inr over ↦ absurd (ground (arith, h))
        | inl fits ↦
            let top =
              map_range_mapped pool (start + kernel_va_offset) start len perm (ground arith)
                (ground (arith, h)) in
            omega (arith, top)
      ]

module _ (p : Platform) (base : ℕ) (pool : Pool) (start end : ℕ) where
  window_cases :
      (r : Mapped (Unit {0}))
      → (map_kernel_window p base pool start end).1 ≡ r
      → ((e : MmuError) × (r ≡ refused e))
        ⊎ ((start < end) × ((map_alias p base pool pool.root1 start (end - start) rw).1 ≡ r))
  unfolding map_kernel_window
  window_cases r h =
      let bad = leb end start || (not (start % granule p == 0) || not (end % granule p == 0)) in
      elim (Bool-cases bad) [
        | inl uneven ↦ inl (misaligned, ground (arith, h))
        | inr even ↦ elim (Bool-cases pool.enabled) [
          | inr off ↦ inl (not_enabled, ground (arith, h))
          | inl on ↦ inr (ground arith, ground (arith, h))
        ]
      ]

  -- The window of the kernel panics only if it reaches past 2 ^ 48.
  pub map_kernel_window_panic :
      (map_kernel_window p base pool start end).1 ≡ panic → alias_end < end
  map_kernel_window_panic h = elim (window_cases panic h) [
    | inl (e, refuses) ↦ absurd (cc)
    | inr (room, alias) ↦
        omega
          (arith, map_alias_panic p base pool.root1 pool start (end - start) rw (omega arith) alias)
  ]

  -- And when it is mapped it ends below.
  pub map_kernel_window_mapped :
      (map_kernel_window p base pool start end).1 ≡ all_mapped tt → end ≤ alias_end
  map_kernel_window_mapped h = elim (window_cases (all_mapped tt) h) [
    | inl (e, refuses) ↦ absurd (cc)
    | inr (room, alias) ↦
        omega (arith, map_alias_mapped p base pool.root1 pool start (end - start) rw alias)
  ]

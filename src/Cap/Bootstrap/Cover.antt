-- ===== src/Cap/Bootstrap/Cover.antt =====
-- `populate` and `bootstrap`: the untypeds are the memory map without the reserved regions.
use k.Base.{
  ℕ, suc, ◌<◌, ◌≡◌, refl, subst, ◌↔◌, ◌⊎◌, inl, inr, arith, true, false, Bool-cases, some, List, [],
  ◌∷◌, ◌++◌, Result, ok, err, >>=-eq-ok, length,
}
use k.Base.Words.{word_size}
use k.Cap.{
  PhysRegion, end, CNode, Cap, CapError, push, new_cnode, empty, root_tcb, addr_space, console,
}
use k.Cap.Apart.{IsApart, Claims, IsSized}
use k.Cap.Bootstrap.{
  push_untypeds, push_all, push_fixed, check_memory, is_bad, overlaps_any, bootstrap,
}
use k.Cap.Bootstrap.Adds.{Claimed, Adds, Adds-none, Adds-trans, push-Adds}
use k.Cap.Bootstrap.Next.{Inside, InAny}
use k.Cap.Bootstrap.Total.{push_untypeds_total}
use k.Cap.Bootstrap.Fill.{fill-Adds, Free}

InAny-append :
    (k : ℕ) (rs : List PhysRegion) (m : PhysRegion)
    → InAny (rs ++ (m ∷ [])) k ↔ (InAny rs k ⊎ Inside m k)
InAny-append k [] m = (
  λ h. elim h [ inl i ↦ inr i | inr e ↦ absurd e ],
  λ h. elim h [ inl e ↦ absurd e | inr i ↦ inl i ],
)
InAny-append k (r ∷ rs) m = (
  λ h. elim h [
    | inl i ↦ inl (inl i)
    | inr j ↦ elim ((InAny-append k rs m).0 j) [ inl a ↦ inl (inr a) | inr i ↦ inr i ]
  ],
  λ h. elim h [
    | inl (inl i) ↦ inl i
    | inl (inr a) ↦ inr ((InAny-append k rs m).1 (inl a))
    | inr i ↦ inr ((InAny-append k rs m).1 (inr i))
  ],
)

-- What the first loop of `populate` has checked.
abbrev Checked : List PhysRegion → List PhysRegion → Type 0
Checked before [] = Unit
Checked before (m ∷ ms) =
    (end m < word_size)
    × ((k : ℕ) → Inside m k → ¬ InAny before k)
    × Checked (before ++ (m ∷ [])) ms

overlaps_any_sound :
    (m : PhysRegion) (os : List PhysRegion) (k : ℕ)
    → overlaps_any m os ≡ false
    → Inside m k
    → ¬ InAny os k
overlaps_any_sound m [] k h i j = j
overlaps_any_sound m (o ∷ os) k h i (inl j) = ground arith
overlaps_any_sound m (o ∷ os) k h i (inr j) = overlaps_any_sound m os k (ground arith) i j

check_memory-Checked :
    (before ms : List PhysRegion) → check_memory before ms ≡ true → Checked before ms
unfolding check_memory
check_memory-Checked before [] h = tt
check_memory-Checked before (m ∷ ms) h = elim (Bool-cases (is_bad m)) [
  | inl bad ↦ absurd (ground arith)
  | inr good ↦ elim (Bool-cases (overlaps_any m before)) [
    | inl meets ↦ absurd (ground arith)
    | inr apart ↦ (
      ground arith,
      λ k i. overlaps_any_sound m before k apart i,
      check_memory-Checked (before ++ (m ∷ [])) ms (ground arith),
    )
  ]
]

module _ (g : ℕ) (reserved : List PhysRegion) where
  push_untypeds-Adds :
      (cn mid : CNode) (m : PhysRegion)
      → IsApart g cn
      → end m < word_size
      → ((k : ℕ) → Inside m k → ¬ Claimed g cn k)
      → push_untypeds cn m reserved ≡ some (ok mid)
      → Adds g cn (Free reserved m.base (end m)) mid
  unfolding push_untypeds
  push_untypeds-Adds cn mid m a small clear h =
      fill-Adds g reserved (end m) small (suc (length reserved)) cn m.base mid a
        (λ k lo hi. clear k (lo, hi)) h

  push_all-Adds :
      (cn : CNode) (before ms : List PhysRegion) {cn' : CNode}
      → IsApart g cn
      → ((k : ℕ) → Claimed g cn k → InAny before k)
      → Checked before ms
      → push_all (ok cn) ms reserved ≡ some (ok cn')
      → Adds g cn (λ k. InAny ms k × ¬ InAny reserved k) cn'
  unfolding push_all
  push_all-Adds cn before [] {cn'} a within checked h =
      subst (Adds g cn (λ k. InAny [] k × ¬ InAny reserved k))
        (let e : cn ≡ cn' = ground arith in e) (Adds-none a (λ k p. p.0))
  push_all-Adds cn before (m ∷ ms) {cn'} a within (small, apart, checked) h =
      by_first (push_untypeds_total cn m reserved)
        (λ mid a' w e. push_all-Adds mid (before ++ (m ∷ [])) ms a' w checked e)
    where
      by_first :
          (res : Result CapError CNode) × (push_untypeds cn m reserved ≡ some res)
          → ((mid : CNode)
              → IsApart g mid
              → ((k : ℕ) → Claimed g mid k → InAny (before ++ (m ∷ [])) k)
              → push_all (ok mid) ms reserved ≡ some (ok cn')
              → Adds g mid (λ k. InAny ms k × ¬ InAny reserved k) cn')
          → Adds g cn (λ k. InAny (m ∷ ms) k × ¬ InAny reserved k) cn'
      by_first (err x, e) ih = absurd (ground (arith, e))
      by_first (ok mid, e) ih =
          let first : Adds g cn (Free reserved m.base (end m)) mid =
            push_untypeds-Adds cn mid m a small (λ k i c. apart k i (within k c)) e in
          Adds-trans first
            (ih mid first.sound
              (λ k c. (InAny-append k before m).1 (elim (first.only k c) [
                | inl old ↦ inl (within k old)
                | inr (lo, hi, out) ↦ inr (lo, hi)
              ]))
              (ground (arith, e)))
            (λ k. (
              λ p. elim p.0 [ inl i ↦ inl (i.0, i.1, p.1) | inr j ↦ inr (j, p.1) ],
              λ p. elim p [ inl (lo, hi, out) ↦ (inl (lo, hi), out) | inr (j, out) ↦ (inr j, out) ],
            ))

module _ (g : ℕ) where
  nothing-Claimed : (k : ℕ) → ¬ Claimed g new_cnode k
  unfolding new_cnode
  nothing-Claimed k (i, lt, c) = elim lt [ ]

  new_cnode-IsApart : IsApart g new_cnode
  unfolding new_cnode
  new_cnode-IsApart = record {
    capacity = omega arith;
    sized = λ i lt. elim lt [ ];
    separate = λ i j k lt. elim lt [ ];
  }

  -- One more capability that claims no memory.
  push_void :
      {cn cn' : CNode} (c : Cap)
      → Adds g new_cnode (λ k. ⊥) cn
      → IsSized c
      → ((k : ℕ) → ¬ Claims g c k)
      → push cn c ≡ ok cn'
      → Adds g new_cnode (λ k. ⊥) cn'
  push_void {cn} c before sized void h =
      Adds-trans before (push-Adds g cn c h before.sound sized (λ k claim. absurd (void k claim)))
        (λ k. (λ e. absurd e, λ e. elim e [ inl e ↦ e | inr claim ↦ void k claim ]))

  -- The capabilities of slots 0 to 3 claim no memory.
  push_fixed-Adds :
      (root_pa : ℕ) {cn : CNode}
      → push_fixed new_cnode root_pa ≡ ok cn
      → Adds g new_cnode (λ k. ⊥) cn
  unfolding push_fixed
  push_fixed-Adds root_pa h =
      let (c₀, e₀, h₀) = >>=-eq-ok (push new_cnode empty) _ h in
      let (c₁, e₁, h₁) = >>=-eq-ok (push c₀ root_tcb) _ h₀ in
      let (c₂, e₂, e₃) = >>=-eq-ok (push c₁ (addr_space root_pa)) _ h₁ in
      push_void console
        (push_void (addr_space root_pa)
          (push_void root_tcb
            (push_void empty (Adds-none new_cnode-IsApart (λ k e. e)) tt (λ k e. e) e₀) tt
            (λ k e. e) e₁)
          tt (λ k e. e) e₂)
        tt (λ k e. e) e₃

  -- After a successful bootstrap a byte is claimed exactly when the memory map has it and no
  -- reserved region does, and no byte is claimed by two slots.
  pub bootstrap-cover :
      (memory reserved : List PhysRegion) (root_pa : ℕ) {cn : CNode}
      → bootstrap memory reserved root_pa ≡ some (ok cn)
      → IsApart g cn × ((k : ℕ) → Claimed g cn k ↔ (InAny memory k × ¬ InAny reserved k))
  unfolding bootstrap
  bootstrap-cover memory reserved root_pa {cn} h = elim (Bool-cases (check_memory [] memory)) [
    | inr bad ↦ absurd (ground arith)
    | inl good ↦ by_fixed (push_fixed new_cnode root_pa) refl good
  ]
    where
      by_fixed :
          (f : Result CapError CNode)
          → push_fixed new_cnode root_pa ≡ f
          → check_memory [] memory ≡ true
          → IsApart g cn × ((k : ℕ) → Claimed g cn k ↔ (InAny memory k × ¬ InAny reserved k))
      by_fixed (err e) fixed good = absurd (ground arith)
      by_fixed (ok first) fixed good =
          let start : Adds g new_cnode (λ k. ⊥) first = push_fixed-Adds root_pa fixed in
          let nothing : (k : ℕ) → ¬ Claimed g first k =
            λ k c. elim (start.only k c) [ inl c ↦ nothing-Claimed k c | inr e ↦ e ] in
          let filled : Adds g first (λ k. InAny memory k × ¬ InAny reserved k) cn =
            push_all-Adds g reserved first [] memory start.sound (λ k c. nothing k c)
              (check_memory-Checked [] memory good) (ground arith) in
          (
            filled.sound,
            λ k. (
              λ c. elim (filled.only k c) [ inl old ↦ absurd (nothing k old) | inr p ↦ p ],
              λ p. filled.added k p,
            ),
          )

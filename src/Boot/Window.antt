-- ===== src/Boot/Window.antt =====
-- kernel/src/main.rs: the boot window that `pick_window` finds is free memory.
use k.Base.{
  ℕ, zero, suc, ◌+◌, ◌≤◌, ◌≡◌, ◌⊎◌, refl, sym, subst, ◌∙◌, arith, Bool, true, false, ◌&&◌, ltb, leb,
  List, [], ◌∷◌, Option, none, some, Bool-cases, Option-cases, inl, inr,
}
use k.Base.Words.{checked_add}
use k.Cap.{PhysRegion, end}
use k.Mm.{Platform}
use k.Boot.{
  hits_bank, check_memory_map, window_size, align_up, bump, step_over, and_on, pass_over, fits_bank,
  next_bank, align_next, and_again, settle_on, seek, seek_from, pick_window,
}

-- The window from `start` to `top` touches none of the regions.
abbrev pub IsClear : (start top : ℕ) → List PhysRegion → Type 0
IsClear start top [] = Unit
IsClear start top (r ∷ rs) = ((end r ≤ start) ⊎ (top ≤ r.base)) × IsClear start top rs

-- One of the banks holds the window.
abbrev pub IsInBank : (start top : ℕ) → List PhysRegion → Type 0
IsInBank start top [] = ⊥
IsInBank start top (m ∷ ms) = ((m.base ≤ start) × (top ≤ end m)) ⊎ IsInBank start top ms

fits_bank-IsInBank :
    (start top : ℕ) (ms : List PhysRegion) → fits_bank start top ms ≡ true → IsInBank start top ms
fits_bank-IsInBank start top [] h = absurd (ground arith)
fits_bank-IsInBank start top (m ∷ ms) h = elim (Bool-cases (leb m.base start && leb top (end m))) [
  | inl here ↦ inl (ground arith, ground arith)
  | inr there ↦ inr (fits_bank-IsInBank start top ms (ground arith))
]

module _ (p : Platform) (top : ℕ) where
  -- One obstacle: the start moves, or the window is clear of it.
  step_over-still :
      (r : PhysRegion) (o : Option ℕ) (start s : ℕ) (b b' : Bool)
      → checked_add r.base r.size ≡ o
      → step_over p top r.base o (start, b) ≡ some (s, b')
      → (b' ≡ true) ⊎ ((b' ≡ b) × (s ≡ start) × ((end r ≤ start) ⊎ (top ≤ r.base)))
  step_over-still r none start s b b' e h = absurd (ground arith)
  step_over-still r (some r_end) start s b b' e h =
      elim (Bool-cases (ltb start r_end && ltb r.base top)) [
        | inl hit ↦ inl (bumped (align_up p r_end) (ground arith))
        | inr clear ↦
            let at : r_end ≡ end r = ground arith in
            inr (
              ground arith,
              ground arith,
              elim (Bool-cases (ltb start r_end)) [
                | inl over ↦ inr (ground arith)
                | inr below ↦ inl (ground arith)
              ],
            )
      ]
    where
      bumped : (up : Option ℕ) → bump start up ≡ some (s, b') → b' ≡ true
      bumped none h = absurd (ground arith)
      bumped (some u) h = ground arith

  pass_over-still :
      (rs : List PhysRegion) (start s : ℕ) (b : Bool)
      → pass_over p top rs (start, b) ≡ some (s, false)
      → (b ≡ false) × (s ≡ start) × IsClear start top rs
  unfolding pass_over
  pass_over-still [] start s b h = (ground arith, ground arith, tt)
  pass_over-still (r ∷ rs) start s b h =
      first (step_over p top r.base (checked_add r.base r.size) (start, b)) refl h
        (λ s' b' k. pass_over-still rs s' s b' k)
    where
      first :
          (o : Option (ℕ × Bool))
          → step_over p top r.base (checked_add r.base r.size) (start, b) ≡ o
          → and_on o (pass_over p top rs) ≡ some (s, false)
          → ((s' : ℕ) (b' : Bool)
              → pass_over p top rs (s', b') ≡ some (s, false)
              → (b' ≡ false) × (s ≡ s') × IsClear s' top rs)
          → (b ≡ false) × (s ≡ start) × IsClear start top (r ∷ rs)
      first none e h rest = absurd (ground arith)
      first (some (s', b')) e h rest =
          let (still, same, clear) = rest s' b' h in
          elim (step_over-still r (checked_add r.base r.size) start s' b b' refl e) [
            | inl moved ↦ absurd (ground arith)
            | inr (unmoved, stays, apart) ↦
                (ground arith, ground arith, (apart, subst (λ q. IsClear q top rs) stays clear))
          ]

-- What `pick_window` promises of the window.
pub record IsWindow (obstacles memory : List PhysRegion) (start top : ℕ) : Type 0 where
  pub size : top ≡ start + window_size
  pub clear : IsClear start top obstacles
  pub in_bank : IsInBank start top memory

module _ (p : Platform) (obstacles memory : List PhysRegion) where
  settled :
      (start top s t : ℕ) (again : ℕ → Option (ℕ × ℕ)) (o : Option (ℕ × Bool))
      → top ≡ start + window_size
      → pass_over p top obstacles (start, false) ≡ o
      → ((n : ℕ) → again n ≡ some (s, t) → IsWindow obstacles memory s t)
      → settle_on p memory top again o ≡ some (s, t)
      → IsWindow obstacles memory s t
  settled start top s t again none size e rest h = absurd (ground arith)
  settled start top s t again (some (n, true)) size e rest h = rest n h
  settled start top s t again (some (n, false)) size e rest h =
      elim (Bool-cases (fits_bank n top memory)) [
        | inl fits ↦
            let (_, same, clear) = pass_over-still p top obstacles start n false e in
            let at : n ≡ s = ground arith in
            let to : top ≡ t = ground arith in
            record {
              size = ground arith;
              clear =
                  subst (λ q. IsClear q t obstacles) (sym same ∙ at)
                    (subst (λ q. IsClear start q obstacles) to clear);
              in_bank =
                  subst (λ q. IsInBank q t memory) at
                    (subst (λ q. IsInBank n q memory) to (fits_bank-IsInBank n top memory fits));
            }
        | inr no_room ↦ onward (align_next p (next_bank n memory)) (ground arith)
      ]
    where
      onward : (o : Option ℕ) → and_again again o ≡ some (s, t) → IsWindow obstacles memory s t
      onward none h = absurd (ground arith)
      onward (some m) h = rest m h

  seek-IsWindow :
      (rounds start s t : ℕ)
      → seek p obstacles memory rounds start ≡ some (s, t)
      → IsWindow obstacles memory s t
  unfolding seek
  seek-IsWindow zero start s t h = absurd (ground arith)
  seek-IsWindow (suc rounds) start s t h = elim (Option-cases (checked_add start window_size)) [
    | inl big ↦ absurd (ground arith)
    | inr (top, e) ↦
        settled start top s t (seek p obstacles memory rounds)
          (pass_over p top obstacles (start, false)) (ground arith) refl
          (λ n k. seek-IsWindow rounds n s t k) (ground arith)
  ]

-- `pick_window`: a window that is found has the right size, lies in one bank of the memory map, and
-- touches neither the device tree nor a region that the firmware reserves.
pub pick_window-IsWindow :
    (p : Platform) (dtb : PhysRegion) (reserved memory : List PhysRegion) (kernel_end s t : ℕ)
    → pick_window p dtb reserved memory kernel_end ≡ some (s, t)
    → IsWindow (dtb ∷ reserved) memory s t
unfolding pick_window
pick_window-IsWindow p dtb reserved memory kernel_end s t h = from (align_up p kernel_end) h
  where
    from :
        (o : Option ℕ)
        → seek_from p (dtb ∷ reserved) memory o ≡ some (s, t)
        → IsWindow (dtb ∷ reserved) memory s t
    from none h = absurd (ground arith)
    from (some start) h = seek-IsWindow p (dtb ∷ reserved) memory 64 start s t h

-- No bank of the memory map reaches into a device window; a window that is empty counts for nothing.
abbrev pub IsOffDevices : (devices : List (ℕ × ℕ)) → List PhysRegion → Type 0
IsOffDevices [] memory = Unit
IsOffDevices ((from, to) ∷ devices) memory =
    (leb to from ≡ false → IsClear from to memory) × IsOffDevices devices memory

hits_bank-IsClear :
    (from to : ℕ) (ms : List PhysRegion) → hits_bank (from, to) ms ≡ false → IsClear from to ms
hits_bank-IsClear from to [] h = tt
hits_bank-IsClear from to (m ∷ ms) h = (
  elim (Bool-cases (ltb m.base to)) [
    | inl below ↦ inl (ground arith)
    | inr above ↦ inr (ground arith)
  ],
  hits_bank-IsClear from to ms (ground arith),
)

-- `check_memory_map`: when the kernel goes on, no memory bank overlaps a device window that is not empty.
pub check_memory_map-IsOffDevices :
    (devices : List (ℕ × ℕ)) (memory : List PhysRegion)
    → check_memory_map devices memory ≡ true
    → IsOffDevices devices memory
unfolding check_memory_map
check_memory_map-IsOffDevices [] memory h = tt
check_memory_map-IsOffDevices ((from, to) ∷ devices) memory h = elim (Bool-cases (leb to from)) [
  | inl empty ↦
      (λ open_. absurd (ground arith), check_memory_map-IsOffDevices devices memory (ground arith))
  | inr wide ↦ elim (Bool-cases (hits_bank (from, to) memory)) [
    | inl hit ↦ absurd (ground arith)
    | inr off ↦ (
      λ _. hits_bank-IsClear from to memory off,
      check_memory_map-IsOffDevices devices memory (ground arith),
    )
  ]
]

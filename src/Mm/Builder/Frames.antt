-- ===== src/Mm/Builder/Frames.antt =====
-- The frames that FrameAlloc hands out.
use k.Base.{ℕ, ◌+◌, ◌*◌, ◌≤◌, ◌<◌, ◌≡◌, refl, arith, ltb, ◌==◌, ok, Bool-cases, inl, inr}
use k.Base.Words.{word_size}
use k.Mm.{Platform, granule, Memory}
use k.Mm.Builder.{FrameAlloc, alloc_contig}

-- The frames from `base` on are new and inside the window, all zero, and the rest of the memory is
-- untouched.
pub record Fresh (fa : FrameAlloc) (mem : Memory) (len base : ℕ) (fa' : FrameAlloc) (mem' : Memory)
    : Type 0 where
  pub first : base ≡ fa.next
  pub next : fa'.next ≡ base + len
  pub inside : base + len ≤ fa.end
  pub same_window : (fa'.start ≡ fa.start) × (fa'.end ≡ fa.end)
  pub zero : (a : ℕ) → base ≤ a → a < base + len → mem' a ≡ 0
  pub below : (a : ℕ) → a < base → mem' a ≡ mem a
  pub above : (a : ℕ) → base + len ≤ a → mem' a ≡ mem a

module _ (p : Platform) (fa : FrameAlloc) (mem : Memory) (n base : ℕ) where
  -- `alloc_contig`: an allocation that succeeds gives the next `n` frames of the window, cleared, and
  -- no later allocation can give them again; everything else in the memory stays.
  pub alloc_contig-Fresh :
      (alloc_contig p fa mem n).2 ≡ ok base
      → Fresh fa mem (n * granule p) base (alloc_contig p fa mem n).0 (alloc_contig p fa mem n).1
  unfolding alloc_contig
  alloc_contig-Fresh h = elim (Bool-cases (ltb (n * granule p) word_size)) [
    | inr big ↦ absurd (ground arith)
    | inl small ↦ elim (Bool-cases (n * granule p == 0)) [
      | inl empty ↦ absurd (ground arith)
      | inr some_len ↦ elim (Bool-cases (ltb (fa.next + n * granule p) word_size)) [
        | inr wraps ↦ absurd (ground arith)
        | inl fits ↦ elim (Bool-cases (ltb fa.end (fa.next + n * granule p))) [
          | inl over ↦ absurd (ground arith)
          | inr within ↦
              rw (small, some_len, fits, within)
                record {
                  first = ground arith;
                  next = ground arith;
                  inside = ground arith;
                  same_window = (refl, refl);
                  zero = λ a lo hi. ground arith;
                  below = λ a lo. ground arith;
                  above = λ a hi. ground arith;
                }
        ]
      ]
    ]
  ]

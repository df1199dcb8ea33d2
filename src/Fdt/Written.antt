-- ===== src/Fdt/Written.antt =====
-- crates/k0-boot/src/fdt.rs and fdt/builder.rs: the memreserve block that the builder has written.
use k.Base.{
  length, ℕ, zero, suc, ◌+◌, ◌*◌, ◌^◌, ◌<◌, ◌≡◌, refl, sym, ap, ◌∙◌, subst, arith, ◌&&◌, ◌==◌,
  if◌then◌else◌, List, [], ◌∷◌, ◌++◌, some, length-append, All,
}
use mathlib.Core.List.{append_assoc}
use k.Base.Words.{word_size, checked_add}
use k.Base.Bytes.{to_be}
use k.Fdt.{BootInfo, Outcome, ok, ◌>>=◌, add}
use k.Fdt.Reg.{push_reserved, rsv_loop}
use k.Fdt.Builder.{rsv_bytes}
use k.Fdt.At.{At, At-step, At-length, be64-At, length-to_be}
use k.Fdt.Calls.Loop.{>>=-cong}

-- What the memreserve block means: the entries up to the first of two zeros, but for those of size 0.
unfoldable pub reserve_entries : List (ℕ × ℕ) → BootInfo → Outcome BootInfo
reserve_entries [] info = ok info
reserve_entries ((base, size) ∷ es) info =
    if base == 0 && size == 0
    then ok info
    else if size == 0
    then reserve_entries es info
    else push_reserved info base size >>= reserve_entries es

abbrev pub AreWords : ℕ × ℕ → Type 0
AreWords (base, size) = (base < word_size) × (size < word_size)

pub length-rsv_bytes : (es : List (ℕ × ℕ)) → length (rsv_bytes es) ≡ 16 * length es
unfolding rsv_bytes
length-rsv_bytes [] = refl
length-rsv_bytes ((b, s) ∷ es) = omega (
  arith,
  length-append (to_be 8 b) (to_be 8 s ++ rsv_bytes es),
  length-append (to_be 8 s) (rsv_bytes es),
  length-to_be 8 b,
  length-to_be 8 s,
  length-rsv_bytes es,
)

module _ (blob : List ℕ) (small : length blob < 2 ^ 63) where
  -- The two words of an entry, and the offset behind them.
  rsv-entry :
      (fuel off base size : ℕ) (rest : List ℕ) (info : BootInfo)
      → AreWords (base, size)
      → At blob off (to_be 8 base ++ (to_be 8 size ++ rest))
      → rsv_loop (suc fuel) blob off info ≡ (
          if base == 0 && size == 0
          then ok info
          else if size == 0
          then rsv_loop fuel blob (off + 16) info
          else (push_reserved info base size >>= rsv_loop fuel blob (off + 16)))
  unfolding rsv_loop
  rsv-entry fuel off base size rest info (fits_base, fits_size) at =
      rw
        (
          be64-At blob small off base (to_be 8 size ++ rest) fits_base at,
          sum,
          be64-At blob small (off + 8) size rest fits_size at_size,
          next,
        )
        refl
    where
      at_size : At blob (off + 8) (to_be 8 size ++ rest)
      at_size =
          subst (λ t. At blob (off + t) (to_be 8 size ++ rest)) (length-to_be 8 base)
            (At-step blob off (to_be 8 base) (to_be 8 size ++ rest) at)

      total : off + length (to_be 8 base ++ (to_be 8 size ++ rest)) ≡ length blob
      total =
          At-length blob off _ at (
            omega (arith, length-append (to_be 8 base) (to_be 8 size ++ rest), length-to_be 8 base))

      sum : add off 8 ≡ ok (off + 8)
      sum = ground (arith, total)

      next : checked_add off 16 ≡ some (off + 16)
      next = ground (arith, total)

  At-entry :
      (off base size : ℕ) (rest : List ℕ)
      → At blob off (to_be 8 base ++ (to_be 8 size ++ rest))
      → At blob (off + 16) rest
  At-entry off base size rest at =
      subst (λ t. At blob t rest)
        (omega (
          arith,
          length-append (to_be 8 base) (to_be 8 size),
          length-to_be 8 base,
          length-to_be 8 size,
        ))
        (At-step blob off (to_be 8 base ++ to_be 8 size) rest
          (at ∙ sym (append_assoc (to_be 8 base) (to_be 8 size) rest)))

  pub rsv_loop-At :
      (es : List (ℕ × ℕ)) (fuel off : ℕ) (rest : List ℕ) (info : BootInfo)
      → All AreWords es
      → At blob off (rsv_bytes es ++ ((to_be 8 0 ++ to_be 8 0) ++ rest))
      → length es < fuel
      → rsv_loop fuel blob off info ≡ reserve_entries es info
  unfolding reserve_entries rsv_bytes
  rsv_loop-At [] zero off rest info fits at enough = absurd (omega arith)
  rsv_loop-At [] (suc fuel) off rest info fits at enough =
      rsv-entry fuel off 0 0 rest info (omega arith, omega arith)
        (at ∙ append_assoc (to_be 8 0) (to_be 8 0) rest)
  rsv_loop-At ((b, s) ∷ es) zero off rest info fits at enough = absurd (omega arith)
  rsv_loop-At ((b, s) ∷ es) (suc fuel) off rest info (fit, fits) at enough =
      rsv-entry fuel off b s tail info fit at_here
      ∙ rw
          (
            rsv_loop-At es fuel (off + 16) rest info fits (At-entry off b s tail at_here)
                (omega (arith, enough)),
            >>=-cong (push_reserved info b s) _ _ (λ i.
                rsv_loop-At es fuel (off + 16) rest i fits (At-entry off b s tail at_here)
                  (omega (arith, enough))),
          )
          refl
    where
      tail : List ℕ
      tail = rsv_bytes es ++ ((to_be 8 0 ++ to_be 8 0) ++ rest)

      at_here : At blob off (to_be 8 b ++ (to_be 8 s ++ tail))
      at_here =
          at
          ∙ (append_assoc (to_be 8 b) (to_be 8 s ++ rsv_bytes es) _
              ∙ ap (λ t. to_be 8 b ++ t) (append_assoc (to_be 8 s) (rsv_bytes es) _))

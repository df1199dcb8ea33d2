-- ===== src/Fdt/Names.antt =====
-- crates/k0-boot/src/fdt.rs and fdt/builder.rs: names of properties, put into the strings block and found there.
use k.Base.{
  length, ℕ, ◌+◌, ◌^◌, ◌<◌, ◌≡◌, refl, sym, ap, ◌∙◌, subst, arith, true, false, ◌==◌, List, [], ◌∷◌,
  ◌++◌, Option, none, some, length-append, Bool-cases, inl, inr,
}
use mathlib.Core.List.{append_assoc, append-nil}
use k.Base.Words.{checked_add}
use k.Base.Bytes.{bytes_eq, drop}
use k.Fdt.{ok, add, index_range, below}
use k.Fdt.Tree.{Layout, prop_name}
use k.Fdt.Builder.{Builder, seek_name, with_name, string_offset}
use k.Fdt.At.{At, At-step, At-length, index_range-At, NoZero, find_zero-name}

bytes_eq-eq : (xs ys : List ℕ) → bytes_eq xs ys ≡ true → xs ≡ ys
unfolding bytes_eq
bytes_eq-eq [] [] h = refl
bytes_eq-eq [] (y ∷ ys) h = absurd (cc)
bytes_eq-eq (x ∷ xs) [] h = absurd (cc)
bytes_eq-eq (x ∷ xs) (y ∷ ys) h = ground (arith, bytes_eq-eq xs ys)

-- The name stands at `off`, with a 0 behind it.
abbrev pub HoldsName : (strings : List ℕ) → (off : ℕ) → (name : List ℕ) → Type 0
HoldsName strings off name =
    (pre : List ℕ) × (post : List ℕ) × (strings ≡ pre ++ (name ++ (0 ∷ post))) × (off ≡ length pre)

-- Nothing, or a 0 at the end.
abbrev pub IsClosed : List ℕ → Type 0
IsClosed [] = Unit
IsClosed (b ∷ []) = b ≡ 0
IsClosed (b ∷ (c ∷ cs)) = IsClosed (c ∷ cs)

abbrev ClosedFrom : (word rest : List ℕ) → Type 0
ClosedFrom word [] = word ≡ []
ClosedFrom word (b ∷ bs) = IsClosed (b ∷ bs)

seek_name-HoldsName :
    (name rest word : List ℕ) (off : ℕ) (pre : List ℕ) {o : ℕ}
    → off ≡ length pre
    → ClosedFrom word rest
    → seek_name name rest word off ≡ some o
    → HoldsName (pre ++ (word ++ rest)) o name
unfolding seek_name
seek_name-HoldsName name [] word off pre at closed h = absurd (ground (arith, closed))
seek_name-HoldsName name (b ∷ bs) word off pre {o} at closed h = elim (Bool-cases (b == 0)) [
  | inl zero_byte ↦ elim (Bool-cases (bytes_eq word name)) [
    | inl same ↦
        let here : off ≡ o = ground arith in
        (
          pre,
          bs,
          rw (sym (bytes_eq-eq word name same))
              (ap (λ t. pre ++ (word ++ (t ∷ bs))) (ground arith)),
          sym here ∙ at,
        )
    | inr other ↦
        let next : seek_name name bs [] (off + length word + 1) ≡ some o = ground arith in
        let (pre', post, e, l) =
          seek_name-HoldsName name bs [] (off + length word + 1) (pre ++ (word ++ (b ∷ [])))
            (omega (arith, at, length-append pre (word ++ (b ∷ [])), length-append word (b ∷ [])))
            (closed_next b bs zero_byte closed) next in
        (pre', post, regroup pre word b bs ∙ e, l)
  ]
  | inr letter ↦
      let more : seek_name name bs (word ++ (b ∷ [])) off ≡ some o = ground arith in
      let (pre', post, e, l) =
        seek_name-HoldsName name bs (word ++ (b ∷ [])) off pre at
          (closed_more (word ++ (b ∷ [])) b bs letter closed) more in
      (pre', post, ap (λ t. pre ++ t) (sym (append_assoc word (b ∷ []) bs)) ∙ e, l)
]
  where
    regroup :
        (pre word : List ℕ) (b : ℕ) (bs : List ℕ)
        → pre ++ (word ++ (b ∷ bs)) ≡ (pre ++ (word ++ (b ∷ []))) ++ ([] ++ bs)
    regroup pre word b bs =
        ap (λ t. pre ++ t) (sym (append_assoc word (b ∷ []) bs))
        ∙ sym (append_assoc pre (word ++ (b ∷ [])) bs)

    closed_next : (b : ℕ) (bs : List ℕ) → (b == 0) ≡ true → IsClosed (b ∷ bs) → ClosedFrom [] bs
    closed_next b [] z c = refl
    closed_next b (x ∷ xs) z c = c

    closed_more :
        (word : List ℕ) (b : ℕ) (bs : List ℕ)
        → (b == 0) ≡ false
        → IsClosed (b ∷ bs)
        → ClosedFrom word bs
    closed_more word b [] z c = absurd (ground arith)
    closed_more word b (x ∷ xs) z c = c

IsClosed-end : (xs : List ℕ) → IsClosed (xs ++ (0 ∷ []))
IsClosed-end [] = refl
IsClosed-end (x ∷ []) = refl
IsClosed-end (x ∷ (y ∷ ys)) = IsClosed-end (y ∷ ys)

abbrev pub Extends : List ℕ → List ℕ → Type 0
Extends xs ys = (zs : List ℕ) × (ys ≡ xs ++ zs)

pub Extends-refl : (xs : List ℕ) → Extends xs xs
Extends-refl xs = ([], sym (append-nil xs))

pub Extends-trans : (xs ys zs : List ℕ) → Extends xs ys → Extends ys zs → Extends xs zs
Extends-trans xs ys zs (a, p) (b, q) = (a ++ b, q ∙ (ap (λ t. t ++ b) p ∙ append_assoc xs a b))

pub HoldsName-Extends :
    (xs ys : List ℕ) (off : ℕ) (name : List ℕ)
    → HoldsName xs off name
    → Extends xs ys
    → HoldsName ys off name
HoldsName-Extends xs ys off name (pre, post, e, l) (zs, p) = (
  pre,
  post ++ zs,
  p
      ∙ (ap (λ t. t ++ zs) e
          ∙ (append_assoc pre (name ++ (0 ∷ post)) zs
              ∙ ap (λ t. pre ++ t) (append_assoc name (0 ∷ post) zs))),
  l,
)

abbrev pub SameHeader : Builder → Builder → Type 0
SameHeader b b' =
    (b'.rsvmap ≡ b.rsvmap)
    × (b'.version ≡ b.version)
    × (b'.last_comp_version ≡ b.last_comp_version)
    × (b'.terminate ≡ b.terminate)

-- What string_offset answers.
abbrev pub Named : Builder → (name : List ℕ) → Builder × ℕ → Type 0
Named b name (b', off) =
    (b'.structure ≡ b.structure)
    × SameHeader b b'
    × IsClosed b'.strings
    × Extends b.strings b'.strings
    × HoldsName b'.strings off name

pub string_offset-Named :
    (name : List ℕ) (b : Builder) → IsClosed b.strings → Named b name (string_offset name b)
unfolding string_offset
string_offset-Named name b closed =
    by_seek (seek_name name b.strings [] 0)
      (λ o e. seek_name-HoldsName name b.strings [] 0 [] refl (start b.strings closed) e)
  where
    start : (xs : List ℕ) → IsClosed xs → ClosedFrom [] xs
    start [] c = refl
    start (x ∷ xs) c = c

    by_seek :
        (found : Option ℕ)
        → ((o : ℕ) → found ≡ some o → HoldsName b.strings o name)
        → Named b name (with_name name b found)
    by_seek (some o) h = (refl, (refl, refl, refl, refl), closed, Extends-refl b.strings, h o refl)
    by_seek none h = (
      refl,
      (refl, refl, refl, refl),
      subst IsClosed (append_assoc b.strings name (0 ∷ [])) (IsClosed-end (b.strings ++ name)),
      (name ++ (0 ∷ []), refl),
      (b.strings, [], refl, refl),
    )

-- A name that stands in the strings block is found.
pub prop_name-At :
    (l : Layout) (strings : List ℕ) (off : ℕ) (name : List ℕ)
    → length l.blob < 2 ^ 63
    → At l.blob l.off_strings strings
    → l.strings_end ≡ l.off_strings + length strings
    → NoZero name
    → HoldsName strings off name
    → prop_name l off ≡ ok name
unfolding prop_name
prop_name-At l strings off name small at last letters (pre, post, e, o) =
    rw (start_lem, rest_lem, find_zero-name name post letters, sum_lem) name_lem
  where
    tail : List ℕ
    tail = name ++ (0 ∷ post)

    start : ℕ
    start = l.off_strings + off

    at_name : At l.blob start tail
    at_name =
        ap (λ t. drop t l.blob) {x = start} {y = l.off_strings + length pre} (omega (arith, o))
        ∙ At-step l.blob l.off_strings pre tail (at ∙ e)

    some_byte : 0 < length tail
    some_byte = omega (arith, length-append name (0 ∷ post))

    total : start + length tail ≡ length l.blob
    total = At-length l.blob start tail at_name some_byte

    lengths : length strings ≡ length pre + length tail
    lengths = ap length e ∙ length-append pre tail

    start_lem : below l.strings_end (checked_add l.off_strings off) ≡ some start
    start_lem = ground (arith, total, lengths, some_byte)

    rest_lem : index_range l.blob start l.strings_end ≡ ok tail
    rest_lem =
        ap (index_range l.blob start) {y = start + length tail} (omega (arith, lengths, o, last))
        ∙ index_range-At l.blob start tail [] (at_name ∙ sym (append-nil tail))
            (omega (arith, length-append tail [], some_byte))

    sum_lem : add start (length name) ≡ ok (start + length name)
    sum_lem = ground (arith, total, length-append name (0 ∷ post))

    name_lem : index_range l.blob start (start + length name) ≡ ok name
    name_lem = index_range-At l.blob start name (0 ∷ post) at_name some_byte

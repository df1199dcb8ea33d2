-- ===== src/Fdt/Calls/Steps.antt =====
-- crates/k0-boot/src/fdt.rs: one round of the loop over the tokens, where the bytes of a call stand.
use k.Base.{
  length, ℕ, ◌+◌, ◌-◌, ◌%◌, ◌^◌, ◌<◌, ◌≡◌, refl, sym, ap, ◌∙◌, subst, arith, List, [], ◌∷◌, ◌++◌,
  some, length-append,
}
use mathlib.Core.List.{append_assoc}
use k.Base.Words.{word_size, checked_add}
use k.Base.Bytes.{to_be, get_range, find_zero}
use k.Fdt.{Outcome, ok, err, panic, unfinished, ◌>>=◌, add, be32, index_range, align4, at_most}
use k.Fdt.Tree.{
  Layout, Walk, begin_node, end_node, prop_name, prop, step, begin_token, end_node_token,
  prop_token, nop_token,
}
use k.Fdt.Builder.{padding}
use k.Fdt.Board.{Call, begin_call, end_call, nop_call, prop_call}
use k.Fdt.At.{
  At, At-step, At-length, get_range-At, index_range-At, be32-At, NoZero, find_zero-name,
  length-to_be,
}
use k.Fdt.Names.{HoldsName, prop_name-At}
use k.Fdt.Calls.{run_call, IsCall, bytes_of, HoldsCall, length-zeros}

pub >>=-assoc :
    {A B C : Type 0} (m : Outcome A) (f : A → Outcome B) (g : B → Outcome C)
    → ((m >>= f) >>= g) ≡ (m >>= (λ a. f a >>= g))
>>=-assoc (ok a) f g = refl
>>=-assoc (err e) f g = refl
>>=-assoc panic f g = refl
>>=-assoc unfinished f g = refl

align4-at : (v n : ℕ) → v + 3 < word_size → n ≡ v + 3 - (v + 3) % 4 → align4 v ≡ ok n
unfolding align4
align4-at v n h e = rw (sum_lem, e) refl
  where
    sum_lem : checked_add v 3 ≡ some (v + 3)
    sum_lem = ground arith

-- The token of a call.
abbrev pub token_of : Call → ℕ
token_of (begin_call name) = begin_token
token_of end_call = end_node_token
token_of nop_call = nop_token
token_of (prop_call name value) = prop_token

-- Values are shorter than 4 GiB.
abbrev pub IsShort : Call → Type 0
IsShort (begin_call name) = Unit
IsShort end_call = Unit
IsShort nop_call = Unit
IsShort (prop_call name value) = length value < 2 ^ 32

-- The bytes of the structure block from `off` on are `here` and `rest`, and then come the strings.
module _ (l : Layout) (strings : List ℕ) (small : length l.blob < 2 ^ 63)
    (at_strings : At l.blob l.off_strings strings)
    (end_strings : l.strings_end ≡ l.off_strings + length strings) where
  module _ (off : ℕ) (rest : List ℕ) (whole : off % 4 ≡ 0) (some_rest : 0 < length rest) where
    begin_node-At :
        (name : List ℕ) (w : Walk)
        → NoZero name
        → At l.blob off (((name ++ (0 ∷ [])) ++ padding (length name + 1)) ++ (rest ++ strings))
        → l.struct_end
          ≡ off + length ((name ++ (0 ∷ [])) ++ padding (length name + 1)) + length rest
        → begin_node l off w ≡ (
            run_call (begin_call name) w
            >>= (λ w'. ok (off + length ((name ++ (0 ∷ [])) ++ padding (length name + 1)), w')))
    unfolding begin_node run_call
    begin_node-At name w letters at last =
        simp (rest_lem, find_lem, sum_lem, name_lem, after_lem, align_lem, >>=-assoc)
      where
        block : List ℕ
        block = (name ++ (0 ∷ [])) ++ padding (length name + 1)

        tail : List ℕ
        tail = padding (length name + 1) ++ rest

        split : block ++ rest ≡ name ++ (0 ∷ tail)
        split = simp append_assoc

        some_byte : 0 < length (block ++ (rest ++ strings))
        some_byte = omega (
          arith,
          length-append block (rest ++ strings),
          length-append (name ++ (0 ∷ [])) (padding (length name + 1)),
          length-append name (0 ∷ []),
        )

        total : off + length (block ++ (rest ++ strings)) ≡ length l.blob
        total = At-length l.blob off (block ++ (rest ++ strings)) at some_byte

        lengths : length block ≡ length name + 1 + (4 - (length name + 1) % 4) % 4
        lengths = omega (
          arith,
          length-append (name ++ (0 ∷ [])) (padding (length name + 1)),
          length-append name (0 ∷ []),
          length-zeros ((4 - (length name + 1) % 4) % 4),
        )

        bound : off + length block + length rest < 2 ^ 63
        bound =
            omega (arith, total, length-append block (rest ++ strings), length-append rest strings)

        at_split : At l.blob off ((name ++ (0 ∷ tail)) ++ strings)
        at_split = at ∙ (sym (append_assoc block rest strings) ∙ ap (λ t. t ++ strings) split)

        rest_lem : get_range l.blob off l.struct_end ≡ some (name ++ (0 ∷ tail))
        rest_lem =
            ap (get_range l.blob off) {y = off + length (name ++ (0 ∷ tail))}
              (omega (arith, last, ap length split, length-append block rest))
            ∙ get_range-At l.blob off (name ++ (0 ∷ tail)) strings at_split (
                omega (
                  arith,
                  length-append (name ++ (0 ∷ tail)) strings,
                  length-append name (0 ∷ tail),
                ))

        find_lem : find_zero (name ++ (0 ∷ tail)) ≡ some (length name)
        find_lem = find_zero-name name tail letters

        sum_lem : add off (length name) ≡ ok (off + length name)
        sum_lem = ground (arith, bound, lengths)

        name_lem : index_range l.blob off (off + length name) ≡ ok name
        name_lem =
            index_range-At l.blob off name ((0 ∷ tail) ++ strings)
              (at_split ∙ append_assoc name (0 ∷ tail) strings)
              (omega (arith, length-append name ((0 ∷ tail) ++ strings)))

        after_lem : add (off + length name) 1 ≡ ok (off + length name + 1)
        after_lem = ground (arith, bound, lengths)

        align_lem : align4 (off + length name + 1) ≡ ok (off + length block)
        align_lem =
            align4-at (off + length name + 1) (off + length block) (omega (arith, bound, lengths))
              (omega (arith, lengths, whole))

    prop-At :
        (n : ℕ) (name value : List ℕ) (w : Walk)
        → n < 2 ^ 32
        → length value < 2 ^ 32
        → NoZero name
        → HoldsName strings n name
        → At l.blob off (
            (to_be 4 (length value) ++ (to_be 4 n ++ (value ++ padding (length value))))
            ++ (rest ++ strings))
        → l.struct_end
          ≡ off
            + length (to_be 4 (length value) ++ (to_be 4 n ++ (value ++ padding (length value))))
            + length rest
        → prop l off w ≡ (
            run_call (prop_call name value) w >>= (λ w'. ok (
              off
                  + length
                      (to_be 4 (length value) ++ (to_be 4 n ++ (value ++ padding (length value)))),
              w',
            )))
    unfolding prop run_call
    prop-At n name value w small_name small_value letters holds at last = simp (
      len_lem, second_lem, off_lem, start_lem, end_lem, name_lem, value_lem, align_lem, >>=-assoc,
    )
      where
        inner : List ℕ
        inner = value ++ padding (length value)

        block : List ℕ
        block = to_be 4 (length value) ++ (to_be 4 n ++ inner)

        lengths : length block ≡ 8 + (length value + (4 - length value % 4) % 4)
        lengths = omega (
          arith,
          length-append (to_be 4 (length value)) (to_be 4 n ++ inner),
          length-append (to_be 4 n) inner,
          length-append value (padding (length value)),
          length-zeros ((4 - length value % 4) % 4),
          length-to_be 4 (length value),
          length-to_be 4 n,
        )

        total : off + length (block ++ (rest ++ strings)) ≡ length l.blob
        total =
            At-length l.blob off (block ++ (rest ++ strings)) at
              (omega (arith, length-append block (rest ++ strings), lengths))

        bound : off + length block + length rest < 2 ^ 63
        bound =
            omega (arith, total, length-append block (rest ++ strings), length-append rest strings)

        at_len :
            At l.blob off (to_be 4 (length value) ++ ((to_be 4 n ++ inner) ++ (rest ++ strings)))
        at_len = at ∙ append_assoc (to_be 4 (length value)) (to_be 4 n ++ inner) (rest ++ strings)

        at_name : At l.blob (off + 4) (to_be 4 n ++ (inner ++ (rest ++ strings)))
        at_name =
            subst (λ t. At l.blob (off + t) ((to_be 4 n ++ inner) ++ (rest ++ strings)))
              (length-to_be 4 (length value))
              (At-step l.blob off (to_be 4 (length value))
                ((to_be 4 n ++ inner) ++ (rest ++ strings)) at_len)
            ∙ append_assoc (to_be 4 n) inner (rest ++ strings)

        at_value : At l.blob (off + 8) (value ++ (padding (length value) ++ (rest ++ strings)))
        at_value =
            subst (λ t. At l.blob t (inner ++ (rest ++ strings))) (omega (arith, length-to_be 4 n))
              (At-step l.blob (off + 4) (to_be 4 n) (inner ++ (rest ++ strings)) at_name)
            ∙ append_assoc value (padding (length value)) (rest ++ strings)

        len_lem : be32 l.blob off ≡ ok (length value)
        len_lem =
            be32-At l.blob small off (length value) ((to_be 4 n ++ inner) ++ (rest ++ strings))
              small_value at_len

        second_lem : add off 4 ≡ ok (off + 4)
        second_lem = ground (arith, bound)

        off_lem : be32 l.blob (off + 4) ≡ ok n
        off_lem = be32-At l.blob small (off + 4) n (inner ++ (rest ++ strings)) small_name at_name

        start_lem : add off 8 ≡ ok (off + 8)
        start_lem = ground (arith, bound)

        end_lem :
            at_most l.struct_end (checked_add (off + 8) (length value))
            ≡ some (off + 8 + length value)
        end_lem = ground (arith, bound, lengths, last)

        name_lem : prop_name l n ≡ ok name
        name_lem = prop_name-At l strings n name small at_strings end_strings letters holds

        value_lem : index_range l.blob (off + 8) (off + 8 + length value) ≡ ok value
        value_lem =
            index_range-At l.blob (off + 8) value (padding (length value) ++ (rest ++ strings))
              at_value
              (omega (
                arith,
                some_rest,
                length-append value (padding (length value) ++ (rest ++ strings)),
                length-append (padding (length value)) (rest ++ strings),
                length-append rest strings,
              ))

        align_lem : align4 (off + 8 + length value) ≡ ok (off + length block)
        align_lem =
            align4-at (off + 8 + length value) (off + length block) (omega (arith, bound, lengths))
              (omega (arith, lengths, whole))

  module _ (off n : ℕ) (rest : List ℕ) (whole : off % 4 ≡ 0) (some_rest : 0 < length rest)
      (small_name : n < 2 ^ 32) where
    -- The rest of a call, behind its token.
    tail_At :
        (t : ℕ) (block : List ℕ)
        → At l.blob off ((to_be 4 t ++ block) ++ (rest ++ strings))
        → At l.blob (off + 4) (block ++ (rest ++ strings))
    tail_At t block at =
        subst (λ k. At l.blob (off + k) (block ++ (rest ++ strings))) (length-to_be 4 t)
          (At-step l.blob off (to_be 4 t) (block ++ (rest ++ strings))
            (at ∙ append_assoc (to_be 4 t) block (rest ++ strings)))

    tail_length :
        (t : ℕ) (block : List ℕ) → off + length (to_be 4 t ++ block) ≡ off + 4 + length block
    tail_length t block = omega (arith, length-append (to_be 4 t) block, length-to_be 4 t)

    pub step-call :
        (c : Call) (w : Walk)
        → IsCall c
        → IsShort c
        → HoldsCall strings n c
        → At l.blob off (bytes_of n c ++ (rest ++ strings))
        → l.struct_end ≡ off + length (bytes_of n c) + length rest
        → step l (token_of c) (off + 4) w
          ≡ (run_call c w >>= (λ w'. ok (off + length (bytes_of n c), w')))
    unfolding step bytes_of run_call
    step-call (begin_call name) w letters short holds at last =
        let block = (name ++ (0 ∷ [])) ++ padding (length name + 1) in
        rw (tail_length begin_token block) (
          begin_node-At (off + 4) rest (omega (arith, whole)) some_rest name w letters
            (tail_At begin_token block at)
            (last ∙ ap (λ t. t + length rest) (tail_length begin_token block)))
    step-call end_call w letters short holds at last =
        ap (λ t. end_node w >>= (λ w'. ok (off + t, w'))) (sym (length-to_be 4 end_node_token))
    step-call nop_call w letters short holds at last =
        ap (λ t. ok (off + t, w)) (sym (length-to_be 4 nop_token))
    step-call (prop_call name value) w letters short holds at last =
        let block = to_be 4 (length value) ++ (to_be 4 n ++ (value ++ padding (length value))) in
        rw (tail_length prop_token block) (
          prop-At (off + 4) rest (omega (arith, whole)) some_rest n name value w small_name short
            letters holds (tail_At prop_token block at)
            (last ∙ ap (λ t. t + length rest) (tail_length prop_token block)))

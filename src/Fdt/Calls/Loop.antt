-- ===== src/Fdt/Calls/Loop.antt =====
-- crates/k0-boot/src/fdt.rs: the loop over the tokens of a tree that the builder has written.
use k.Base.{
  length, ℕ, zero, suc, ◌+◌, ◌%◌, ◌^◌, ◌≤◌, ◌<◌, ◌≡◌, refl, sym, ap, ◌∙◌, arith, false, leb, ◌==◌,
  if◌then◌else◌, List, [], ◌∷◌, ◌++◌, length-append, All,
}
use mathlib.Core.List.{append_assoc, append-nil}
use k.Base.Bytes.{to_be}
use k.Fdt.{Outcome, ok, err, panic, unfinished, ◌>>=◌, add}
use k.Fdt.Tree.{Layout, Walk, step, finish, walk, end_token, prop_token}
use k.Fdt.Builder.{Builder, padding}
use k.Fdt.Board.{Call, begin_call, end_call, nop_call, prop_call, perform, perform_all}
use k.Fdt.At.{At, At-step, be32-At, length-to_be}
use k.Fdt.Names.{Extends, Extends-refl, Extends-trans, HoldsName-Extends, SameHeader}
use k.Fdt.Calls.{
  run_call, run_calls, IsCall, bytes_of, name_at, HoldsCall, IsBetween, Performed,
  perform-Performed, length-bytes_of,
}
use k.Fdt.Calls.Steps.{>>=-assoc, token_of, IsShort, step-call}

pub >>=-cong :
    {A B : Type 0} (m : Outcome A) (f g : A → Outcome B)
    → ((a : A) → f a ≡ g a)
    → (m >>= f) ≡ (m >>= g)
>>=-cong (ok a) f g h = h a
>>=-cong (err e) f g h = refl
>>=-cong panic f g h = refl
>>=-cong unfinished f g h = refl

-- The bytes of calls, one behind the other.
pub all_bytes : List Call → Builder → List ℕ
all_bytes [] b = []
all_bytes (c ∷ cs) b = bytes_of (name_at c b) c ++ all_bytes cs (perform c b)

pub record AllPerformed (cs : List Call) (b b' : Builder) : Type 0 where
  pub structure : b'.structure ≡ b.structure ++ all_bytes cs b
  pub between : IsBetween b'
  pub strings : Extends b.strings b'.strings
  pub header : SameHeader b b'

pub perform_all-AllPerformed :
    (cs : List Call) (b : Builder) → IsBetween b → AllPerformed cs b (perform_all cs b)
unfolding perform_all all_bytes
perform_all-AllPerformed [] b h = record {
  structure = sym (append-nil b.structure);
  between = h;
  strings = Extends-refl b.strings;
  header = (refl, refl, refl, refl);
}
perform_all-AllPerformed (c ∷ cs) b h =
    let p = perform-Performed c b h in
    let q = perform_all-AllPerformed cs (perform c b) p.between in
    record {
      structure =
          q.structure
          ∙ (ap (λ t. t ++ all_bytes cs (perform c b)) p.structure
              ∙ append_assoc b.structure (bytes_of (name_at c b) c) (all_bytes cs (perform c b)));
      between = q.between;
      strings =
          Extends-trans b.strings (perform c b).strings (perform_all cs (perform c b)).strings
            p.strings q.strings;
      header = (
        q.header.0 ∙ p.header.0,
        q.header.1 ∙ p.header.1,
        q.header.2 ∙ p.header.2,
        q.header.3 ∙ p.header.3,
      );
    }

value-IsShort : (n : ℕ) (c : Call) → length (bytes_of n c) < 2 ^ 32 → IsShort c
unfolding bytes_of
value-IsShort n (begin_call name) h = tt
value-IsShort n end_call h = tt
value-IsShort n nop_call h = tt
value-IsShort n (prop_call name value) h = omega (
  arith,
  h,
  length-append (to_be 4 prop_token)
      (to_be 4 (length value) ++ (to_be 4 n ++ (value ++ padding (length value)))),
  length-append (to_be 4 (length value)) (to_be 4 n ++ (value ++ padding (length value))),
  length-append (to_be 4 n) (value ++ padding (length value)),
  length-append value (padding (length value)),
)

-- The values are no longer than the bytes of the calls.
pub all_bytes-IsShort :
    (cs : List Call) (b : Builder) → length (all_bytes cs b) < 2 ^ 32 → All IsShort cs
unfolding all_bytes
all_bytes-IsShort [] b h = tt
all_bytes-IsShort (c ∷ cs) b h =
    let l = length-append (bytes_of (name_at c b) c) (all_bytes cs (perform c b)) in
    (value-IsShort (name_at c b) c (omega arith), all_bytes-IsShort cs (perform c b) (omega arith))

HoldsCall-Extends :
    (xs ys : List ℕ) (n : ℕ) (c : Call) → HoldsCall xs n c → Extends xs ys → HoldsCall ys n c
HoldsCall-Extends xs ys n (begin_call name) h e = tt
HoldsCall-Extends xs ys n end_call h e = tt
HoldsCall-Extends xs ys n nop_call h e = tt
HoldsCall-Extends xs ys n (prop_call name value) h e = HoldsName-Extends xs ys n name h e

-- The offset of a name is below the length of the strings.
name_at-small :
    (c : Call) (b : Builder) (strings : List ℕ)
    → HoldsCall strings (name_at c b) c
    → length strings < 2 ^ 32
    → name_at c b < 2 ^ 32
name_at-small (begin_call name) b strings h small = omega arith
name_at-small end_call b strings h small = omega arith
name_at-small nop_call b strings h small = omega arith
name_at-small (prop_call name value) b strings (pre, post, e, o) small =
    omega (arith, o, ap length e, length-append pre (name ++ (0 ∷ post)))

token_of-other : (c : Call) → (token_of c == end_token) ≡ false
token_of-other (begin_call name) = refl
token_of-other end_call = refl
token_of-other nop_call = refl
token_of-other (prop_call name value) = refl

token_of-bytes :
    (n : ℕ) (c : Call) → (block : List ℕ) × (bytes_of n c ≡ to_be 4 (token_of c) ++ block)
unfolding bytes_of
token_of-bytes n (begin_call name) = (_, refl)
token_of-bytes n end_call = ([], sym (append-nil _))
token_of-bytes n nop_call = ([], sym (append-nil _))
token_of-bytes n (prop_call name value) = (_, refl)

token_of-small : (c : Call) → token_of c < 2 ^ 32
token_of-small (begin_call name) = omega arith
token_of-small end_call = omega arith
token_of-small nop_call = omega arith
token_of-small (prop_call name value) = omega arith

module _ (l : Layout) (strings : List ℕ) (small : length l.blob < 2 ^ 63)
    (small_strings : length strings < 2 ^ 32) (at_strings : At l.blob l.off_strings strings)
    (end_strings : l.strings_end ≡ l.off_strings + length strings) where
  -- One round, up to the work of its token.
  walk-token :
      (fuel off token : ℕ) (rest : List ℕ) (w : Walk)
      → token < 2 ^ 32
      → At l.blob off (to_be 4 token ++ rest)
      → off < l.struct_end
      → l.struct_end ≤ length l.blob
      → walk (suc fuel) l off w ≡ (
          if token == end_token
          then finish w
          else (step l token (off + 4) w >>= (λ (off', w'). walk fuel l off' w')))
  unfolding walk
  walk-token fuel off token rest w fits at below inside =
      rw (more, be32-At l.blob small off token rest fits at, next) refl
    where
      more : leb l.struct_end off ≡ false
      more = ground arith

      next : add off 4 ≡ ok (off + 4)
      next = ground arith

  walk-end :
      (fuel off : ℕ) (w : Walk)
      → At l.blob off (to_be 4 end_token ++ strings)
      → off < l.struct_end
      → l.struct_end ≤ length l.blob
      → l.struct_end < fuel + off
      → walk fuel l off w ≡ finish w
  walk-end zero off w at below inside enough = absurd (omega arith)
  walk-end (suc fuel) off w at below inside enough =
      walk-token fuel off end_token strings w (omega arith) at below inside

  -- One round, where a call stands.
  walk-call :
      (c : Call) (n fuel off : ℕ) (rest : List ℕ) (w : Walk)
      → off % 4 ≡ 0
      → 0 < length rest
      → n < 2 ^ 32
      → IsCall c
      → IsShort c
      → HoldsCall strings n c
      → At l.blob off (bytes_of n c ++ (rest ++ strings))
      → l.struct_end ≡ off + length (bytes_of n c) + length rest
      → l.struct_end ≤ length l.blob
      → walk (suc fuel) l off w
        ≡ (run_call c w >>= (λ w'. walk fuel l (off + length (bytes_of n c)) w'))
  walk-call c n fuel off rest w whole some_rest small_n is_call short holds at last inside =
      walk-token fuel off (token_of c) (block ++ (rest ++ strings)) w (token_of-small c) at_token
        (omega (arith, last, some_rest)) inside
      ∙ (rw
          (
            token_of-other c,
            step-call l strings small at_strings end_strings off n rest whole some_rest small_n c w
                is_call short holds at last,
          )
          (>>=-assoc (run_call c w) _ _))
    where
      block : List ℕ
      block = (token_of-bytes n c).0

      at_token : At l.blob off (to_be 4 (token_of c) ++ (block ++ (rest ++ strings)))
      at_token =
          at
          ∙ (ap (λ t. t ++ (rest ++ strings)) (token_of-bytes n c).1
              ∙ append_assoc (to_be 4 (token_of c)) block (rest ++ strings))

  -- The loop over the bytes of calls does what the calls mean, and then what follows the last token.
  pub walk-calls :
      (cs : List Call) (b : Builder) (fuel off : ℕ) (w : Walk)
      → IsBetween b
      → All IsCall cs
      → All IsShort cs
      → off % 4 ≡ 0
      → Extends (perform_all cs b).strings strings
      → At l.blob off ((all_bytes cs b ++ to_be 4 end_token) ++ strings)
      → l.struct_end ≡ off + length (all_bytes cs b ++ to_be 4 end_token)
      → l.struct_end ≤ length l.blob
      → l.struct_end < fuel + off
      → walk fuel l off w ≡ (run_calls cs w >>= finish)
  unfolding all_bytes run_calls perform_all
  walk-calls [] b fuel off w h calls shorts whole ext at last inside enough =
      walk-end fuel off w at (omega (arith, last, length-to_be 4 end_token)) inside enough
  walk-calls (c ∷ cs) b zero off w h calls shorts whole ext at last inside enough =
      absurd (omega (arith, last))
  walk-calls (c ∷ cs) b (suc fuel) off w h (is_call, calls) (short, shorts) whole ext at last inside
        enough =
      walk-call c n fuel off rest w whole some_rest (name_at-small c b strings holds small_strings)
        is_call short holds at_here last_here inside
      ∙ (>>=-cong (run_call c w) _ _ (λ w'.
            walk-calls cs b' fuel (off + length here) w' p.between calls shorts
              (omega (arith, whole, length-bytes_of n c)) ext
              (At-step l.blob off here (rest ++ strings) at_here) last_here inside
              (omega (arith, enough, some_here)))
          ∙ sym (>>=-assoc (run_call c w) (run_calls cs) finish))
    where
      n : ℕ
      n = name_at c b

      b' : Builder
      b' = perform c b

      here : List ℕ
      here = bytes_of n c

      rest : List ℕ
      rest = all_bytes cs b' ++ to_be 4 end_token

      some_here : 0 < length here
      some_here = omega (
        arith,
        ap length (token_of-bytes n c).1,
        length-append (to_be 4 (token_of c)) (token_of-bytes n c).0,
        length-to_be 4 (token_of c),
      )

      p : Performed b c b'
      p = perform-Performed c b h

      holds : HoldsCall strings n c
      holds = HoldsCall-Extends b'.strings strings n c p.named (
          Extends-trans b'.strings (perform_all cs b').strings strings
            (perform_all-AllPerformed cs b' p.between).strings ext)

      some_rest : 0 < length rest
      some_rest =
          omega
            (arith, length-append (all_bytes cs b') (to_be 4 end_token), length-to_be 4 end_token)

      at_here : At l.blob off (here ++ (rest ++ strings))
      at_here =
          at
          ∙ (ap (λ t. t ++ strings) (append_assoc here (all_bytes cs b') (to_be 4 end_token))
              ∙ append_assoc here rest strings)

      last_here : l.struct_end ≡ off + length here + length rest
      last_here = omega (
        arith,
        last,
        ap length (append_assoc here (all_bytes cs b') (to_be 4 end_token)),
        length-append here rest,
      )

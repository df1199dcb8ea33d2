-- ===== src/Fdt/Calls.antt =====
-- crates/k0-boot/src/fdt.rs: what a call of the builder means to the parser, and the bytes that it writes.
pub mod Steps
pub mod Loop
use k.Base.{
  length, ℕ, zero, suc, ◌+◌, ◌-◌, ◌*◌, ◌/◌, ◌%◌, ◌^◌, ◌≤◌, ◌<◌, ◌≡◌, refl, sym, ap, ◌∙◌, subst,
  arith, Bool, true, false, not, ◌&&◌, ltb, leb, ◌==◌, if◌then◌else◌, List, [], ◌∷◌, ◌++◌, Option,
  none, some, length-append,
}
use mathlib.Core.List.{append_assoc, append-nil}
use k.Base.Bytes.{to_be}
use k.Fdt.{max_depth, Outcome, ok, err, panic, unfinished, ◌>>=◌, refuse, too_deep, bad_structure}
use k.Fdt.Tree.{
  Layout, Walk, add_one, enter, end_node, use_prop, begin_token, end_node_token, prop_token,
  nop_token,
}
use k.Fdt.Builder.{
  Builder, raw, token, pad, padding, zeros, begin, end, nop, string_offset, prop_at, prop,
}
use k.Fdt.Board.{Call, begin_call, end_call, nop_call, prop_call, perform, perform_all}
use k.Fdt.At.{NoZero, length-to_be}
use k.Fdt.Names.{IsClosed, Extends, Extends-refl, HoldsName, string_offset-Named, Named, SameHeader}

-- The tree as the parser sees it, with no bytes: what each call does to the variables of the walk.
unfoldable pub run_call : Call → Walk → Outcome Walk
run_call (begin_call name) w = do
  depth ← add_one w.depth
  deep ← refuse (ltb max_depth depth) too_deep
  root ← refuse (depth == 1 && not (length name == 0)) bad_structure
  ok (enter depth name w)
run_call end_call w = end_node w
run_call nop_call w = ok w
run_call (prop_call name value) w = do
  outside ← refuse (w.depth == 0) bad_structure
  use_prop name value w

unfoldable pub run_calls : List Call → Walk → Outcome Walk
run_calls [] w = ok w
run_calls (c ∷ cs) w = run_call c w >>= run_calls cs

-- Names are texts, with no byte 0.
abbrev pub IsCall : Call → Type 0
IsCall (begin_call name) = NoZero name
IsCall end_call = Unit
IsCall nop_call = Unit
IsCall (prop_call name value) = NoZero name

-- The bytes of a call, for a property whose name is at `name_off`.
unfoldable pub bytes_of : (name_off : ℕ) → Call → List ℕ
bytes_of n (begin_call name) =
    to_be 4 begin_token ++ ((name ++ (0 ∷ [])) ++ padding (length name + 1))
bytes_of n end_call = to_be 4 end_node_token
bytes_of n nop_call = to_be 4 nop_token
bytes_of n (prop_call name value) =
    to_be 4 prop_token
    ++ (to_be 4 (length value) ++ (to_be 4 n ++ (value ++ padding (length value))))

abbrev pub name_at : Call → Builder → ℕ
name_at (begin_call name) b = 0
name_at end_call b = 0
name_at nop_call b = 0
name_at (prop_call name value) b = (string_offset name b).1

abbrev pub HoldsCall : (strings : List ℕ) → (name_off : ℕ) → Call → Type 0
HoldsCall strings n (begin_call name) = Unit
HoldsCall strings n end_call = Unit
HoldsCall strings n nop_call = Unit
HoldsCall strings n (prop_call name value) = HoldsName strings n name

pub length-zeros : (n : ℕ) → length (zeros n) ≡ n
unfolding zeros
length-zeros zero = refl
length-zeros (suc n) = omega (arith, length-zeros n)

pub length-bytes_of : (n : ℕ) (c : Call) → length (bytes_of n c) % 4 ≡ 0
unfolding bytes_of
length-bytes_of n (begin_call name) = omega (
  arith,
  length-append (to_be 4 begin_token) ((name ++ (0 ∷ [])) ++ padding (length name + 1)),
  length-to_be 4 begin_token,
  length-append (name ++ (0 ∷ [])) (padding (length name + 1)),
  length-append name (0 ∷ []),
  length-zeros ((4 - (length name + 1) % 4) % 4),
)
length-bytes_of n end_call = omega (arith, length-to_be 4 end_node_token)
length-bytes_of n nop_call = omega (arith, length-to_be 4 nop_token)
length-bytes_of n (prop_call name value) = omega (
  arith,
  length-append (to_be 4 prop_token)
      (to_be 4 (length value) ++ (to_be 4 n ++ (value ++ padding (length value)))),
  length-to_be 4 prop_token,
  length-append (to_be 4 (length value)) (to_be 4 n ++ (value ++ padding (length value))),
  length-to_be 4 (length value),
  length-append (to_be 4 n) (value ++ padding (length value)),
  length-to_be 4 n,
  length-append value (padding (length value)),
  length-zeros ((4 - length value % 4) % 4),
)

-- The builder between two calls.
pub record IsBetween (b : Builder) : Type 0 where
  pub whole : length b.structure % 4 ≡ 0
  pub closed : IsClosed b.strings

-- What a call does to the builder.
pub record Performed (b : Builder) (c : Call) (b' : Builder) : Type 0 where
  pub structure : b'.structure ≡ b.structure ++ bytes_of (name_at c b) c
  pub between : IsBetween b'
  pub strings : Extends b.strings b'.strings
  pub named : HoldsCall b'.strings (name_at c b) c
  pub header : SameHeader b b'

padding-mod : (m n : ℕ) → m % 4 ≡ n % 4 → padding m ≡ padding n
padding-mod m n h = ap (λ t. zeros ((4 - t) % 4)) h

whole-of :
    (old new : List ℕ) (n : ℕ) (c : Call)
    → length old % 4 ≡ 0
    → new ≡ old ++ bytes_of n c
    → length new % 4 ≡ 0
whole-of old new n c h e =
    omega (arith, h, ap length e, length-append old (bytes_of n c), length-bytes_of n c)

begin-structure :
    (name : List ℕ) (b : Builder)
    → length b.structure % 4 ≡ 0
    → (begin name b).structure ≡ b.structure ++ bytes_of 0 (begin_call name)
unfolding begin raw token pad bytes_of
begin-structure name b h =
    rw
      (padding-mod (length ((b.structure ++ to_be 4 begin_token) ++ (name ++ (0 ∷ []))))
        (length name + 1) same)
      (simp append_assoc)
  where
    same :
        length ((b.structure ++ to_be 4 begin_token) ++ (name ++ (0 ∷ []))) % 4
        ≡ (length name + 1) % 4
    same = omega (
      arith,
      h,
      length-append (b.structure ++ to_be 4 begin_token) (name ++ (0 ∷ [])),
      length-append b.structure (to_be 4 begin_token),
      length-to_be 4 begin_token,
      length-append name (0 ∷ []),
    )

prop_at-structure :
    (n : ℕ) (name value : List ℕ) (b : Builder)
    → length b.structure % 4 ≡ 0
    → (prop_at n value b).structure ≡ b.structure ++ bytes_of n (prop_call name value)
unfolding prop_at raw token pad bytes_of
prop_at-structure n name value b h =
    rw
      (padding-mod
        (length
          ((((b.structure ++ to_be 4 prop_token) ++ to_be 4 (length value)) ++ to_be 4 n) ++ value))
        (length value) same)
      (simp append_assoc)
  where
    same :
        length (
            (((b.structure ++ to_be 4 prop_token) ++ to_be 4 (length value)) ++ to_be 4 n) ++ value)
          % 4
        ≡ length value % 4
    same = omega (
      arith,
      h,
      length-append (((b.structure ++ to_be 4 prop_token) ++ to_be 4 (length value)) ++ to_be 4 n)
          value,
      length-append ((b.structure ++ to_be 4 prop_token) ++ to_be 4 (length value)) (to_be 4 n),
      length-append (b.structure ++ to_be 4 prop_token) (to_be 4 (length value)),
      length-append b.structure (to_be 4 prop_token),
      length-to_be 4 prop_token,
      length-to_be 4 n,
      length-to_be 4 (length value),
    )

-- A call that puts no name into the strings.
unnamed-Performed :
    (c : Call) (b b' : Builder)
    → IsBetween b
    → b'.structure ≡ b.structure ++ bytes_of (name_at c b) c
    → b'.strings ≡ b.strings
    → SameHeader b b'
    → HoldsCall b'.strings (name_at c b) c
    → Performed b c b'
unnamed-Performed c b b' h e s r n = record {
  structure = e;
  between = record {
    whole = whole-of b.structure b'.structure (name_at c b) c h.whole e;
    closed = rw s h.closed;
  };
  strings = rw s (Extends-refl b.strings);
  named = n;
  header = r;
}

prop-Performed :
    (name value : List ℕ) (b : Builder) (r : Builder × ℕ)
    → IsBetween b
    → r ≡ string_offset name b
    → Named b name r
    → Performed b (prop_call name value) (prop_at r.1 value r.0)
unfolding prop_at raw token pad
prop-Performed name value b (b', off) h same (structure, header, closed, extends, holds) =
    let e : (prop_at off value b').structure ≡ b.structure ++ bytes_of off (prop_call name value) =
      prop_at-structure off name value b' (omega (arith, h.whole, ap length structure))
      ∙ ap (λ t. t ++ bytes_of off (prop_call name value)) structure in
    let at : off ≡ (string_offset name b).1 = ap (λ t. t.1) same in
    record {
      structure = e ∙ ap (λ t. b.structure ++ bytes_of t (prop_call name value)) at;
      between = record {
        whole = whole-of b.structure _ off (prop_call name value) h.whole e;
        closed = closed;
      };
      strings = extends;
      named = subst (λ t. HoldsName b'.strings t name) at holds;
      header = header;
    }

pub perform-Performed : (c : Call) (b : Builder) → IsBetween b → Performed b c (perform c b)
unfolding perform begin end nop raw token pad bytes_of prop
perform-Performed (begin_call name) b h =
    unnamed-Performed (begin_call name) b (begin name b) h (begin-structure name b h.whole) refl
      (refl, refl, refl, refl) tt
perform-Performed end_call b h =
    unnamed-Performed end_call b (end b) h refl refl (refl, refl, refl, refl) tt
perform-Performed nop_call b h =
    unnamed-Performed nop_call b (nop b) h refl refl (refl, refl, refl, refl) tt
perform-Performed (prop_call name value) b h =
    prop-Performed name value b (string_offset name b) h refl (string_offset-Named name b h.closed)

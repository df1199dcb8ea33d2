-- ===== src/Fdt/Builder.antt =====
-- crates/k0-boot/src/fdt/builder.rs: the writer of device tree blobs that the parser's tests use.
use k.Base.{
  length, ℕ, zero, suc, ◌+◌, ◌-◌, ◌*◌, ◌/◌, ◌%◌, ◌^◌, Bool, true, not, ◌&&◌, leb, ◌==◌,
  if◌then◌else◌, List, [], ◌∷◌, ◌++◌, Option, none, some,
}
use k.Base.Bytes.{to_be, bytes_eq}
use k.Fdt.{MemRegion, fdt_magic}
use k.Fdt.Tree.{begin_token, end_node_token, prop_token, nop_token, end_token}

pub record Builder : Type 0 where
  pub rsvmap : List (ℕ × ℕ)
  pub structure : List ℕ
  pub strings : List ℕ
  pub version : ℕ
  pub last_comp_version : ℕ
  pub terminate : Bool

abbrev pub new : Builder
new = record {
  rsvmap = [];
  structure = [];
  strings = [];
  version = 17;
  last_comp_version = 16;
  terminate = true;
}

unfoldable pub memreserve : (base size : ℕ) → Builder → Builder
memreserve base size b = record b { rsvmap = b.rsvmap ++ ((base, size) ∷ []) }

unfoldable pub raw : List ℕ → Builder → Builder
raw bytes b = record b { structure = b.structure ++ bytes }

unfoldable pub token : ℕ → Builder → Builder
unfolding raw
token t b = raw (to_be 4 t) b

unfoldable pub zeros : ℕ → List ℕ
zeros zero = []
zeros (suc n) = 0 ∷ zeros n

-- The zeros that the loop of `pad` pushes until the length is a multiple of 4.
abbrev pub padding : (len : ℕ) → List ℕ
padding len = zeros ((4 - len % 4) % 4)

unfoldable pub pad : Builder → Builder
unfolding raw
pad b = raw (padding (length b.structure)) b

unfoldable pub begin : (name : List ℕ) → Builder → Builder
unfolding raw token pad
begin name b = pad (raw (name ++ (0 ∷ [])) (token begin_token b))

unfoldable pub end : Builder → Builder
unfolding token
end = token end_node_token

unfoldable pub nop : Builder → Builder
unfolding token
nop = token nop_token

-- The loop over `strings.split(|&b| b == 0)`: `word` is what the current piece has so far, in reverse order of
-- arrival at its end, and `off` where it starts. The last piece starts at the end, so it does not count.
unfoldable pub seek_name : (name : List ℕ) → (rest word : List ℕ) → (off : ℕ) → Option ℕ
seek_name name [] word off = if bytes_eq word name && not (length word == 0) then some off else none
seek_name name (b ∷ bs) word off =
    let next = seek_name name bs [] (off + length word + 1) in
    let more = seek_name name bs (word ++ (b ∷ [])) off in
    if b == 0 then (if bytes_eq word name then some off else next) else more

-- A new name is put at the end of the strings.
abbrev pub with_name : (name : List ℕ) → Builder → Option ℕ → Builder × ℕ
with_name name b (some off) = (b, off)
with_name name b none = (record b { strings = b.strings ++ (name ++ (0 ∷ [])) }, length b.strings)

unfoldable pub string_offset : (name : List ℕ) → Builder → Builder × ℕ
string_offset name b = with_name name b (seek_name name b.strings [] 0)

unfoldable pub prop_at : (name_off : ℕ) → (value : List ℕ) → Builder → Builder
unfolding raw token pad
prop_at name_off value b =
    pad (raw value (raw (to_be 4 name_off) (raw (to_be 4 (length value)) (token prop_token b))))

unfoldable pub prop : (name value : List ℕ) → Builder → Builder
unfolding string_offset
prop name value b = let (b', off) = string_offset name b in prop_at off value b'

unfoldable pub prop_u32 : (name : List ℕ) → ℕ → Builder → Builder
unfolding prop
prop_u32 name v = prop name (to_be 4 v)

-- The entries of the memreserve block, without the two zeros at its end.
unfoldable pub rsv_bytes : List (ℕ × ℕ) → List ℕ
rsv_bytes [] = []
rsv_bytes ((b, s) ∷ es) = to_be 8 b ++ (to_be 8 s ++ rsv_bytes es)

unfoldable pub words : List ℕ → List ℕ
words [] = []
words (v ∷ vs) = to_be 4 v ++ words vs

unfoldable pub build : Builder → List ℕ
unfolding rsv_bytes words
build b =
    let rsv = rsv_bytes b.rsvmap ++ zeros 16 in
    let st = if b.terminate then b.structure ++ to_be 4 end_token else b.structure in
    let off_rsv : ℕ = 40 in
    let off_struct = off_rsv + length rsv in
    let off_strings = off_struct + length st in
    let total = off_strings + length b.strings in
    words (
      fdt_magic
      ∷ total
      ∷ off_struct
      ∷ off_strings
      ∷ off_rsv
      ∷ b.version
      ∷ b.last_comp_version
      ∷ 0
      ∷ length b.strings
      ∷ length st
      ∷ [])
    ++ (rsv ++ (st ++ b.strings))

-- `push_cells`: the words from the highest down; a word beyond 64 bits is 0.
unfoldable pub cells : (n x : ℕ) → List ℕ
cells zero x = []
cells (suc i) x = to_be 4 (if leb 2 i then 0 else x / 2 ^ (32 * i) % 2 ^ 32) ++ cells i x

unfoldable pub reg : List (ℕ × ℕ) → (addr_cells size_cells : ℕ) → List ℕ
reg [] addr_cells size_cells = []
reg ((b, s) ∷ es) addr_cells size_cells =
    (cells addr_cells b ++ cells size_cells s) ++ reg es addr_cells size_cells

-- What the entries stand for: those of size 0 are left out.
unfoldable pub expected : List (ℕ × ℕ) → List MemRegion
expected [] = []
expected ((b, s) ∷ es) = if s == 0 then expected es else record { base = b; size = s } ∷ expected es

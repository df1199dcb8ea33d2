-- ===== src/Fdt/Blob.antt =====
-- crates/k0-boot/src/fdt.rs and fdt/builder.rs: parse_blob on a blob that the builder has written.
use k.Base.{
  length, ℕ, suc, ◌+◌, ◌*◌, ◌%◌, ◌^◌, ◌<◌, ◌≡◌, refl, sym, ap, ◌∙◌, subst, arith, true, false, not,
  ◌||◌, ◌==◌, List, [], ◌∷◌, ◌++◌, some, length-append, All,
}
use mathlib.Core.List.{append_assoc, append-nil}
use k.Base.Words.{checked_add}
use k.Base.Bytes.{to_be}
use k.Fdt.{BootInfo, ok, ◌>>=◌, be32, at_most, fdt_magic}
use k.Fdt.Reg.{rsv_loop}
use k.Fdt.Tree.{Layout, Walk, finish, walk, empty_info, at_root, has_memory, parse_blob, end_token}
use k.Fdt.Builder.{Builder, new, memreserve, rsv_bytes, zeros, words, build}
use k.Fdt.Board.{Call, perform_all, reserve_all}
use k.Fdt.At.{At, At-step, be32-At, length-to_be}
use k.Fdt.Names.{Extends, Extends-refl, IsClosed}
use k.Fdt.Calls.{run_calls, IsCall, IsBetween}
use k.Fdt.Calls.Steps.{IsShort}
use k.Fdt.Calls.Loop.{all_bytes, walk-calls, >>=-cong, perform_all-AllPerformed, all_bytes-IsShort}
use k.Fdt.Written.{reserve_entries, AreWords, length-rsv_bytes, rsv_loop-At}

length-words : (vs : List ℕ) → length (words vs) ≡ 4 * length vs
unfolding words
length-words [] = refl
length-words (v ∷ vs) =
    omega (arith, length-append (to_be 4 v) (words vs), length-to_be 4 v, length-words vs)

-- The blob of a builder whose calls are `cs`, and whose memreserve block has the entries `es`.
module _ (cs : List Call) (es : List (ℕ × ℕ)) (b0 b : Builder) (between : IsBetween b0)
    (h_rsv : b.rsvmap ≡ es) (h_version : b.version ≡ 17) (h_comp : b.last_comp_version ≡ 16)
    (h_end : b.terminate ≡ true) (h_structure : b.structure ≡ all_bytes cs b0)
    (h_whole : length b.structure % 4 ≡ 0) (h_strings : b.strings ≡ (perform_all cs b0).strings)
    (calls : All IsCall cs) (entries : All AreWords es) (small : length (build b) < 2 ^ 32) where
  rsv : List ℕ
  rsv = rsv_bytes es ++ (to_be 8 0 ++ to_be 8 0)

  st : List ℕ
  st = b.structure ++ to_be 4 end_token

  off_struct : ℕ
  off_struct = 40 + length rsv

  off_strings : ℕ
  off_strings = off_struct + length st

  total : ℕ
  total = off_strings + length b.strings

  tail : List ℕ
  tail = rsv ++ (st ++ b.strings)

  header : List ℕ
  header =
      fdt_magic
      ∷ total
      ∷ off_struct
      ∷ off_strings
      ∷ 40
      ∷ 17
      ∷ 16
      ∷ 0
      ∷ length b.strings
      ∷ length st
      ∷ []

  blob : List ℕ
  blob = words header ++ tail

  build_lem : build b ≡ blob
  unfolding build zeros to_be rsv st off_struct off_strings total tail header blob
  build_lem = rw (h_rsv, h_version, h_comp, h_end) refl

  lengths : (length rsv ≡ 16 * length es + 16) × (length st ≡ length b.structure + 4)
  unfolding rsv st
  lengths = (
    omega (
      arith,
      length-append (rsv_bytes es) (to_be 8 0 ++ to_be 8 0),
      length-append (to_be 8 0) (to_be 8 0),
      length-to_be 8 0,
      length-rsv_bytes es,
    ),
    omega (arith, length-append b.structure (to_be 4 end_token), length-to_be 4 end_token),
  )

  length-blob : length blob ≡ total
  unfolding blob header tail total off_strings off_struct
  length-blob = omega (
    arith,
    length-append (words header) tail,
    length-words header,
    length-append rsv (st ++ b.strings),
    length-append st b.strings,
  )

  total_small : total < 2 ^ 32
  total_small = omega (arith, small, length-blob, ap length build_lem)

  words-At :
      (off v : ℕ) (vs : List ℕ)
      → At blob off (words (v ∷ vs) ++ tail)
      → At blob (off + 4) (words vs ++ tail)
  unfolding words
  words-At off v vs at =
      subst (λ t. At blob (off + t) (words vs ++ tail)) (length-to_be 4 v)
        (At-step blob off (to_be 4 v) (words vs ++ tail)
          (at ∙ append_assoc (to_be 4 v) (words vs) tail))

  word-At :
      (off v : ℕ) (vs : List ℕ)
      → v < 2 ^ 32
      → At blob off (words (v ∷ vs) ++ tail)
      → be32 blob off ≡ ok v
  unfolding words
  word-At off v vs fits at =
      be32-At blob (omega (arith, length-blob, total_small)) off v (words vs ++ tail) fits
        (at ∙ append_assoc (to_be 4 v) (words vs) tail)

  sums :
      (off_struct ≡ 40 + length rsv)
      × (off_strings ≡ off_struct + length st)
      × (total ≡ off_strings + length b.strings)
  unfolding off_struct off_strings total
  sums = (refl, refl, refl)

  magic_At : At blob 0 (words header ++ tail)
  unfolding blob
  magic_At = refl

  -- What parse_blob reads from the header.
  reads :
      (be32 blob 8 ≡ ok off_struct)
      × (be32 blob 12 ≡ ok off_strings)
      × (be32 blob 16 ≡ ok 40)
      × (be32 blob 20 ≡ ok 17)
      × (be32 blob 24 ≡ ok 16)
      × (be32 blob 32 ≡ ok (length b.strings))
      × (be32 blob 36 ≡ ok (length st))
  unfolding header
  reads =
      let a4 =
        words-At 0 fdt_magic
          (total ∷ off_struct ∷ off_strings ∷ 40 ∷ 17 ∷ 16 ∷ 0 ∷ length b.strings ∷ length st ∷ [])
          magic_At in
      let a8 =
        words-At 4 total
          (off_struct ∷ off_strings ∷ 40 ∷ 17 ∷ 16 ∷ 0 ∷ length b.strings ∷ length st ∷ []) a4 in
      let a12 =
        words-At 8 off_struct (off_strings ∷ 40 ∷ 17 ∷ 16 ∷ 0 ∷ length b.strings ∷ length st ∷ [])
          a8 in
      let a16 =
        words-At 12 off_strings (40 ∷ 17 ∷ 16 ∷ 0 ∷ length b.strings ∷ length st ∷ []) a12 in
      let a20 = words-At 16 40 (17 ∷ 16 ∷ 0 ∷ length b.strings ∷ length st ∷ []) a16 in
      let a24 = words-At 20 17 (16 ∷ 0 ∷ length b.strings ∷ length st ∷ []) a20 in
      let a28 = words-At 24 16 (0 ∷ length b.strings ∷ length st ∷ []) a24 in
      let a32 = words-At 28 0 (length b.strings ∷ length st ∷ []) a28 in
      let a36 = words-At 32 (length b.strings) (length st ∷ []) a32 in
      (
        word-At 8 off_struct _ sizes.0 a8,
        word-At 12 off_strings _ sizes.1 a12,
        word-At 16 40 _ (omega arith) a16,
        word-At 20 17 _ (omega arith) a20,
        word-At 24 16 _ (omega arith) a24,
        word-At 32 (length b.strings) _ sizes.2 a32,
        word-At 36 (length st) [] sizes.3 a36,
      )
    where
      sizes :
          (off_struct < 2 ^ 32)
          × (off_strings < 2 ^ 32)
          × (length b.strings < 2 ^ 32)
          × (length st < 2 ^ 32)
      sizes = (
        omega (arith, total_small, sums),
        omega (arith, total_small, sums),
        omega (arith, total_small, sums),
        omega (arith, total_small, sums),
      )

  layout : Layout
  layout = record {
    blob = blob;
    struct_end = off_strings;
    off_strings = off_strings;
    strings_end = total;
  }

  -- The header passes every check.
  parse_blob-header :
      (start end : ℕ)
      → parse_blob blob start end ≡ (
          rsv_loop (suc (length blob)) blob 40 (empty_info start end)
          >>= (λ info. walk (suc off_strings) layout off_struct (at_root info) >>= has_memory))
  unfolding parse_blob layout
  parse_blob-header start end = simp (
    reads.0, reads.1, reads.2, reads.3, reads.4, reads.5, reads.6, aligned, struct_lem, strings_lem,
  )
    where
      aligned : (not (off_struct % 4 == 0) || not (length st % 4 == 0)) ≡ false
      aligned = ground (arith, sums.0, lengths.0, lengths.1, h_whole)

      struct_lem : at_most (length blob) (checked_add off_struct (length st)) ≡ some off_strings
      struct_lem = ground (arith, sums.1, sums.2, total_small, length-blob)

      strings_lem : at_most (length blob) (checked_add off_strings (length b.strings)) ≡ some total
      strings_lem = ground (arith, sums.2, total_small, length-blob)

  tail_At : At blob 40 tail
  unfolding header
  tail_At =
      subst (λ t. At blob t tail) {x = 0 + length (words header)} {y = 40}
        (omega (arith, length-words header)) (At-step blob 0 (words header) tail magic_At)

  struct_At : At blob off_struct (st ++ b.strings)
  unfolding tail
  struct_At =
      subst (λ t. At blob t (st ++ b.strings)) (sym sums.0)
        (At-step blob 40 rsv (st ++ b.strings) tail_At)

  strings_At : At blob off_strings b.strings
  strings_At =
      subst (λ t. At blob t b.strings) (sym sums.1) (At-step blob off_struct st b.strings struct_At)

  rsv_lem : (info : BootInfo) → rsv_loop (suc (length blob)) blob 40 info ≡ reserve_entries es info
  unfolding tail rsv
  rsv_lem info =
      rsv_loop-At blob (omega (arith, length-blob, total_small)) es (suc (length blob)) 40
        (st ++ b.strings) info entries
        (tail_At ∙ append_assoc (rsv_bytes es) (to_be 8 0 ++ to_be 8 0) (st ++ b.strings))
        (omega (arith, length-blob, sums, lengths.0))

  tree_At : At blob off_struct ((all_bytes cs b0 ++ to_be 4 end_token) ++ b.strings)
  unfolding st
  tree_At = struct_At ∙ ap (λ t. (t ++ to_be 4 end_token) ++ b.strings) h_structure

  tree_end : off_strings ≡ off_struct + length (all_bytes cs b0 ++ to_be 4 end_token)
  unfolding st
  tree_end = sums.1 ∙ ap (λ t. off_struct + length (t ++ to_be 4 end_token)) h_structure

  shorts : All IsShort cs
  shorts =
      all_bytes-IsShort cs b0 (omega (arith, ap length h_structure, lengths.1, sums, total_small))

  walk_lem : (w : Walk) → walk (suc off_strings) layout off_struct w ≡ (run_calls cs w >>= finish)
  unfolding layout
  walk_lem w =
      walk-calls layout b.strings (omega (arith, length-blob, total_small))
        (omega (arith, sums, total_small)) strings_At sums.2 cs b0 (suc off_strings) off_struct w
        between calls shorts (omega (arith, sums.0, lengths.0))
        (subst (λ t. Extends t b.strings) h_strings (Extends-refl b.strings)) tree_At tree_end
        (omega (arith, length-blob, sums)) (omega (arith, sums))

  written_lem :
      (start end : ℕ)
      → parse_blob (build b) start end ≡ (
          reserve_entries es (empty_info start end)
          >>= (λ info. (run_calls cs (at_root info) >>= finish) >>= has_memory))
  written_lem start end =
      ap (λ t. parse_blob t start end) build_lem
      ∙ (parse_blob-header start end
          ∙ rw (rsv_lem (empty_info start end)) (
              >>=-cong (reserve_entries es (empty_info start end)) _ _
                (λ info. ap (λ m. m >>= has_memory) (walk_lem (at_root info)))))

-- The builder once the entries are written, with no tree.
record Reserved (es : List (ℕ × ℕ)) (b b' : Builder) : Type 0 where
  rsvmap : b'.rsvmap ≡ b.rsvmap ++ es
  structure : b'.structure ≡ b.structure
  strings : b'.strings ≡ b.strings
  version : b'.version ≡ b.version
  last_comp_version : b'.last_comp_version ≡ b.last_comp_version
  terminate : b'.terminate ≡ b.terminate

reserve_all-Reserved : (es : List (ℕ × ℕ)) (b : Builder) → Reserved es b (reserve_all es b)
unfolding reserve_all memreserve
reserve_all-Reserved [] b = record {
  rsvmap = sym (append-nil b.rsvmap);
  structure = refl;
  strings = refl;
  version = refl;
  last_comp_version = refl;
  terminate = refl;
}
reserve_all-Reserved ((base, size) ∷ es) b =
    let r = reserve_all-Reserved es (memreserve base size b) in
    record {
      rsvmap = r.rsvmap ∙ append_assoc b.rsvmap ((base, size) ∷ []) es;
      structure = r.structure;
      strings = r.strings;
      version = r.version;
      last_comp_version = r.last_comp_version;
      terminate = r.terminate;
    }

-- A blob that the builder has written is read as it was meant. For any memreserve entries of 64-bit words and any calls, with names
-- of no byte 0, where the blob is below 4 GiB: parse_blob answers, errors included, what the entries and then the calls say one by one, with no
-- bytes between.
pub parse_blob-build :
    (cs : List Call) (es : List (ℕ × ℕ)) (start end : ℕ)
    → All IsCall cs
    → All AreWords es
    → length (build (perform_all cs (reserve_all es new))) < 2 ^ 32
    → parse_blob (build (perform_all cs (reserve_all es new))) start end ≡ (
        reserve_entries es (empty_info start end)
        >>= (λ info. (run_calls cs (at_root info) >>= finish) >>= has_memory))
parse_blob-build cs es start end calls entries small =
    let b0 = reserve_all es new in
    let r = reserve_all-Reserved es new in
    let between : IsBetween b0 = record {
      whole = ap (λ t. length t % 4) r.structure;
      closed = subst IsClosed (sym r.strings) tt;
    } in
    let p = perform_all-AllPerformed cs b0 between in
    written_lem cs es b0 (perform_all cs b0) between (p.header.0 ∙ r.rsvmap)
      (p.header.1 ∙ r.version) (p.header.2 ∙ r.last_comp_version) (p.header.3 ∙ r.terminate)
      (p.structure ∙ ap (λ t. t ++ all_bytes cs b0) r.structure) p.between.whole refl calls entries
      small start end

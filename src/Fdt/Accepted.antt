-- ===== src/Fdt/Accepted.antt =====
-- crates/k0-boot/src/fdt.rs: the checks of dtb_span and parse, before the blob is read as a tree.
use k.Base.{
  length, ℕ, zero, suc, ◌+◌, ◌-◌, ◌%◌, ◌≤◌, ◌<◌, ◌≡◌, refl, ◌⊎◌, arith, false, not, ◌&&◌, ltb, leb,
  ◌==◌, some, Bool-cases, inl, inr,
}
use k.Base.Words.{word_size, checked_add}
use k.Fdt.{header_size, max_dtb_size, fdt_magic, BootInfo}
use k.Fdt.Tree.{read_be32_phys, dtb_span, bytes_from, parse}
use k.Fdt.Outcomes.{
  Returns, returned, weaken, >>=-Returns, ok_or-Returns, refuse-Returns, add-Returns,
}
use k.Fdt.Total.{IsParsed, parse_blob-IsParsed}

length-bytes_from : (mem : ℕ → ℕ) (base len : ℕ) → length (bytes_from mem base len) ≡ len
unfolding bytes_from
length-bytes_from mem base zero = refl
length-bytes_from mem base (suc len) = omega (arith, length-bytes_from mem (base + 1) len)

-- The range is from `from` on, of the size of a blob.
abbrev IsSpan : (from : ℕ) → ℕ × ℕ → Type 0
IsSpan from (start, end) = (start ≡ from) × (from + header_size ≤ end) × (end ≤ from + max_dtb_size)

dtb_span-IsSpan :
    (mem : ℕ → ℕ) (from : ℕ) → from < word_size → Returns (IsSpan from) (dtb_span mem from)
unfolding dtb_span
dtb_span-IsSpan mem from small = refuse-Returns (from == 0) _ _ (λ _.
    refuse-Returns (not (from % 8 == 0)) _ _ (λ aligned.
      refuse-Returns (not (read_be32_phys mem from == fdt_magic)) _ _ (λ _.
        add-Returns from 4 _ (ground arith) (
          let total = read_be32_phys mem (from + 4) in
          refuse-Returns (not (leb header_size total && leb total max_dtb_size)) _ _ (λ size.
            ok_or-Returns (checked_add from total) _ _
              (λ end e. returned _ (refl, ground arith, ground arith)))))))

-- What parse answers on success: the blob lies at `dtb_phys`, has the size of a blob, and does not touch the kernel.
pub record IsAccepted (dtb_phys kernel_start kernel_end : ℕ) (info : BootInfo) : Type 0 where
  pub parsed : IsParsed dtb_phys info.dtb_end info
  pub least : dtb_phys + header_size ≤ info.dtb_end
  pub most : info.dtb_end ≤ dtb_phys + max_dtb_size
  pub apart : (kernel_end ≤ dtb_phys) ⊎ (info.dtb_end ≤ kernel_start)

-- With any memory and any addresses, parse ends without a panic. If it returns a BootInfo, the blob is of 40 bytes to 2 MiB from
-- `dtb_phys` on and apart from the kernel image, and the BootInfo is as parse_blob promises.
pub parse-IsAccepted :
    (mem : ℕ → ℕ) (dtb_phys kernel_start kernel_end read_offset : ℕ)
    → Returns
        (IsAccepted dtb_phys kernel_start kernel_end)
        (parse mem dtb_phys kernel_start kernel_end read_offset)
unfolding parse
parse-IsAccepted mem dtb_phys kernel_start kernel_end read_offset =
    ok_or-Returns (checked_add dtb_phys read_offset) _ _ (λ base e.
      >>=-Returns _ (dtb_span-IsSpan mem base (ground arith)) (λ span s.
        ok_or-Returns (checked_add dtb_phys (span.1 - span.0)) _ _ (λ dtb_end f.
          refuse-Returns (ltb dtb_phys kernel_end && ltb kernel_start dtb_end) _ _ (λ clear.
            let len = span.1 - span.0 in
            weaken
              (parse_blob-IsParsed (bytes_from mem span.0 len) dtb_phys dtb_end
                (omega (arith, length-bytes_from mem span.0 len)))
              (λ info g. returned info record {
                parsed = with_end g;
                least = omega (arith, g.filled.end, gap e f s);
                most = omega (arith, g.filled.end, gap e f s);
                apart = clear_of info clear g.filled.end;
              })))))
  where
    gap :
        {base dtb_end : ℕ} {span : ℕ × ℕ}
        → checked_add dtb_phys read_offset ≡ some base
        → checked_add dtb_phys (span.1 - span.0) ≡ some dtb_end
        → IsSpan base span
        → (dtb_phys + header_size ≤ dtb_end) × (dtb_end ≤ dtb_phys + max_dtb_size)
    gap e f s = (ground arith, ground arith)

    with_end :
        {dtb_end : ℕ} {info : BootInfo}
        → IsParsed dtb_phys dtb_end info
        → IsParsed dtb_phys info.dtb_end info
    with_end g = record {
      has_region = g.has_region;
      filled = record {
        start = g.filled.start;
        end = refl;
        memory = g.filled.memory;
        reserved = g.filled.reserved;
        entropy = g.filled.entropy;
      };
    }

    clear_of :
        {dtb_end : ℕ} (info : BootInfo)
        → (ltb dtb_phys kernel_end && ltb kernel_start dtb_end) ≡ false
        → info.dtb_end ≡ dtb_end
        → (kernel_end ≤ dtb_phys) ⊎ (info.dtb_end ≤ kernel_start)
    clear_of info clear same = elim (Bool-cases (ltb dtb_phys kernel_end)) [
      | inl before ↦ inr (ground arith)
      | inr behind ↦ inl (ground arith)
    ]

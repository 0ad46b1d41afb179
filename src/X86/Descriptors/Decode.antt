-- ===== src/X86/Descriptors/Decode.antt =====
-- What the processor reads in the descriptor of arch/x86_64/src/gdt.rs and the gates of
-- arch/x86_64/src/idt.rs.
use rincos.Prelude.{
  ℕ, ◌+◌, ◌-◌, ◌*◌, ◌/◌, ◌%◌, ◌^◌, ◌≤◌, ◌<◌, ◌≡◌, arith, refl, ◌∙◌, bit_and, bit_or, shl, shr,
}
use rincos.Prelude.Bits.{and_mask, and_shl, or_fields, or_comm}
use rincos.X86.Descriptors.{Tss64, tss_word, TssDesc, make_tss_desc}

-- The fields of a system descriptor, as the processor takes it apart.
abbrev pub desc_base : TssDesc → ℕ
desc_base d = d.lo / 2 ^ 16 % 2 ^ 24 + d.lo / 2 ^ 56 % 2 ^ 8 * 2 ^ 24 + d.hi % 2 ^ 32 * 2 ^ 32

abbrev pub desc_limit : TssDesc → ℕ
desc_limit d = d.lo % 2 ^ 16 + d.lo / 2 ^ 48 % 16 * 2 ^ 16

-- Present, privilege 0, an available 64-bit task state segment, and a limit in bytes.
abbrev pub IsTaskSegment : TssDesc → Type 0
IsTaskSegment d = (d.lo / 2 ^ 40 % 2 ^ 8 ≡ 0x89) × (d.lo / 2 ^ 55 % 2 ≡ 0) × (d.hi / 2 ^ 32 ≡ 0)

-- The 64 bits at an offset of the task state segment. The processor takes the kernel's stack from
-- offset 4 and the first stack for interrupts from offset 36.
abbrev pub tss_at : (ℕ → ℕ) → Tss64 → ℕ → ℕ
tss_at padding t off = tss_word padding t (off / 4) + tss_word padding t (off / 4 + 1) * 2 ^ 32

or_above : (k acc q : ℕ) → acc < 2 ^ k → bit_or acc (q * 2 ^ k) ≡ acc + q * 2 ^ k
or_above k acc q lt = or_comm acc (q * 2 ^ k) ∙ or_fields k q acc lt ∙ omega arith

module _ (addr len : ℕ) where
  fields : ℕ
  fields =
      (len - 1) % 2 ^ 16
      + addr % 2 ^ 16 * 2 ^ 16
      + addr / 2 ^ 16 % 2 ^ 8 * 2 ^ 32
      + 0x89 * 2 ^ 40
      + (len - 1) / 2 ^ 16 % 16 * 2 ^ 48
      + addr / 2 ^ 24 % 2 ^ 8 * 2 ^ 56

  s0 : bit_and (len - 1) 0xFFFF ≡ (len - 1) % 2 ^ 16
  s0 = and_mask 16 (len - 1)

  s1 : shl (bit_and addr 0xFFFF) 16 ≡ addr % 2 ^ 16 * 2 ^ 16
  s1 = omega (arith, and_mask 16 addr)

  s2 : shl (bit_and (shr addr 16) 0xFF) 32 ≡ addr / 2 ^ 16 % 2 ^ 8 * 2 ^ 32
  s2 = omega (arith, and_mask 8 (addr / 2 ^ 16))

  s3 : shl (bit_and (len - 1) 0xF_0000) 32 ≡ (len - 1) / 2 ^ 16 % 16 * 2 ^ 48
  s3 = omega (arith, and_shl 16 (len - 1) 15, and_mask 4 ((len - 1) / 2 ^ 16))

  s4 : shl (bit_and (shr addr 24) 0xFF) 56 ≡ addr / 2 ^ 24 % 2 ^ 8 * 2 ^ 56
  s4 = omega (arith, and_mask 8 (addr / 2 ^ 24))

  -- The word is the sum of its fields.
  make_tss_desc-lo : (make_tss_desc addr len).lo ≡ fields
  unfolding make_tss_desc fields
  make_tss_desc-lo =
      rw
        (
          s0,
          s1,
          s2,
          s3,
          s4,
          or_above 16 ((len - 1) % 2 ^ 16) (addr % 2 ^ 16) (omega arith),
          or_above 32 ((len - 1) % 2 ^ 16 + addr % 2 ^ 16 * 2 ^ 16) (addr / 2 ^ 16 % 2 ^ 8)
              (omega arith),
          or_above 40 ((len - 1) % 2 ^ 16 + addr % 2 ^ 16 * 2 ^ 16 + addr / 2 ^ 16 % 2 ^ 8 * 2 ^ 32)
              0x89 (omega arith),
          or_above 48
              ((len - 1) % 2 ^ 16
                + addr % 2 ^ 16 * 2 ^ 16
                + addr / 2 ^ 16 % 2 ^ 8 * 2 ^ 32
                + 0x89 * 2 ^ 40)
              ((len - 1) / 2 ^ 16 % 16) (omega arith),
          or_above 56
              ((len - 1) % 2 ^ 16
                + addr % 2 ^ 16 * 2 ^ 16
                + addr / 2 ^ 16 % 2 ^ 8 * 2 ^ 32
                + 0x89 * 2 ^ 40
                + (len - 1) / 2 ^ 16 % 16 * 2 ^ 48)
              (addr / 2 ^ 24 % 2 ^ 8) (omega arith),
        )
        refl

  -- The descriptor of a task state segment, of at most a megabyte, says where it is and how long.
  pub make_tss_desc-base : addr < 2 ^ 64 → desc_base (make_tss_desc addr len) ≡ addr
  unfolding make_tss_desc fields
  make_tss_desc-base word = omega (arith, make_tss_desc-lo)

  pub make_tss_desc-limit : len ≤ 2 ^ 20 → desc_limit (make_tss_desc addr len) ≡ len - 1
  unfolding fields
  make_tss_desc-limit small = omega (arith, make_tss_desc-lo)

  pub make_tss_desc-IsTaskSegment : addr < 2 ^ 64 → IsTaskSegment (make_tss_desc addr len)
  unfolding make_tss_desc fields
  make_tss_desc-IsTaskSegment word =
      (omega (arith, make_tss_desc-lo), omega (arith, make_tss_desc-lo), omega (arith, word))

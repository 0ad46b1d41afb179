-- ===== src/X86/Mmu/Page/Translate.antt =====
-- `translate` of arch/x86_64/src/mmu.rs reads the view.
use rincos.Prelude.{
  ℕ, ◌+◌, ◌/◌, ◌%◌, ◌^◌, ◌≡◌, refl, arith, true, false, Option, none, some, inl, inr, Bool-cases,
  bit_or, bit_and, if◌then◌else◌,
}
use rincos.Prelude.Bits.{and_mask, or_fields}
use rincos.Hal.Mmu.{TranslateError, AddressSpace, invalid_address}
use rincos.X86.Run.{World, Run, ok, err}
use rincos.X86.Mmu.Entry.{is_canonical, frame_of}
use rincos.X86.Mmu.Entry.Laws.{frame_of-field}
use rincos.X86.Mmu.Walk.{page_at}
use rincos.X86.Mmu.Walk.Cases.{
  WalkCase, Walk-cases, no_pdpt, no_pd, no_pt, no_page, page, pt_entry, case_page, page_at-case,
}
use rincos.X86.Mmu.Page.{root_of, as_x86, translate}

-- The address inside a frame.
pub or_offset : (e v : ℕ) → bit_or (frame_of e) (bit_and v 0xfff) ≡ frame_of e + v % 4096
or_offset e v =
    rw (and_mask 12 v, frame_of-field e) (or_fields 12 (e / 4096 % 2 ^ 40) (v % 4096) (omega arith))

-- What `translate` returns, given the entry of the page.
abbrev pub Translated : {A : Type 0} → World A → ℕ → Option ℕ → Run A TranslateError ℕ
Translated w v none = err TranslateError.not_mapped w
Translated w v (some e) = ok (frame_of e + v % 4096) w

module _ {A : Type 0} (w : World A) (aspace : AddressSpace) (v root : ℕ)
    (known : root_of w.machine aspace ≡ some root) where
  walked :
      is_canonical v ≡ true
      → (c : WalkCase w.machine.mem w.machine.hhdm_offset root v)
      → translate aspace v w ≡ Translated w v (case_page c)
  unfolding translate
  walked canonical (no_pdpt a) = rw (canonical, known, as_x86, a) refl
  walked canonical (no_pd a b) = rw (canonical, known, as_x86, a, b) refl
  walked canonical (no_pt a b c) = rw (canonical, known, as_x86, a, b, c) refl
  walked canonical (no_page a b c d) = rw (canonical, known, as_x86, a, b, c, d) refl
  walked canonical (page a b c d) =
      rw
        (
          canonical,
          known,
          as_x86,
          a,
          b,
          c,
          d,
          or_offset (pt_entry w.machine.mem w.machine.hhdm_offset root v) v,
        )
        refl

  refused : is_canonical v ≡ false → translate aspace v w ≡ err invalid_address w
  unfolding translate
  refused odd = rw odd refl

  -- `translate` leaves the world alone. It refuses an address that is not canonical, finds no
  -- mapping where the view has none, and otherwise returns the entry's frame with the offset.
  pub translate_lem : translate aspace v w ≡ (
      if is_canonical v
      then Translated w v (page_at w.machine.mem w.machine.hhdm_offset root v)
      else err invalid_address w)
  translate_lem = elim (Bool-cases (is_canonical v)) [
    | inr odd ↦ rw odd (refused odd)
    | inl canonical ↦
        rw (canonical, page_at-case _ _ root v (Walk-cases _ _ root v))
          (walked canonical (Walk-cases _ _ root v))
  ]

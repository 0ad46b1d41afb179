-- ===== src/X86/Mmu/Entry/Laws.antt =====
-- The bits of an entry and of an address, in arithmetic.
use rincos.Prelude.{
  ℕ, ◌-◌, ◌*◌, ◌/◌, ◌%◌, ◌^◌, ◌<◌, ◌≡◌, ◌≢◌, refl, ap, ◌∙◌, arith, Bool, true, false, not, ◌&&◌,
  bit_and, bit_or, if◌then◌else◌,
}
use rincos.Prelude.Bits.{and_mask, and_shl, and_or_distrib, or-zero, zero-or}
use rincos.Hal.Mmu.{MapFlags}
use rincos.X86.Mmu.Entry.{
  aligned_4k, has, frame_of, flags_to_pte, table_flags, addr_mask, pte_p, pte_u, pte_nx,
}

-- A frame's address: a multiple of the page size that fits the entry's address field.
abbrev pub IsFrame : ℕ → Type 0
IsFrame t = (t % 4096 ≡ 0) × (t < 2 ^ 52)

pub frame_of-field : (e : ℕ) → frame_of e ≡ e / 4096 % 2 ^ 40 * 4096
unfolding frame_of
frame_of-field e = omega (arith, and_shl 12 e (2 ^ 40 - 1), and_mask 40 (e / 4096))

pub frame_of-IsFrame : (e : ℕ) → IsFrame (frame_of e)
frame_of-IsFrame e = omega (arith, frame_of-field e)

pub frame_of-frame : (t : ℕ) → IsFrame t → frame_of t ≡ t
frame_of-frame t h = omega (arith, frame_of-field t)

-- Flags that leave the address field alone.
abbrev pub IsFlags : ℕ → Type 0
IsFlags f = (frame_of f ≡ 0) × (bit_and f 1 ≡ 1)

pub frame_of-or : (t f : ℕ) → IsFlags f → frame_of (bit_or (frame_of t) f) ≡ frame_of t
frame_of-or t f h = masked ∙ ap (λ (x : ℕ). bit_or x (frame_of f)) same ∙ rest
  where
    masked : frame_of (bit_or (frame_of t) f) ≡ bit_or (frame_of (frame_of t)) (frame_of f)
    masked = unfold frame_of in and_or_distrib addr_mask (frame_of t) f

    same : frame_of (frame_of t) ≡ frame_of t
    same = frame_of-frame (frame_of t) (frame_of-IsFrame t)

    rest : bit_or (frame_of t) (frame_of f) ≡ frame_of t
    rest = rw (h.0) (or-zero (frame_of t))

pub has-or : (t f : ℕ) → IsFlags f → has (bit_or (frame_of t) f) pte_p ≡ true
unfolding has
has-or t f h =
    ground
      (arith, and_or_distrib 1 (frame_of t) f, and_mask 1 (frame_of t), frame_of-field t, zero-or 1)

-- Another bit, if a test says so, outside the address field and the present bit.
IsFlags-if :
    (b : Bool) (p c : ℕ)
    → IsFlags p
    → frame_of c ≡ 0
    → bit_and c 1 ≡ 0
    → IsFlags (if b then bit_or p c else p)
IsFlags-if false p c h clear low = h
IsFlags-if true p c h clear low = (
  unfold frame_of in rw (and_or_distrib addr_mask p c, h.0, clear) (or-zero 0),
  rw (and_or_distrib 1 p c, h.1, low) (or-zero 1),
)

pub table_flags-IsFlags : (user : Bool) → IsFlags (table_flags user)
unfolding table_flags frame_of
table_flags-IsFlags user = IsFlags-if user 3 pte_u (refl, refl) refl refl

pub flags_to_pte-IsFlags : (flags : MapFlags) (nxe : Bool) → IsFlags (flags_to_pte flags nxe)
unfolding flags_to_pte frame_of
flags_to_pte-IsFlags flags nxe =
    IsFlags-if flags.uncached _ 24
      (IsFlags-if (not flags.exec && nxe) _ pte_nx
        (IsFlags-if flags.global _ 256
          (IsFlags-if flags.user _ 4 (IsFlags-if flags.write 1 2 (refl, refl) refl refl) refl refl)
          refl refl)
        refl refl)
      refl refl

pub zero-has : has 0 pte_p ≡ false
unfolding has
zero-has = refl

pub aligned_4k_iff : (x : ℕ) → aligned_4k x ≡ true → x % 4096 ≡ 0
unfolding aligned_4k
aligned_4k_iff x h = ground (arith, and_mask 12 x)

pub aligned_4k-false : (x : ℕ) → aligned_4k x ≡ false → x % 4096 ≢ 0
unfolding aligned_4k
aligned_4k-false x h e = ground (arith, and_mask 12 x)

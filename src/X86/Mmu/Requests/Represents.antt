-- ===== src/X86/Mmu/Requests/Represents.antt =====
-- The abstract map of pages that the tables of arch/x86_64/src/mmu.rs hold, and a change of one page of it.
use rincos.Prelude.{
  ℕ, ◌/◌, ◌≡◌, ◌≢◌, ◌∙◌, refl, sym, ap, arith, Option, none, some, inl, inr, Bool, Bool-cases,
  Option-cases, bit_or, ◌==◌,
}
use rincos.Hal.Mmu.{AddressSpace, PageTableFrameAlloc}
use rincos.X86.Machine.{Machine, update}
use rincos.X86.Run.{World}
use rincos.X86.Mmu.Entry.{frame_of, flags_to_pte}
use rincos.X86.Mmu.Entry.Laws.{IsFrame}
use rincos.X86.Mmu.Walk.{page_at}
use rincos.X86.Mmu.Frames.{IsFrameSource}
use rincos.X86.Mmu.Ensure.{IsSpace, SamePages, Kept}
use rincos.X86.Mmu.Page.{root_of}
use rincos.X86.Mmu.Page.View.{IsAddress, IsRemap, path_of-IsPath, index_bounds}
use rincos.X86.Mmu.Requests.{Request, Answer, Mapping, Pages, Step}
use rincos.X86.Mmu.Requests.Keep.{root_of-same}

-- The entry of a page that is mapped so.
abbrev pub pte_of : Bool → Option Mapping → Option ℕ
pte_of nxe none = none
pte_of nxe (some m) = some (bit_or (frame_of m.frame) (flags_to_pte m.flags nxe))

pub some_frame : (a : Mapping) → IsFrame a.frame → (m : Mapping) → some a ≡ some m → IsFrame m.frame
some_frame a frame m e = let same : a ≡ m = cc in rw (← same) frame

module _ {A : Type 0} {pt : PageTableFrameAlloc A} {h : ℕ} (src : IsFrameSource pt h)
    (root limit : ℕ) (aspace : AddressSpace) where
  -- The tables of the address space hold the pages `s`.
  pub record Represents (w : World A) (s : Pages) : Type 0 where
    pub known : root_of w.machine aspace ≡ some root
    pub space : IsSpace src root limit w
    pub pages :
        (u : ℕ)
        → IsAddress limit u
        → page_at w.machine.mem h root u ≡ pte_of w.machine.nxe_enabled (s (u / 4096))
    pub frames : (k : ℕ) (m : Mapping) → s k ≡ some m → IsFrame m.frame

  -- The code's answer is one that the pages allow, and the tables hold the pages after it.
  abbrev pub Refined : Pages → Request → Option (Answer × World A) → Type 0
  Refined s r none = ⊥
  Refined s r (some (a, w')) = (s' : Pages) × Step s r a s' × Represents w' s'

  module _ (w : World A) (s : Pages) (rep : Represents w s) where
    pub mapping_at :
        (v : ℕ) {e : ℕ}
        → IsAddress limit v
        → page_at w.machine.mem h root v ≡ some e
        → (m : Mapping) × (s (v / 4096) ≡ some m)
          × (e ≡ bit_or (frame_of m.frame) (flags_to_pte m.flags w.machine.nxe_enabled))
    mapping_at v address at = elim (Option-cases (s (v / 4096))) [
      | inl gone ↦ absurd (cc (at, rep.pages v address, ap (pte_of w.machine.nxe_enabled) gone))
      | inr (m, there) ↦ (
        m,
        there,
        ground (arith, at, rep.pages v address, ap (pte_of w.machine.nxe_enabled) there),
      )
    ]

    pub nothing_at :
        (v : ℕ) → IsAddress limit v → page_at w.machine.mem h root v ≡ none → s (v / 4096) ≡ none
    nothing_at v address at = elim (Option-cases (s (v / 4096))) [
      | inl gone ↦ gone
      | inr (m, there) ↦
          absurd (cc (at, rep.pages v address, ap (pte_of w.machine.nxe_enabled) there))
    ]

    -- A change of one page.
    module _ (w' : World A) (space' : IsSpace src root limit w')
        (kas : w'.machine.kas ≡ w.machine.kas) (slots : w'.machine.as_slots ≡ w.machine.as_slots)
        (nxe : w'.machine.nxe_enabled ≡ w.machine.nxe_enabled) where
      known' : root_of w'.machine aspace ≡ some root
      known' = root_of-same w.machine w'.machine aspace kas slots ∙ rep.known

      unchanged :
          ((u : ℕ)
            → IsAddress limit u
            → page_at w'.machine.mem h root u ≡ page_at w.machine.mem h root u)
          → Represents w' s
      unchanged same = record {
        known = known';
        space = space';
        pages = λ u address.
            same u address ∙ rep.pages u address ∙ ap (λ b. pte_of b (s (u / 4096))) (sym nxe);
        frames = rep.frames;
      }

      pub changed :
          (v : ℕ) (r : Option Mapping)
          → ((m : Mapping) → r ≡ some m → IsFrame m.frame)
          → IsRemap w.machine.mem w'.machine.mem h root limit v (pte_of w.machine.nxe_enabled r)
          → Represents w' (update s (v / 4096) r)
      changed v r frame remap = record {
        known = known';
        space = space';
        pages = λ u address. remap u address ∙ elim (Bool-cases (u / 4096 == v / 4096)) [
          | inl this ↦ rw (this, nxe) refl
          | inr other ↦ rw (other, nxe) (rep.pages u address)
        ];
        frames = λ k m at. elim (Bool-cases (k == v / 4096)) [
          | inl this ↦ frame m (rw this at at)
          | inr other ↦ rep.frames k m (rw other at at)
        ];
      }

    pub Kept-pages :
        (w' : World A)
        → IsSpace src root limit w'
        → SamePages src root limit w w'
        → Kept src root limit w w'
        → Represents w' s
    Kept-pages w' space' same kept =
        unchanged w' space' (ap (λ (m : Machine). m.kas) kept)
          (ap (λ (m : Machine). m.as_slots) kept) (ap (λ (m : Machine). m.nxe_enabled) kept)
          λ u address. same _ _ (path_of-IsPath limit u address.2) refl ((index_bounds u).3)

    pub something_at :
        (v : ℕ)
        → IsAddress limit v
        → page_at w.machine.mem h root v ≢ none
        → (m : Mapping) × (s (v / 4096) ≡ some m)
    something_at v address there = elim (Option-cases (s (v / 4096))) [
      | inl gone ↦ absurd (there (rep.pages v address ∙ ap (pte_of w.machine.nxe_enabled) gone))
      | inr found_here ↦ found_here
    ]

-- ===== src/X86/Mmu/Local/Edits.antt =====
-- `unmap_4k` and `protect_4k` of arch/x86_64/src/mmu.rs touch their own address space only.
use mathlib.Core.Path.{subst}
use rincos.Prelude.{ℕ, ◌<◌, ◌≡◌, refl, sym, ◌∷◌, bit_or, some, inl, inr, Bool-cases, Option-cases}
use rincos.Hal.Mmu.{AddressSpace, MapFlags, PageTableFrameAlloc}
use rincos.X86.Machine.{invlpg}
use rincos.X86.Run.{World}
use rincos.X86.Mmu.Entry.{
  aligned_4k, is_canonical, has, pte_p, pml4_index, pt_index, frame_of, flags_to_pte,
}
use rincos.X86.Mmu.Table.{entry, store}
use rincos.X86.Mmu.Walk.{table_at, path_of}
use rincos.X86.Mmu.Frames.{IsFrameSource}
use rincos.X86.Mmu.Ensure.{IsSpace}
use rincos.X86.Mmu.Page.{root_of, unmap_4k, protect_4k}
use rincos.X86.Mmu.Page.View.{path_of-IsPath, index_bounds}
use rincos.X86.Mmu.Page.Unmap.{edit_page, edited, unmap_4k-edit, protect_4k-edit}
use rincos.X86.Mmu.Requests.Keep.{After, edit_page-IsSpace}
use rincos.X86.Mmu.Local.{IsLocal, IsLocal-refl, store_leaf-IsLocal}

module _ {A : Type 0} {pt : PageTableFrameAlloc A} {h : ℕ} (src : IsFrameSource pt h)
    (root limit v : ℕ) (low : pml4_index v < limit) (w : World A)
    (space : IsSpace src root limit w) where
  edited-IsLocal :
      (t e : ℕ)
      → table_at w.machine.mem w.machine.hhdm_offset root (path_of v) ≡ some t
      → IsLocal src root limit w (edited w v t e)
  edited-IsLocal t e found =
      subst
        (λ o. IsLocal src root limit w (record w {
          machine = record w.machine {
            mem = store w.machine.mem o t (pt_index v) e;
            events = invlpg v ∷ w.machine.events;
          };
        }))
        (sym space.hhdm)
        (store_leaf-IsLocal src root limit w (path_of v) (pt_index v) space refl
          (path_of-IsPath limit v low) ((index_bounds v).3) (rw space.hhdm at found) e _)

  edit_page-IsLocal :
      (change : ℕ → ℕ) → After (IsLocal src root limit w) (edit_page w root v change)
  edit_page-IsLocal change = elim (Bool-cases (aligned_4k v)) [
    | inr odd ↦ rw odd same
    | inl al ↦ elim (Bool-cases (is_canonical v)) [
      | inr odd ↦ rw (al, odd) same
      | inl ca ↦
          elim (Option-cases (table_at w.machine.mem w.machine.hhdm_offset root (path_of v))) [
            | inl gone ↦ rw (al, ca, gone) same
            | inr (t, at) ↦
                elim (Bool-cases
                  (has (entry w.machine.mem w.machine.hhdm_offset t (pt_index v)) pte_p)) [
                    | inr gone ↦ rw (al, ca, at, gone) same
                    | inl there ↦ rw (al, ca, at, there) (edited-IsLocal t _ at)
                  ]
          ]
    ]
  ]
    where
      same : IsLocal src root limit w w
      same = IsLocal-refl src root limit w

  module _ (aspace : AddressSpace) (known : root_of w.machine aspace ≡ some root) where
    pub unmap_4k-IsLocal : After (IsLocal src root limit w) (unmap_4k aspace v w)
    unmap_4k-IsLocal = rw (unmap_4k-edit w aspace v root known) (edit_page-IsLocal (λ _. 0))

    pub protect_4k-IsLocal :
        (flags : MapFlags) → After (IsLocal src root limit w) (protect_4k aspace v flags w)
    protect_4k-IsLocal flags =
        rw (protect_4k-edit w aspace v root known flags)
          (edit_page-IsLocal (λ e. bit_or (frame_of e) (flags_to_pte flags w.machine.nxe_enabled)))

    pub unmap_4k-IsSpace : After (IsSpace src root limit) (unmap_4k aspace v w)
    unmap_4k-IsSpace =
        rw (unmap_4k-edit w aspace v root known)
          (edit_page-IsSpace src root limit v low w space (λ _. 0))

    pub protect_4k-IsSpace :
        (flags : MapFlags) → After (IsSpace src root limit) (protect_4k aspace v flags w)
    protect_4k-IsSpace flags = rw (protect_4k-edit w aspace v root known flags) (
        edit_page-IsSpace src root limit v low w space
          (λ e. bit_or (frame_of e) (flags_to_pte flags w.machine.nxe_enabled)))

-- ===== src/X86/Mmu/Requests/Edits.antt =====
-- `unmap_4k` and `protect_4k` of arch/x86_64/src/mmu.rs, as the abstract map of pages promises.
use mathlib.Core.Path.{subst}
use rincos.Prelude.{
  ℕ, ◌/◌, ◌%◌, ◌^◌, ◌<◌, ◌≡◌, ◌≢◌, ◌∙◌, refl, ap, true, false, Option, none, some, Bool, bit_or,
}
use rincos.Hal.Mmu.{MapError, MapFlags, AddressSpace, PageTableFrameAlloc}
use rincos.X86.Machine.{Machine, update}
use rincos.X86.Run.{World, Run, ok, err, fault}
use rincos.X86.Mmu.Entry.{is_canonical, frame_of, flags_to_pte, pml4_index}
use rincos.X86.Mmu.Entry.Laws.{IsFrame, frame_of-or, flags_to_pte-IsFlags}
use rincos.X86.Mmu.Walk.{IsTree}
use rincos.X86.Mmu.Frames.{IsFrameSource}
use rincos.X86.Mmu.Ensure.{IsSpace}
use rincos.X86.Mmu.Page.{unmap_4k, protect_4k}
use rincos.X86.Mmu.Page.View.{IsRemap}
use rincos.X86.Mmu.Page.Unmap.{unmap_4k-edit, protect_4k-edit}
use rincos.X86.Mmu.Page.Edits.{Edits, unmap_4k-Edits, protect_4k-Edits}
use rincos.X86.Mmu.Requests.{
  Request, unmap_page, protect_page, done, refused, of_edit, Mapping, Pages, Step, unmap_done,
  unmap_missing, unmap_unaligned, unmap_invalid, protect_done, protect_missing, protect_unaligned,
  protect_invalid,
}
use rincos.X86.Mmu.Requests.Keep.{After, Checked, edit_page-IsSpace, edit_page-Checked}
use rincos.X86.Mmu.Requests.Represents.{
  pte_of, some_frame, Represents, Refined, mapping_at, nothing_at, changed,
}

module _ {A : Type 0} {pt : PageTableFrameAlloc A} {h : ℕ} (src : IsFrameSource pt h)
    (root limit : ℕ) (aspace : AddressSpace) where
  module _ (w : World A) (s : Pages) (rep : Represents src root limit aspace w s) where
    module _ (v : ℕ) (word : v < 2 ^ 64) (low : pml4_index v < limit) where
      -- An operation that changes the entry of a page that is mapped.
      module _ (request : Request) (change : ℕ → Option ℕ) (left : Mapping → Option Mapping)
          (on_done : (m : Mapping)
            → v % 4096 ≡ 0
            → is_canonical v ≡ true
            → s (v / 4096) ≡ some m
            → Step s request done (update s (v / 4096) (left m)))
          (on_missing : s (v / 4096) ≡ none → Step s request (refused MapError.not_mapped) s)
          (on_unaligned : v % 4096 ≢ 0 → Step s request (refused MapError.unaligned) s)
          (on_invalid : is_canonical v ≡ false → Step s request (refused MapError.invalid_args) s)
          (leaves : (m : Mapping)
            → change (bit_or (frame_of m.frame) (flags_to_pte m.flags w.machine.nxe_enabled))
              ≡ pte_of w.machine.nxe_enabled (left m))
          (framed : (m m' : Mapping) → IsFrame m.frame → left m ≡ some m' → IsFrame m'.frame) where
        edit-Refined :
            (r : Run A MapError (Unit {0}))
            → Edits w root limit v change r
            → After (IsSpace src root limit) r
            → Checked v r
            → Refined src root limit aspace s request (of_edit r)
        edit-Refined (ok _ w') (al, (same_alloc, same), tree, (e, at, remap)) space' ca =
            let (m, here, eq) =
              mapping_at src root limit aspace w s rep v (word, ca, low)
                (rw rep.space.hhdm at at) in
            (
              update s (v / 4096) (left m),
              on_done m al ca here,
              changed src root limit aspace w s rep w' space' (ap (λ (m : Machine). m.kas) same)
                  (ap (λ (m : Machine). m.as_slots) same) (ap (λ (m : Machine). m.nxe_enabled) same)
                  v (left m) (λ m'. framed m m' (rep.frames _ m here))
                  (subst (IsRemap w.machine.mem w'.machine.mem h root limit v)
                    (ap change eq ∙ leaves m)
                    (subst (λ o. IsRemap w.machine.mem w'.machine.mem o root limit v (change e))
                      rep.space.hhdm remap)),
            )
        edit-Refined (err MapError.unaligned w') (same, bad) _ _ =
            (s, on_unaligned bad, rw same rep)
        edit-Refined (err MapError.invalid_args w') (same, bad) _ _ =
            (s, on_invalid bad, rw same rep)
        edit-Refined (err MapError.not_mapped w') (same, gone) _ ca = (
          s,
          on_missing (
              nothing_at src root limit aspace w s rep v (word, ca, low)
                (rw rep.space.hhdm at gone)),
          rw same rep,
        )
        edit-Refined (err MapError.already_mapped w') bad _ _ = absurd bad
        edit-Refined (err MapError.out_of_memory w') bad _ _ = absurd bad
        edit-Refined fault bad _ _ = absurd bad

      tree_here : IsTree w.machine.mem w.machine.hhdm_offset root limit
      tree_here = rw rep.space.hhdm rep.space.tree

      pub unmap_page-Refined :
          Refined src root limit aspace s (unmap_page v) (of_edit (unmap_4k aspace v w))
      unmap_page-Refined =
          edit-Refined (unmap_page v) (λ _. none) (λ _. none) (λ m. unmap_done) unmap_missing
            unmap_unaligned unmap_invalid (λ m. refl) (λ m m' _ never. absurd (cc never)) _
            (unmap_4k-Edits w v root limit word low tree_here aspace rep.known)
            (rw (unmap_4k-edit w aspace v root rep.known)
              (edit_page-IsSpace src root limit v low w rep.space (λ _. 0)))
            (rw (unmap_4k-edit w aspace v root rep.known) (edit_page-Checked w root v (λ _. 0)))

      pub protect_page-Refined :
          (flags : MapFlags)
          → Refined src root limit aspace s
              (protect_page v flags)
              (of_edit (protect_4k aspace v flags w))
      protect_page-Refined flags =
          edit-Refined (protect_page v flags) (λ e. some (bit_or (frame_of e) pte))
            (λ m. some (record m { flags = flags })) (λ m. protect_done) protect_missing
            protect_unaligned protect_invalid
            (λ m.
              ap (λ f. some (bit_or f pte))
                (frame_of-or m.frame (flags_to_pte m.flags nxe) (flags_to_pte-IsFlags m.flags nxe)))
            (λ m m' frame. some_frame (record m { flags = flags }) frame m') _
            (protect_4k-Edits w v root limit word low tree_here aspace rep.known flags)
            (rw (protect_4k-edit w aspace v root rep.known flags)
              (edit_page-IsSpace src root limit v low w rep.space (λ e. bit_or (frame_of e) pte)))
            (rw (protect_4k-edit w aspace v root rep.known flags)
              (edit_page-Checked w root v (λ e. bit_or (frame_of e) pte)))
        where
          nxe : Bool
          nxe = w.machine.nxe_enabled

          pte : ℕ
          pte = flags_to_pte flags nxe

-- ===== src/X86/Mmu/Ensure/Local.antt =====
-- `ensure_table` of arch/x86_64/src/mmu.rs touches its own address space and takes one frame.
use mathlib.Core.Path.{subst}
use rincos.Prelude.{
  ℕ, ◌≤◌, ◌<◌, ◌≡◌, refl, sym, false, Bool, Option, none, some, List, length, inl, inr, Bool-cases,
}
use rincos.Hal.Mmu.{Memory, PageTableFrameAlloc}
use rincos.X86.Run.{World}
use rincos.X86.Mmu.Entry.{has, pte_p}
use rincos.X86.Mmu.Table.{entry, ensure_table}
use rincos.X86.Mmu.Table.Laws.{ensure_table-present, ensure_table-none, ensure_table-some}
use rincos.X86.Mmu.Walk.{table_at, bound, IsPath}
use rincos.X86.Mmu.Frames.{Allocated, IsFrameSource}
use rincos.X86.Mmu.Ensure.{IsSpace, zeroed, new_entry, result_origin, result_outside}
use rincos.X86.Mmu.Local.{IsLocal, IsLocal-refl}
use rincos.X86.Mmu.Requests.Keep.{After}

module _ {A : Type 0} {pt : PageTableFrameAlloc A} {h : ℕ} (src : IsFrameSource pt h)
    (root limit : ℕ) {w : World A} (space : IsSpace src root limit w) (is : List ℕ) (i : ℕ) {t : ℕ}
    (deep : length is ≤ 2) (path : IsPath limit is) (small : i < bound limit is)
    (at : table_at w.machine.mem h root is ≡ some t) (user : Bool) where
  Allocated-IsLocal :
      (r : Option ℕ × A × Memory)
      → has (entry w.machine.mem h t i) pte_p ≡ false
      → pt.alloc_frame_4k w.pt_alloc w.machine.mem ≡ r
      → Allocated h src.Avail src.IsSound w.pt_alloc w.machine.mem r
      → After (IsLocal src root limit w) (ensure_table pt t i user w)
  Allocated-IsLocal (none, a, mem) missing e (sound, empty, same) =
      rw (ensure_table-none pt w h space.hhdm t i user a mem missing e) record {
        fewer = λ q av. absurd (empty q av);
        grown = λ u table. inl (rw same at table);
        outside = λ u j fu lt other. rw same refl;
        statics = record { hhdm = refl; kas = refl; handle = refl; slots = refl; nxe = refl };
      }
  Allocated-IsLocal (some f, a, mem) missing e (sound, fewer, frame, own, gone, same) =
      rw (ensure_table-some pt w h space.hhdm t i user f a mem missing e) record {
        fewer = fewer;
        grown = λ u (js, p, found).
            elim (result_origin src root limit space is i deep path small at missing user f frame
              own mem same js p found) [
                | inl new ↦ inr (subst (src.Avail w.pt_alloc) (sym new) own)
                | inr old ↦ inl (js, p, old)
              ];
        outside = λ u j fu lt other.
            unfold zeroed new_entry in
            result_outside src root limit space is i deep path small at missing user f frame own mem
              same u j fu lt (λ e. other (inr (subst (src.Avail w.pt_alloc) (sym e) own)))
              (λ e. other (
                inl (is, path, subst (λ x. table_at w.machine.mem h root is ≡ some x) (sym e) at)));
        statics = record { hhdm = refl; kas = refl; handle = refl; slots = refl; nxe = refl };
      }

  pub ensure_table-IsLocal : After (IsLocal src root limit w) (ensure_table pt t i user w)
  ensure_table-IsLocal = elim (Bool-cases (has (entry w.machine.mem h t i) pte_p)) [
    | inl present ↦
        rw (ensure_table-present pt w h space.hhdm t i user present) (IsLocal-refl src root limit w)
    | inr missing ↦
        Allocated-IsLocal _ missing refl (src.alloc_lem w.pt_alloc w.machine.mem space.sound)
  ]

-- ===== src/X86/Mmu/Ensure.antt =====
-- `ensure_table` of arch/x86_64/src/mmu.rs keeps the tables a tree and every page as it is.
pub mod Local
use mathlib.Core.Path.{subst}
use rincos.Prelude.{
  ℕ, ◌≤◌, ◌<◌, ◌≡◌, ◌≢◌, ◌⊎◌, refl, sym, ap, ◌∙◌, arith, Bool, true, false, Option, none, some,
  List, ◌∷◌, length, inl, inr, Bool-cases, bit_or, bit_and,
}
use rincos.Hal.Mmu.{Memory, MapError, out_of_memory, PageTableFrameAlloc}
use rincos.X86.Run.{World, Run, ok, err, fault}
use rincos.X86.Mmu.Entry.{has, frame_of, pte_p, addr_mask, table_flags}
use rincos.X86.Mmu.Entry.Laws.{IsFrame, frame_of-frame, frame_of-or, has-or, table_flags-IsFlags}
use rincos.X86.Mmu.Table.{entry, store, zero_frame, ensure_table}
use rincos.X86.Mmu.Table.Laws.{ensure_table-present, ensure_table-none, ensure_table-some}
use rincos.X86.Mmu.Walk.{table_at, next_table, entry_at, bound, IsPath, IsTree, table_at-IsFrame}
use rincos.X86.Mmu.Walk.Outside.{
  SameOutside, IsUnused, zero_frame-SameOutside, entry-zero_frame, table_at-outside,
  entry_at-outside, IsTree-outside,
}
use rincos.X86.Mmu.Walk.Install.{table_at-install, IsTree-install, entry_at-install, origin}
use rincos.X86.Mmu.Walk.Store.{index_lt, entry-store_apart}
use rincos.X86.Mmu.Frames.{Allocated, IsFrameSource}

module _ {A : Type 0} {pt : PageTableFrameAlloc A} {h : ℕ} (src : IsFrameSource pt h)
    (root limit : ℕ) where
  -- An address space whose tables below `limit` form a tree, apart from the provider's frames.
  pub record IsSpace (w : World A) : Type 0 where
    pub hhdm : w.machine.hhdm_offset ≡ h
    pub sound : src.IsSound w.pt_alloc
    pub tree : IsTree w.machine.mem h root limit
    pub fresh :
        (js : List ℕ) {u : ℕ}
        → IsPath limit js
        → table_at w.machine.mem h root js ≡ some u
        → ¬ src.Avail w.pt_alloc u

  abbrev pub SamePages : World A → World A → Type 0
  SamePages w w' =
      (js : List ℕ) (j : ℕ)
      → IsPath limit js
      → length js ≡ 3
      → j < 512
      → entry_at w'.machine.mem h root js j ≡ entry_at w.machine.mem h root js j

  -- Nothing of the machine but the memory has changed.
  abbrev pub Kept : World A → World A → Type 0
  Kept w w' = w'.machine ≡ record w.machine { mem = w'.machine.mem }

  abbrev pub Ensured : World A → List ℕ → Run A MapError ℕ → Type 0
  Ensured w path (ok u w') =
      IsSpace w' × (table_at w'.machine.mem h root path ≡ some u) × SamePages w w' × Kept w w'
  Ensured w path (err e w') =
      (e ≡ out_of_memory)
      × ((q : ℕ) → ¬ src.Avail w'.pt_alloc q)
      × IsSpace w'
      × SamePages w w'
      × Kept w w'
  Ensured w path fault = ⊥

  module _ {w : World A} (space : IsSpace w) (is : List ℕ) (i : ℕ) {t : ℕ} (deep : length is ≤ 2)
      (path : IsPath limit is) (small : i < bound limit is)
      (at : table_at w.machine.mem h root is ≡ some t) where
    present_case :
        (user : Bool)
        → has (entry w.machine.mem h t i) pte_p ≡ true
        → Ensured w (i ∷ is) (ensure_table pt t i user w)
    unfolding table_at next_table
    present_case user present =
        rw (ensure_table-present pt w h space.hhdm t i user present)
          (space, rw (at, present) refl, (λ js j p d lt. refl), refl)

    -- The memory after the frame has been zeroed and put in.
    module _ (missing : has (entry w.machine.mem h t i) pte_p ≡ false) (user : Bool) (f : ℕ)
        (frame : IsFrame f) (own : src.Avail w.pt_alloc f) (mem : Memory)
        (same : SameOutside h f w.machine.mem mem) where
      zeroed : Memory
      zeroed = zero_frame mem h f

      new_entry : ℕ
      new_entry = bit_or (bit_and f addr_mask) (table_flags user)

      unused : IsUnused w.machine.mem h root limit f
      unused js p found = space.fresh js p found own

      zeroed_same : SameOutside h f w.machine.mem zeroed
      unfolding zeroed
      zeroed_same u j fu lt ne =
          zero_frame-SameOutside h f mem space.tree.direct_map frame u j fu lt ne
          ∙ same u j fu lt ne

      tree : IsTree zeroed h root limit
      tree = IsTree-outside w.machine.mem zeroed space.tree unused zeroed_same

      kept_table :
          (js : List ℕ)
          → IsPath limit js
          → table_at zeroed h root js ≡ table_at w.machine.mem h root js
      kept_table = table_at-outside w.machine.mem zeroed space.tree unused zeroed_same

      at_zeroed : table_at zeroed h root is ≡ some t
      at_zeroed = kept_table is path ∙ at

      missing_zeroed : has (entry zeroed h t i) pte_p ≡ false
      missing_zeroed =
          rw
            (zeroed_same t i (table_at-IsFrame _ h root is space.tree.root_frame at)
              (index_lt limit is i space.tree.limit_le small)
              (λ e. unused is path (at ∙ ap some e)))
            missing

      IsUnused-zeroed : IsUnused zeroed h root limit f
      IsUnused-zeroed js p found = unused js p (sym (kept_table js p) ∙ found)

      present : has new_entry pte_p ≡ true
      unfolding new_entry frame_of
      present = has-or f (table_flags user) (table_flags-IsFlags user)

      points : frame_of new_entry ≡ f
      unfolding new_entry
      points = unfold frame_of in unmasked ∙ frame_of-frame f frame
        where
          unmasked : frame_of new_entry ≡ frame_of f
          unmasked = unfold frame_of in frame_of-or f (table_flags user) (table_flags-IsFlags user)

      empty : (j : ℕ) → j < 512 → entry zeroed h f j ≡ 0
      unfolding zeroed
      empty j lt = entry-zero_frame h f mem j lt

      result-IsTree : IsTree (store zeroed h t i new_entry) h root limit
      result-IsTree =
          IsTree-install tree is i path small at_zeroed missing_zeroed f new_entry frame present
            points IsUnused-zeroed empty

      result_table : table_at (store zeroed h t i new_entry) h root (i ∷ is) ≡ some f
      result_table =
          table_at-install tree is i path small at_zeroed missing_zeroed f new_entry frame present
            points IsUnused-zeroed empty

      result_pages :
          (js : List ℕ) (j : ℕ)
          → IsPath limit js
          → length js ≡ 3
          → j < 512
          → entry_at (store zeroed h t i new_entry) h root js j ≡ entry_at w.machine.mem h root js j
      result_pages js j p d lt =
          entry_at-install tree is i path small at_zeroed missing_zeroed f new_entry frame present
            points IsUnused-zeroed empty js j p (omega arith) lt
          ∙ entry_at-outside w.machine.mem zeroed space.tree unused zeroed_same js j p lt

      -- A table is the new frame, or was one before.
      pub result_origin :
          (js : List ℕ) {u : ℕ}
          → IsPath limit js
          → table_at
              (store (zero_frame mem h f) h t i (bit_or (bit_and f addr_mask) (table_flags user)))
              h
              root
              js
            ≡ some u
          → (u ≡ f) ⊎ (table_at w.machine.mem h root js ≡ some u)
      unfolding zeroed new_entry
      result_origin js p found =
          elim (origin tree is i path small at_zeroed missing_zeroed f new_entry frame present
            points IsUnused-zeroed empty js p found) [
              | inl (_, new) ↦ inl new
              | inr old ↦ inr (sym (kept_table js p) ∙ old)
            ]

      -- Frames other than the new one and the table above it are as they were.
      pub result_outside :
          (u j : ℕ)
          → IsFrame u
          → j < 512
          → u ≢ f
          → u ≢ t
          → entry
              (store (zero_frame mem h f) h t i (bit_or (bit_and f addr_mask) (table_flags user)))
              h
              u
              j
            ≡ entry w.machine.mem h u j
      unfolding zeroed new_entry
      result_outside u j fu lt not_f not_t =
          entry-store_apart zeroed h t i new_entry u j space.tree.direct_map
            (table_at-IsFrame _ h root is space.tree.root_frame at) fu
            (index_lt limit is i space.tree.limit_le small) lt (λ (same, _). not_t same)
          ∙ zeroed_same u j fu lt not_f

      -- Nothing that the provider has left is a table.
      result_fresh :
          (a : A)
          → ((q : ℕ) → src.Avail a q → src.Avail w.pt_alloc q)
          → ¬ src.Avail a f
          → (js : List ℕ) {u : ℕ} → IsPath limit js
          → table_at (store zeroed h t i new_entry) h root js ≡ some u
          → ¬ src.Avail a u
      unfolding zeroed new_entry
      result_fresh a fewer gone js p found av = elim (result_origin js p found) [
        | inl new ↦ gone (subst (src.Avail a) new av)
        | inr old ↦ space.fresh js p old (fewer _ av)
      ]

    allocated :
        (user : Bool) (r : Option ℕ × A × Memory)
        → has (entry w.machine.mem h t i) pte_p ≡ false
        → pt.alloc_frame_4k w.pt_alloc w.machine.mem ≡ r
        → Allocated h src.Avail src.IsSound w.pt_alloc w.machine.mem r
        → Ensured w (i ∷ is) (ensure_table pt t i user w)
    allocated user (none, a, mem) missing e (sound, empty, same) =
        rw (ensure_table-none pt w h space.hhdm t i user a mem missing e) (
          refl,
          empty,
          record {
            hhdm = space.hhdm;
            sound = sound;
            tree = rw same space.tree;
            fresh = λ js p found av. absurd (empty _ av);
          },
          (λ js j p d lt. rw same refl),
          refl,
        )
    allocated user (some f, a, mem) missing e (sound, fewer, frame, own, gone, same) =
        rw (ensure_table-some pt w h space.hhdm t i user f a mem missing e) (
          record {
            hhdm = space.hhdm;
            sound = sound;
            tree = unfold zeroed new_entry in result-IsTree missing user f frame own mem same;
            fresh =
                unfold zeroed new_entry in
                result_fresh missing user f frame own mem same a fewer gone;
          },
          unfold zeroed new_entry in result_table missing user f frame own mem same,
          unfold zeroed new_entry in result_pages missing user f frame own mem same,
          refl,
        )

    -- `ensure_table` returns the table below the entry, new or old. The tables stay a tree, no page
    -- changes, and it fails only where the provider has no frame left.
    pub ensure_table-Ensured : (user : Bool) → Ensured w (i ∷ is) (ensure_table pt t i user w)
    ensure_table-Ensured user = elim (Bool-cases (has (entry w.machine.mem h t i) pte_p)) [
      | inl present ↦ present_case user present
      | inr missing ↦
          allocated user _ missing refl (src.alloc_lem w.pt_alloc w.machine.mem space.sound)
    ]

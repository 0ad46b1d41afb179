-- ===== src/X86/Mmu/Local.antt =====
-- What an operation of arch/x86_64/src/mmu.rs on one address space may touch: the tables of that
-- space and the frames that the provider has left.
pub mod Map
pub mod Edits
use mathlib.Core.Path.{subst}
use rincos.Prelude.{ℕ, ◌≤◌, ◌<◌, ◌≡◌, ◌⊎◌, ◌∙◌, refl, sym, arith, some, List, inl, inr, length}
use rincos.Hal.Mmu.{PageTableFrameAlloc}
use rincos.X86.Machine.{Event}
use rincos.X86.Run.{World}
use rincos.X86.Mmu.Entry.Laws.{IsFrame}
use rincos.X86.Mmu.Table.{entry, store}
use rincos.X86.Mmu.Walk.{table_at, entry_at, bound, IsPath, table_at-IsFrame}
use rincos.X86.Mmu.Walk.Store.{entry-store_apart, index_lt}
use rincos.X86.Mmu.Walk.Leaf.{table_at-store_leaf}
use rincos.X86.Mmu.Walk.Outside.{table_at-kept, entry_at-kept, IsTree-kept}
use rincos.X86.Mmu.Frames.{IsFrameSource}
use rincos.X86.Mmu.Ensure.{IsSpace}

-- The frame holds a table of the address space.
abbrev pub IsTable : {A : Type 0} → ℕ → ℕ → ℕ → World A → ℕ → Type 0
IsTable h root limit w u =
    (js : List ℕ) × IsPath limit js × (table_at w.machine.mem h root js ≡ some u)

-- Beside the memory, which the records below deal with, only events may be new.
pub record SameStatics {A : Type 0} (w w' : World A) : Type 0 where
  pub hhdm : w'.machine.hhdm_offset ≡ w.machine.hhdm_offset
  pub kas : w'.machine.kas ≡ w.machine.kas
  pub handle : w'.machine.kas_handle ≡ w.machine.kas_handle
  pub slots : w'.machine.as_slots ≡ w.machine.as_slots
  pub nxe : w'.machine.nxe_enabled ≡ w.machine.nxe_enabled

module _ {A : Type 0} {pt : PageTableFrameAlloc A} {h : ℕ} (src : IsFrameSource pt h)
    (root limit : ℕ) where
  -- The frame belongs to the address space, or may still come to.
  abbrev pub IsOwned : World A → ℕ → Type 0
  IsOwned w u = IsTable h root limit w u ⊎ src.Avail w.pt_alloc u

  pub record IsLocal (w w' : World A) : Type 0 where
    pub fewer : (q : ℕ) → src.Avail w'.pt_alloc q → src.Avail w.pt_alloc q
    pub grown : (u : ℕ) → IsTable h root limit w' u → IsOwned w u
    pub outside :
        (u j : ℕ)
        → IsFrame u
        → j < 512
        → ¬ IsOwned w u
        → entry w'.machine.mem h u j ≡ entry w.machine.mem h u j
    pub statics : SameStatics w w'

  pub IsLocal-refl : (w : World A) → IsLocal w w
  IsLocal-refl w = record {
    fewer = λ q av. av;
    grown = λ u table. inl table;
    outside = λ u j fu lt other. refl;
    statics = record { hhdm = refl; kas = refl; handle = refl; slots = refl; nxe = refl };
  }

  pub IsLocal-trans : {w w' w'' : World A} → IsLocal w w' → IsLocal w' w'' → IsLocal w w''
  IsLocal-trans {w} {w'} {w''} a b = record {
    fewer = λ q av. a.fewer q (b.fewer q av);
    grown = λ u table. owned u (b.grown u table);
    outside = λ u j fu lt other.
        b.outside u j fu lt (λ own. other (owned u own)) ∙ a.outside u j fu lt other;
    statics = record {
      hhdm = b.statics.hhdm ∙ a.statics.hhdm;
      kas = b.statics.kas ∙ a.statics.kas;
      handle = b.statics.handle ∙ a.statics.handle;
      slots = b.statics.slots ∙ a.statics.slots;
      nxe = b.statics.nxe ∙ a.statics.nxe;
    };
  }
    where
      owned : (u : ℕ) → IsOwned w' u → IsOwned w u
      owned u (inl table) = a.grown u table
      owned u (inr av) = inr (a.fewer u av)

  -- A write to an entry of a last-level table of the address space.
  pub store_leaf-IsLocal :
      (w : World A) (is : List ℕ) (i : ℕ) {t : ℕ}
      → IsSpace src root limit w
      → length is ≡ 3
      → IsPath limit is
      → i < bound limit is
      → table_at w.machine.mem h root is ≡ some t
      → (e : ℕ) (events : List Event)
      → IsLocal w (record w {
        machine = record w.machine { mem = store w.machine.mem h t i e; events = events };
      })
  store_leaf-IsLocal w is i {t} space deep path small at e events = record {
    fewer = λ q av. av;
    grown = λ u (js, p, found).
        inl (js, p, sym (table_at-store_leaf space.tree is i deep path small at e js p) ∙ found);
    outside = λ u j fu lt other.
        entry-store_apart w.machine.mem h t i e u j space.tree.direct_map
          (table_at-IsFrame _ h root is space.tree.root_frame at) fu
          (index_lt limit is i space.tree.limit_le small) lt
          λ (same, _).
            other (
              inl (is, path, subst (λ x. table_at w.machine.mem h root is ≡ some x) (sym same) at));
    statics = record { hhdm = refl; kas = refl; handle = refl; slots = refl; nxe = refl };
  }

-- An address space that does not own the frames of another.
module _ {A : Type 0} {pt : PageTableFrameAlloc A} {h : ℕ} (src : IsFrameSource pt h)
    {root limit : ℕ} {w : World A} (space : IsSpace src root limit w) (w' : World A)
    (same : (u j : ℕ)
      → IsTable h root limit w u
      → j < 512
      → entry w'.machine.mem h u j ≡ entry w.machine.mem h u j) where
  pub IsTable-kept : (u : ℕ) → IsTable h root limit w' u → IsTable h root limit w u
  IsTable-kept u (js, p, found) = (
    js,
    p,
    sym (
          table_at-kept w.machine.mem w'.machine.mem space.tree
            (λ k j v q lt at. same v j (k, q, at) lt) js p)
        ∙ found,
  )

  pub SamePages-kept :
      (js : List ℕ) (j : ℕ)
      → IsPath limit js
      → j < 512
      → entry_at w'.machine.mem h root js j ≡ entry_at w.machine.mem h root js j
  SamePages-kept =
      entry_at-kept w.machine.mem w'.machine.mem space.tree
        (λ k j v q lt at. same v j (k, q, at) lt)

  pub IsSpace-kept :
      w'.machine.hhdm_offset ≡ w.machine.hhdm_offset
      → src.IsSound w'.pt_alloc
      → ((q : ℕ) → src.Avail w'.pt_alloc q → ¬ IsTable h root limit w q)
      → IsSpace src root limit w'
  IsSpace-kept hhdm sound apart = record {
    hhdm = hhdm ∙ space.hhdm;
    sound = sound;
    tree =
        IsTree-kept w.machine.mem w'.machine.mem space.tree
          (λ k j v q lt at. same v j (k, q, at) lt);
    fresh = λ js {u} p found av. apart u av (IsTable-kept u (js, p, found));
  }

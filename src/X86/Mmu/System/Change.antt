-- ===== src/X86/Mmu/System/Change.antt =====
-- One address space of arch/x86_64/src/mmu.rs is made, changed or ended, and the others stay.
use mathlib.Core.Path.{subst}
use native.Mathlib.Decide.{ℕ_discrete}
use rincos.Prelude.{ℕ, ◌<◌, ◌≡◌, ◌≢◌, ◌∙◌, refl, sym, ap, some, List, get_elem?}
use rincos.Hal.Mmu.{AddressSpace, kernel, slot, dangling, PageTableFrameAlloc}
use rincos.X86.Run.{World}
use rincos.X86.Mmu.Table.{entry}
use rincos.X86.Mmu.Walk.{entry_at, IsPath}
use rincos.X86.Mmu.Frames.{IsFrameSource}
use rincos.X86.Mmu.Ensure.{IsSpace}
use rincos.X86.Mmu.Page.{root_of}
use rincos.X86.Mmu.Local.{IsTable, IsTable-kept, SamePages-kept, IsSpace-kept}
use rincos.X86.Mmu.Slots.Laws.{IsNamed}
use rincos.X86.Mmu.System.{IsLive, limit_of, IsSystem}

slot-injective : (i j : ℕ) → slot i ≡ slot j → i ≡ j
slot-injective i j e = cc

pub address_space_discrete : Discrete AddressSpace
address_space_discrete kernel kernel = yes refl
address_space_discrete kernel (slot j) = no (λ e. cc)
address_space_discrete kernel dangling = no (λ e. cc)
address_space_discrete (slot i) kernel = no (λ e. cc)
address_space_discrete (slot i) (slot j) = elim (ℕ_discrete i j) [
  | yes e ↦ yes (ap slot e)
  | no ne ↦ no (λ e. ne (slot-injective i j e))
]
address_space_discrete (slot i) dangling = no (λ e. cc)
address_space_discrete dangling kernel = no (λ e. cc)
address_space_discrete dangling (slot j) = no (λ e. cc)
address_space_discrete dangling dangling = yes refl

module _ {A : Type 0} where
  pub IsLive-root_of :
      (w : World A) (a : AddressSpace) (root : ℕ)
      → IsLive w a root
      → root_of w.machine a ≡ some root
  unfolding root_of
  IsLive-root_of w kernel root live = live
  IsLive-root_of w (slot k) root (s, at, busy, root_eq) = rw (at, root_of) (ap some root_eq)
  IsLive-root_of w dangling root live = elim live [ ]

  pub IsLive-unique :
      (w : World A) (a : AddressSpace) (r s : ℕ) → IsLive w a r → IsLive w a s → r ≡ s
  IsLive-unique w a r s x y = cc (IsLive-root_of w a r x, IsLive-root_of w a s y)

  pub IsLive-same :
      (w w' : World A) (a : AddressSpace) (root : ℕ)
      → w'.machine.kas ≡ w.machine.kas
      → w'.machine.as_slots ≡ w.machine.as_slots
      → IsLive w a root
      → IsLive w' a root
  IsLive-same w w' kernel root kas slots live = kas ∙ live
  IsLive-same w w' (slot k) root kas slots (s, at, busy, root_eq) =
      (s, ap (λ xs. get_elem? xs k) slots ∙ at, busy, root_eq)
  IsLive-same w w' dangling root kas slots live = elim live [ ]

module _ {A : Type 0} {pt : PageTableFrameAlloc A} {h : ℕ} (src : IsFrameSource pt h)
    (top : ℕ) where
  -- The other address spaces and their tables are as they were, and `a` owns none of them.
  pub record IsChange (a : AddressSpace) (w w' : World A) : Type 0 where
    pub hhdm : w'.machine.hhdm_offset ≡ w.machine.hhdm_offset
    pub sound : src.IsSound w'.pt_alloc
    pub begun : (root : ℕ) × IsLive w' kernel root
    pub handle : w'.machine.kas_handle ≡ w.machine.kas_handle
    pub nxe : w'.machine.nxe_enabled ≡ w.machine.nxe_enabled
    pub named : IsNamed 0 w'.machine.as_slots
    pub old : (b : AddressSpace) (r : ℕ) → b ≢ a → IsLive w' b r → IsLive w b r
    pub stays : (b : AddressSpace) (r : ℕ) → b ≢ a → IsLive w b r → IsLive w' b r
    pub same :
        (b : AddressSpace) (r u j : ℕ)
        → b ≢ a
        → IsLive w b r
        → IsTable h r (limit_of top b) w u
        → j < 512
        → entry w'.machine.mem h u j ≡ entry w.machine.mem h u j
    pub fresh :
        (b : AddressSpace) (r u : ℕ)
        → b ≢ a
        → IsLive w b r
        → src.Avail w'.pt_alloc u
        → ¬ IsTable h r (limit_of top b) w u
    pub own : (r : ℕ) → IsLive w' a r → IsSpace src r (limit_of top a) w'
    pub own_apart :
        (b : AddressSpace) (r s u : ℕ)
        → b ≢ a
        → IsLive w' a r
        → IsLive w b s
        → IsTable h r (limit_of top a) w' u
        → ¬ IsTable h s (limit_of top b) w u

  -- The address space is there as before, with every page that it had.
  abbrev pub IsSpared : World A → World A → AddressSpace → Type 0
  IsSpared w w' b =
      (r : ℕ)
      → IsLive w b r
      → IsLive w' b r
        × ((js : List ℕ) (j : ℕ)
            → IsPath (limit_of top b) js
            → j < 512
            → entry_at w'.machine.mem h r js j ≡ entry_at w.machine.mem h r js j)

  module _ (a : AddressSpace) (w w' : World A) (sys : IsSystem src top w)
      (change : IsChange a w w') where
    pub change-IsSpared : (b : AddressSpace) → b ≢ a → IsSpared w w' b
    change-IsSpared b other r live = (
      change.stays b r other live,
      SamePages-kept src (sys.spaces b r live) w' (λ u j. change.same b r u j other live),
    )

    was_table :
        (b : AddressSpace) (r u : ℕ)
        → b ≢ a
        → IsLive w b r
        → IsTable h r (limit_of top b) w' u
        → IsTable h r (limit_of top b) w u
    was_table b r u other live =
        IsTable-kept src (sys.spaces b r live) w' (λ v j. change.same b r v j other live) u

    pub change-IsSystem : IsSystem src top w'
    change-IsSystem = record {
      hhdm = change.hhdm ∙ sys.hhdm;
      sound = change.sound;
      direct_map = sys.direct_map;
      begun = change.begun;
      handle = change.handle ∙ sys.handle;
      named = change.named;
      spaces = λ b r live. elim (address_space_discrete a b) [
        | yes same ↦
            subst (λ x. IsLive w' x r → IsSpace src r (limit_of top x) w') same (change.own r) live
        | no ne ↦ kept_space b r (λ e. ne (sym e)) live
      ];
      apart = λ b c r s u live_b live_c table_b table_c. elim (address_space_discrete a b) [
        | yes is_b ↦ elim (address_space_discrete a c) [
          | yes is_c ↦ sym is_b ∙ is_c
          | no not_c ↦ absurd (
              with_own c r s u (λ e. not_c (sym e)) (subst (λ x. IsLive w' x r) (sym is_b) live_b)
                live_c (subst (λ x. IsTable h r (limit_of top x) w' u) (sym is_b) table_b) table_c)
        ]
        | no not_b ↦ elim (address_space_discrete a c) [
          | yes is_c ↦ absurd (
              with_own b s r u (λ e. not_b (sym e)) (subst (λ x. IsLive w' x s) (sym is_c) live_c)
                live_b (subst (λ x. IsTable h s (limit_of top x) w' u) (sym is_c) table_c) table_b)
          | no not_c ↦
              both_old b c r s u (λ e. not_b (sym e)) (λ e. not_c (sym e)) live_b live_c table_b
                table_c
        ]
      ];
    }
      where
        kept_space :
            (b : AddressSpace) (r : ℕ) → b ≢ a → IsLive w' b r → IsSpace src r (limit_of top b) w'
        kept_space b r other live =
            let before : IsLive w b r = change.old b r other live in
            IsSpace-kept src (sys.spaces b r before) w' (λ u j. change.same b r u j other before)
              change.hhdm change.sound (λ q. change.fresh b r q other before)

        with_own :
            (b : AddressSpace) (r s u : ℕ)
            → b ≢ a
            → IsLive w' a r
            → IsLive w' b s
            → IsTable h r (limit_of top a) w' u
            → ¬ IsTable h s (limit_of top b) w' u
        with_own b r s u other live live_b table table_b =
            let before : IsLive w b s = change.old b s other live_b in
            change.own_apart b r s u other live before table (was_table b s u other before table_b)

        both_old :
            (b c : AddressSpace) (r s u : ℕ)
            → b ≢ a
            → c ≢ a
            → IsLive w' b r
            → IsLive w' c s
            → IsTable h r (limit_of top b) w' u
            → IsTable h s (limit_of top c) w' u
            → b ≡ c
        both_old b c r s u nb nc live_b live_c table_b table_c =
            let before_b : IsLive w b r = change.old b r nb live_b in
            let before_c : IsLive w c s = change.old c s nc live_c in
            sys.apart b c r s u before_b before_c (was_table b r u nb before_b table_b)
              (was_table c s u nc before_c table_c)

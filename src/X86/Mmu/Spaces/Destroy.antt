-- ===== src/X86/Mmu/Spaces/Destroy.antt =====
-- `address_space_destroy` of arch/x86_64/src/mmu.rs gives every table back once.
use mathlib.Core.Path.{subst}
use rincos.Prelude.{
  ℕ, zero, suc, ◌+◌, ◌≤◌, ◌<◌, ◌≡◌, ◌⊎◌, arith, refl, sym, ap, ◌∙◌, inl, inr, some, List, ◌∷◌,
  Bool-cases,
}
use rincos.Hal.Mmu.{Memory, PageTableFrameAlloc}
use rincos.X86.Mmu.Entry.{has, frame_of, pte_p, pte_ps}
use rincos.X86.Mmu.Table.{entry}
use rincos.X86.Mmu.Walk.{table_at, next_table, IsPath, IsTree, table_at-IsFrame}
use rincos.X86.Mmu.Frames.{IsFrameSource}
use rincos.X86.Mmu.Spaces.{for_each, if_table}
use rincos.X86.Mmu.Spaces.Under.{Under, Under-self, Under-eq, Under-parent, Under-index, not-Under}

module _ {A : Type 0} {pt : PageTableFrameAlloc A} {h : ℕ} (src : IsFrameSource pt h) (a0 : A)
    (mem : Memory) (root limit : ℕ) where
  -- The frames of the tables at the paths `done` have been given back to the provider.
  pub record Freed (done : List ℕ → Type 0) (a : A) : Type 0 where
    pub sound : src.IsSound a
    pub from :
        (q : ℕ)
        → src.Avail a q
        → src.Avail a0 q
          ⊎ ((js : List ℕ) × done js × IsPath limit js × (table_at mem h root js ≡ some q))

  weaken :
      {done done' : List ℕ → Type 0} {a : A}
      → ((js : List ℕ) → done js → done' js)
      → Freed done a
      → Freed done' a
  weaken more freed = record {
    sound = freed.sound;
    from = λ q avail. elim (freed.from q avail) [
      | inl old ↦ inl old
      | inr (js, d, path, at) ↦ inr (js, more js d, path, at)
    ];
  }

  module _ (tree : IsTree mem h root limit)
      (fresh : (js : List ℕ) (u : ℕ)
        → IsPath limit js
        → table_at mem h root js ≡ some u
        → ¬ src.Avail a0 u) where
    free_one :
        (done : List ℕ → Type 0) (a : A) (top : List ℕ) (f : ℕ)
        → Freed done a
        → IsPath limit top
        → table_at mem h root top ≡ some f
        → ¬ (done top)
        → Freed (λ js. done js ⊎ (js ≡ top)) (pt.free_frame_4k a f)
    free_one done a top f freed path at undone =
        let frame = table_at-IsFrame mem h root top tree.root_frame at in
        let (sound, only) = src.free_lem a f freed.sound frame (not_yet freed) in
        record {
          sound = sound;
          from = λ q avail. elim (only q avail) [
            | inl old ↦ elim (freed.from q old) [
              | inl before ↦ inl before
              | inr (js, d, path', at') ↦ inr (js, inl d, path', at')
            ]
            | inr same ↦ inr (top, inr refl, path, at ∙ ap some (sym same))
          ];
        }
      where
        not_yet : Freed done a → ¬ (src.Avail a f)
        not_yet freed avail = elim (freed.from f avail) [
          | inl before ↦ fresh top f path at before
          | inr (js, d, path', at') ↦ undone (subst done (tree.distinct js top path' path at' at) d)
        ]

    -- `proc` gives back the tables at `top` and below it, where none of them has been before.
    abbrev pub Frees : List ℕ → (A → A) → Type 1
    Frees top proc =
        (done : List ℕ → Type 0) (a : A)
        → Freed done a
        → ((js : List ℕ) → Under top js → ¬ (done js))
        → Freed (λ js. done js ⊎ Under top js) (proc a)

    at_top :
        (done : List ℕ → Type 0) (top js : List ℕ) → done js ⊎ (js ≡ top) → done js ⊎ Under top js
    at_top done top js (inl d) = inl d
    at_top done top js (inr e) = inr (Under-eq top js e)

    pub leaf-Frees :
        (top : List ℕ) (f : ℕ)
        → IsPath limit top
        → table_at mem h root top ≡ some f
        → Frees top (λ a. pt.free_frame_4k a f)
    leaf-Frees top f path at done a freed undone =
        weaken (at_top done top) (free_one done a top f freed path at (undone top (Under-self top)))

    module _ (top : List ℕ) (t : ℕ) (at : table_at mem h root top ≡ some t) (act : ℕ → A → A) where
      -- The paths through the entries from `i` up to `i + left`.
      abbrev Passed : ℕ → ℕ → List ℕ → Type 0
      Passed i left js = (k : ℕ) × (i ≤ k) × (k < i + left) × Under (k ∷ top) js

      if_table-Frees :
          (i : ℕ)
          → ((f : ℕ) → table_at mem h root (i ∷ top) ≡ some f → Frees (i ∷ top) (act f))
          → Frees (i ∷ top) (if_table mem h act (entry mem h t i))
      unfolding if_table table_at next_table
      if_table-Frees i child done a freed undone = elim (Bool-cases (has (entry mem h t i) pte_p)) [
        | inr absent ↦ rw absent (weaken (λ js d. inl d) freed)
        | inl present ↦ elim (Bool-cases (has (entry mem h t i) pte_ps)) [
          | inl large ↦ rw (present, large) (weaken (λ js d. inl d) freed)
          | inr small ↦
              rw (present, small)
                (child (frame_of (entry mem h t i)) (rw (at, present) refl) done a freed undone)
        ]
      ]

      Passed-more :
          (done : List ℕ → Type 0) (i left : ℕ) (js : List ℕ)
          → (done js ⊎ Under (i ∷ top) js) ⊎ Passed (i + 1) left js
          → done js ⊎ Passed i (suc left) js
      Passed-more done i left js (inl (inl d)) = inl d
      Passed-more done i left js (inl (inr under)) = inr (i, omega arith, omega arith, under)
      Passed-more done i left js (inr (k, le, lt, under)) =
          inr (k, omega (arith, le), omega (arith, lt), under)

      not_again :
          (done : List ℕ → Type 0) (i left : ℕ)
          → ((k : ℕ) (js : List ℕ) → i ≤ k → k < i + suc left → Under (k ∷ top) js → ¬ (done js))
          → (k : ℕ) (js : List ℕ) → i + 1 ≤ k
          → k < i + 1 + left
          → Under (k ∷ top) js
          → ¬ (done js ⊎ Under (i ∷ top) js)
      not_again done i left undone k js le lt under (inl d) =
          undone k js (omega (arith, le)) (omega (arith, lt)) under d
      not_again done i left undone k js le lt under (inr here) =
          omega (arith, le, Under-index i k top js here under)

      loop-Freed :
          (i left : ℕ)
          → ((k f : ℕ)
              → i ≤ k
              → k < i + left
              → table_at mem h root (k ∷ top) ≡ some f
              → Frees (k ∷ top) (act f))
          → (done : List ℕ → Type 0) (a : A) → Freed done a
          → ((k : ℕ) (js : List ℕ) → i ≤ k → k < i + left → Under (k ∷ top) js → ¬ (done js))
          → Freed
              (λ js. done js ⊎ Passed i left js)
              (for_each mem h t (if_table mem h act) i left a)
      unfolding for_each
      loop-Freed i zero child done a freed undone = weaken (λ js d. inl d) freed
      loop-Freed i (suc left) child done a freed undone = weaken (Passed-more done i left) (
          loop-Freed (i + 1) left (λ k f le lt. child k f (omega (arith, le)) (omega (arith, lt)))
            (λ js. done js ⊎ Under (i ∷ top) js) (if_table mem h act (entry mem h t i) a)
            (if_table-Frees i (λ f. child i f (omega arith) (omega arith)) done a freed
              (λ js. undone i js (omega arith) (omega arith)))
            (not_again done i left undone))

      -- A table, after the tables below its first `n` entries.
      pub node-Frees :
          (n : ℕ)
          → IsPath limit top
          → ((k f : ℕ) → k < n → table_at mem h root (k ∷ top) ≡ some f → Frees (k ∷ top) (act f))
          → Frees top (λ a. pt.free_frame_4k (for_each mem h t (if_table mem h act) 0 n a) t)
      node-Frees n path child done a freed undone = weaken (all_under done n) (
          free_one (λ js. done js ⊎ Passed 0 n js) (for_each mem h t (if_table mem h act) 0 n a) top
            t
            (loop-Freed 0 n (λ k f _ lt. child k f (omega (arith, lt))) done a freed
              (λ k js _ _ under. undone js (Under-parent k top js under)))
            path at (top_last done n undone))
        where
          top_last :
              (done : List ℕ → Type 0) (n : ℕ)
              → ((js : List ℕ) → Under top js → ¬ (done js))
              → ¬ (done top ⊎ Passed 0 n top)
          top_last done n undone (inl d) = undone top (Under-self top) d
          top_last done n undone (inr (k, _, _, under)) = not-Under k top top refl under

          all_under :
              (done : List ℕ → Type 0) (n : ℕ) (js : List ℕ)
              → (done js ⊎ Passed 0 n js) ⊎ (js ≡ top)
              → done js ⊎ Under top js
          all_under done n js (inl (inl d)) = inl d
          all_under done n js (inl (inr (k, _, _, under))) = inr (Under-parent k top js under)
          all_under done n js (inr e) = inr (Under-eq top js e)

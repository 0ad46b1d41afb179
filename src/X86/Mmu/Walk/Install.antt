-- ===== src/X86/Mmu/Walk/Install.antt =====
-- A missing table is put in: an empty frame below an entry that was not present.
use native.Mathlib.Decide.{ℕ_discrete}
use mathlib.Core.Path.{ap₂, subst}
use rincos.Prelude.{
  ℕ, ◌<◌, ◌≡◌, refl, arith, none, some, List, [], ◌∷◌, length, ◌⊎◌, inl, inr, Option-cases, true,
  false, sym, ◌∙◌, ap, ◌≢◌,
}
use rincos.Hal.Mmu.{Memory}
use rincos.X86.Mmu.Entry.{has, frame_of, pte_p}
use rincos.X86.Mmu.Entry.Laws.{zero-has, IsFrame}
use rincos.X86.Mmu.Table.{entry, store}
use rincos.X86.Mmu.Walk.{
  table_at, next_table, entry_at, bound, IsPath, IsTree, entry_at-some, entry_at-none,
  present_entry, table_at-IsFrame,
}
use rincos.X86.Mmu.Walk.Store.{
  Through, Through-longer, table_at-store, entry-store_ne, entry-store_self, entry-store_apart,
  index_lt,
}
use rincos.X86.Mmu.Walk.Outside.{IsUnused}

list_discrete : Discrete (List ℕ)
list_discrete = hlevel ℕ_discrete

Through-dec : (is : List ℕ) (i : ℕ) (js : List ℕ) → Through is i js ⊎ (¬ Through is i js)
Through-dec is i [] = inr (λ x. x)
Through-dec is i (j ∷ js) = elim (Through-dec is i js) [
  | inl x ↦ inl (inr x)
  | inr below ↦ elim (ℕ_discrete j i) [
    | no ne ↦ inr (λ x. elim x [ inl (e, _) ↦ ne e | inr y ↦ below y ])
    | yes e ↦ elim (list_discrete js is) [
      | yes e' ↦ inl (inl (e, e'))
      | no ne ↦ inr (λ x. elim x [ inl (_, e') ↦ ne e' | inr y ↦ below y ])
    ]
  ]
]

module _ {mem : Memory} {h root limit : ℕ} (tree : IsTree mem h root limit) (is : List ℕ) (i : ℕ)
    {t : ℕ} (path : IsPath limit is) (small : i < bound limit is)
    (at : table_at mem h root is ≡ some t) (missing : has (entry mem h t i) pte_p ≡ false) (f e : ℕ)
    (frame : IsFrame f) (present : has e pte_p ≡ true) (points : frame_of e ≡ f)
    (unused : IsUnused mem h root limit f) (empty : (j : ℕ) → j < 512 → entry mem h f j ≡ 0) where
  before : (js : List ℕ) → Through is i js → table_at mem h root js ≡ none
  unfolding table_at next_table
  before [] x = elim x [ ]
  before (j ∷ js) (inl (ej, ejs)) = rw (ejs, at, ej, missing) refl
  before (j ∷ js) (inr x) = rw (before js x) refl

  not_self : ¬ Through is i is
  not_self x = omega (arith, Through-longer is i is x)

  ne : f ≢ t
  ne same = unused is path (at ∙ ap some (sym same))

  root-IsFrame : (js : List ℕ) {u : ℕ} → table_at mem h root js ≡ some u → IsFrame u
  root-IsFrame js found = table_at-IsFrame mem h root js tree.root_frame found

  new_entry_zero : (j : ℕ) → j < 512 → entry (store mem h t i e) h f j ≡ 0
  new_entry_zero j lt =
      entry-store_apart mem h t i e f j tree.direct_map (root-IsFrame is at) frame
        (index_lt limit is i tree.limit_le small) lt (λ x. ne x.0)
      ∙ empty j lt

  -- What a path through the entry leads to afterwards.
  abbrev Installed : List ℕ → Type 0
  Installed js =
      (table_at (store mem h t i e) h root js ≡ none)
      ⊎ ((js ≡ i ∷ is) × (table_at (store mem h t i e) h root js ≡ some f))

  pub table_at-install : table_at (store mem h t i e) h root (i ∷ is) ≡ some f
  unfolding table_at next_table
  table_at-install =
      rw
        (
          table_at-store tree is i path small at e is path not_self,
          at,
          entry-store_self mem h t i e,
          present,
          points,
        )
        refl

  below_new :
      (j : ℕ) (js : List ℕ)
      → j < 512
      → table_at (store mem h t i e) h root js ≡ some f
      → table_at (store mem h t i e) h root (j ∷ js) ≡ none
  unfolding table_at next_table
  below_new j js lt found = rw (found, new_entry_zero j lt, zero-has) refl

  after : (js : List ℕ) → IsPath limit js → Through is i js → Installed js
  unfolding table_at
  after [] p x = elim x [ ]
  after (j ∷ js) p (inl (ej, ejs)) =
      let same = ap₂ ◌∷◌ ej ejs in
      inr (
        same,
        subst (λ ks. table_at (store mem h t i e) h root ks ≡ some f) (sym same) table_at-install,
      )
  after (j ∷ js) p (inr x) = elim (after js (omega arith, p.1.1) x) [
    | inl gone ↦ inl (rw gone refl)
    | inr (_, found) ↦ inl (below_new j js (index_lt limit js j tree.limit_le p.1.0) found)
  ]

  -- A table that is there afterwards is the new one, or was there before.
  abbrev pub Origin : List ℕ → ℕ → Type 0
  Origin js u = ((js ≡ i ∷ is) × (u ≡ f)) ⊎ (table_at mem h root js ≡ some u)

  pub origin :
      (js : List ℕ) {u : ℕ}
      → IsPath limit js
      → table_at (store mem h t i e) h root js ≡ some u
      → Origin js u
  origin js p found = elim (Through-dec is i js) [
    | inr apart ↦ inr (rw (table_at-store tree is i path small at e js p apart) at found)
    | inl x ↦ elim (after js p x) [
      | inl gone ↦ absurd (ground arith)
      | inr (same, new) ↦ inl (same, ground arith)
    ]
  ]

  pub IsTree-install : IsTree (store mem h t i e) h root limit
  IsTree-install = record {
    root_frame = tree.root_frame;
    direct_map = tree.direct_map;
    limit_le = tree.limit_le;
    distinct = λ js ks p q a b. same js ks p q (origin js p a) (origin ks q b);
  }
    where
      same :
          (js ks : List ℕ) {u : ℕ}
          → IsPath limit js
          → IsPath limit ks
          → Origin js u
          → Origin ks u
          → js ≡ ks
      same js ks p q (inl (a, _)) (inl (b, _)) = a ∙ sym b
      same js ks p q (inl (_, new)) (inr b) = absurd (unused ks q (b ∙ ap some new))
      same js ks p q (inr a) (inl (_, new)) = absurd (unused js p (a ∙ ap some new))
      same js ks p q (inr a) (inr b) = tree.distinct js ks p q a b

  -- The pages, at paths longer than the one to the written entry, are the same.
  pub entry_at-install :
      (js : List ℕ) (j : ℕ)
      → IsPath limit js
      → length is < length js
      → j < 512
      → entry_at (store mem h t i e) h root js j ≡ entry_at mem h root js j
  unfolding present_entry
  entry_at-install js j p longer lt = elim (Through-dec is i js) [
    | inl x ↦ through x (after js p x)
    | inr apart ↦
        let kept = table_at-store tree is i path small at e js p apart in
        elim (Option-cases (table_at mem h root js)) [
          | inl gone ↦
              entry_at-none _ h root js j (kept ∙ gone) ∙ sym (entry_at-none mem h root js j gone)
          | inr (u, found) ↦
              entry_at-some _ h root js j (kept ∙ found)
              ∙ rw (entry-store_ne tree is i path small at e js j p lt found shorter) refl
              ∙ sym (entry_at-some mem h root js j found)
        ]
  ]
    where
      shorter : ¬ ((j ≡ i) × (js ≡ is))
      shorter (_, same) = omega (arith, ap length same)

      through :
          Through is i js
          → Installed js
          → entry_at (store mem h t i e) h root js j ≡ entry_at mem h root js j
      through x (inl gone) =
          entry_at-none _ h root js j gone ∙ sym (entry_at-none mem h root js j (before js x))
      through x (inr (_, new)) =
          entry_at-some _ h root js j new
          ∙ rw (new_entry_zero j lt, zero-has) (sym (entry_at-none mem h root js j (before js x)))

-- ===== src/X86/Mmu/Walk/Store.antt =====
-- A write to one entry changes what lies through that entry, and nothing else.
use rincos.Prelude.{
  ◌%◌, ℕ, ◌≤◌, ◌<◌, ◌≡◌, refl, ap, sym, arith, some, List, [], ◌∷◌, length, ◌⊎◌, inl, inr,
  Option-cases, Bool-cases, ◌==◌, ◌∙◌,
}
use rincos.Hal.Mmu.{Memory}
use rincos.X86.Mmu.Entry.Laws.{IsFrame}
use rincos.X86.Mmu.Table.{entry, slot_of, store}
use rincos.X86.Mmu.Walk.{
  table_at, next_table, bound, IsPath, IsTree, table_at-IsFrame, slot_of-injective,
}

-- The path `js` leads through entry `i` of the table at `is`.
abbrev pub Through : List ℕ → ℕ → List ℕ → Type 0
Through is i [] = ⊥
Through is i (j ∷ js) = ((j ≡ i) × (js ≡ is)) ⊎ Through is i js

pub Through-longer : (is : List ℕ) (i : ℕ) (js : List ℕ) → Through is i js → length is < length js
Through-longer is i [] x = elim x [ ]
Through-longer is i (j ∷ js) (inl (_, e)) = omega (arith, ap length e)
Through-longer is i (j ∷ js) (inr t) = omega (arith, Through-longer is i js t)

pub index_lt : (limit : ℕ) (is : List ℕ) (i : ℕ) → limit ≤ 512 → i < bound limit is → i < 512
index_lt limit [] i h lt = omega arith
index_lt limit (j ∷ is) i h lt = lt

pub entry-store_self : (mem : Memory) (h t i e : ℕ) → entry (store mem h t i e) h t i ≡ e
unfolding entry store
entry-store_self mem h t i e = ground arith

pub entry-store_apart :
    (mem : Memory) (h t i e u j : ℕ)
    → h % 4096 ≡ 0
    → IsFrame t
    → IsFrame u
    → i < 512
    → j < 512
    → ¬ ((u ≡ t) × (j ≡ i))
    → entry (store mem h t i e) h u j ≡ entry mem h u j
unfolding entry store
entry-store_apart mem h t i e u j a ft fu li lj ne =
    elim (Bool-cases (slot_of h u j == slot_of h t i)) [
      | inl same ↦ absurd (ne (slot_of-injective h u t j i a fu ft lj li (ground arith)))
      | inr apart ↦ rw apart refl
    ]

module _ {mem : Memory} {h root limit : ℕ} (tree : IsTree mem h root limit) (is : List ℕ) (i : ℕ)
    {t : ℕ} (path : IsPath limit is) (small : i < bound limit is)
    (at : table_at mem h root is ≡ some t) (e : ℕ) where
  pub entry-store_ne :
      (js : List ℕ) (j : ℕ) {u : ℕ}
      → IsPath limit js
      → j < 512
      → table_at mem h root js ≡ some u
      → ¬ ((j ≡ i) × (js ≡ is))
      → entry (store mem h t i e) h u j ≡ entry mem h u j
  entry-store_ne js j {u} p lt found ne =
      entry-store_apart mem h t i e u j tree.direct_map
        (table_at-IsFrame mem h root is tree.root_frame at)
        (table_at-IsFrame mem h root js tree.root_frame found)
        (index_lt limit is i tree.limit_le small) lt
        λ (same, ij). ne (ij, tree.distinct js is p path found (at ∙ ap some (sym same)))

  pub table_at-store :
      (js : List ℕ)
      → IsPath limit js
      → ¬ Through is i js
      → table_at (store mem h t i e) h root js ≡ table_at mem h root js
  unfolding table_at next_table
  table_at-store [] p apart = refl
  table_at-store (j ∷ js) p apart = elim (Option-cases (table_at mem h root js)) [
    | inl missing ↦ rw (table_at-store js (omega arith, p.1.1) (λ x. apart (inr x)), missing) refl
    | inr (u, found) ↦
        rw (table_at-store js (omega arith, p.1.1) (λ x. apart (inr x)), found)
          (ground (
            arith,
            entry-store_ne js j (omega arith, p.1.1) (index_lt limit js j tree.limit_le p.1.0) found
                (λ x. apart (inl x)),
          ))
  ]

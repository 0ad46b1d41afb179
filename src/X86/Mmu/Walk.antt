-- ===== src/X86/Mmu/Walk.antt =====
-- What the page tables of mmu.rs stand for, apart from the code: the table that a path of indices
-- leads to, the entry of a page, and the shape that the tables keep.
pub mod Store
pub mod Leaf
pub mod Install
pub mod Outside
pub mod Cases
use rincos.Prelude.{
  ℕ, suc, ◌+◌, ◌*◌, ◌/◌, ◌%◌, ◌^◌, ◌≤◌, ◌<◌, ◌≡◌, ◌⊎◌, refl, arith, Option, none, some, List, [],
  ◌∷◌, length, if◌then◌else◌, Option-cases, inl, inr, true,
}
use rincos.Hal.Mmu.{Memory}
use rincos.X86.Mmu.Entry.{has, frame_of, pte_p, pml4_index, pdpt_index, pd_index, pt_index}
use rincos.X86.Mmu.Entry.Laws.{IsFrame, frame_of-IsFrame}
use rincos.X86.Mmu.Table.{entry, slot_of, phys_to_virt}

-- The frame that a present entry points to.
unfoldable pub next_table : Memory → ℕ → ℕ → ℕ → Option ℕ
next_table mem h t i =
    if has (entry mem h t i) pte_p then some (frame_of (entry mem h t i)) else none

-- A path is written from its end: the index into the deepest table comes first.
unfoldable pub table_at : Memory → ℕ → ℕ → List ℕ → Option ℕ
table_at mem h root [] = some root
table_at mem h root (i ∷ is) = elim (table_at mem h root is) [
  | none ↦ none
  | some t ↦ next_table mem h t i
]

unfoldable pub present_entry : Memory → ℕ → ℕ → ℕ → Option ℕ
present_entry mem h t i = if has (entry mem h t i) pte_p then some (entry mem h t i) else none

-- The present entry `i` of the table at a path.
unfoldable pub entry_at : Memory → ℕ → ℕ → List ℕ → ℕ → Option ℕ
entry_at mem h root is i = elim (table_at mem h root is) [
  | none ↦ none
  | some t ↦ present_entry mem h t i
]

abbrev pub path_of : ℕ → List ℕ
path_of v = pd_index v ∷ pdpt_index v ∷ pml4_index v ∷ []

-- The entry that maps the page of `v`.
abbrev pub page_at : Memory → ℕ → ℕ → ℕ → Option ℕ
page_at mem h root v = entry_at mem h root (path_of v) (pt_index v)

-- The indices that a table at this depth is used at: the root's lie below `limit`, which is 256
-- for the lower half and 512 for the whole space.
abbrev pub bound : ℕ → List ℕ → ℕ
bound limit [] = limit
bound limit (i ∷ is) = 512

abbrev pub IsIndices : ℕ → List ℕ → Type 0
IsIndices limit [] = Unit {0}
IsIndices limit (i ∷ is) = (i < bound limit is) × IsIndices limit is

abbrev pub IsPath : ℕ → List ℕ → Type 0
IsPath limit is = (length is ≤ 3) × IsIndices limit is

-- The tables below `root` form a tree: no frame serves twice.
pub record IsTree (mem : Memory) (h root limit : ℕ) : Type 0 where
  pub root_frame : IsFrame root
  pub direct_map : h % 4096 ≡ 0
  pub limit_le : limit ≤ 512
  pub distinct :
      (is js : List ℕ) {t : ℕ}
      → IsPath limit is
      → IsPath limit js
      → table_at mem h root is ≡ some t
      → table_at mem h root js ≡ some t
      → is ≡ js

module _ (mem : Memory) (h root : ℕ) where
  -- The step that led to a table below the root.
  pub table_at-cons :
      (i : ℕ) (is : List ℕ) {t : ℕ}
      → table_at mem h root (i ∷ is) ≡ some t
      → (u : ℕ) × (table_at mem h root is ≡ some u)
        × (has (entry mem h u i) pte_p ≡ true)
        × (t ≡ frame_of (entry mem h u i))
  unfolding table_at next_table
  table_at-cons i is e = elim (Option-cases (table_at mem h root is)) [
    | inl missing ↦ absurd (ground arith)
    | inr (u, found) ↦ (u, found, ground arith, ground arith)
  ]

  pub table_at-IsFrame :
      (is : List ℕ) {t : ℕ} → IsFrame root → table_at mem h root is ≡ some t → IsFrame t
  unfolding table_at
  table_at-IsFrame [] f e = ground arith
  table_at-IsFrame (i ∷ is) f e =
      let (u, found, present, same) = table_at-cons i is e in
      ground (arith, frame_of-IsFrame (entry mem h u i))

  pub entry_at-some :
      (is : List ℕ) (i : ℕ) {t : ℕ}
      → table_at mem h root is ≡ some t
      → entry_at mem h root is i ≡ present_entry mem h t i
  unfolding entry_at
  entry_at-some is i e = rw (e, entry_at) refl

  pub entry_at-none :
      (is : List ℕ) (i : ℕ) → table_at mem h root is ≡ none → entry_at mem h root is i ≡ none
  unfolding entry_at
  entry_at-none is i e = rw (e, entry_at) refl

-- Entries are stored apart.
pub slot_of-injective :
    (h t u i j : ℕ)
    → h % 4096 ≡ 0
    → IsFrame t
    → IsFrame u
    → i < 512
    → j < 512
    → slot_of h t i ≡ slot_of h u j
    → (t ≡ u) × (i ≡ j)
unfolding slot_of phys_to_virt
slot_of-injective h t u i j a ft fu hi hj e = omega arith

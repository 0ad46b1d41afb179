-- ===== src/X86/Mmu/Walk/Cases.antt =====
-- Where the walk to a page's entry ends.
use rincos.Prelude.{ℕ, ◌≡◌, refl, ◌∙◌, Option, none, some, true, false, Bool-cases, inl, inr}
use rincos.Hal.Mmu.{Memory}
use rincos.X86.Mmu.Entry.{has, frame_of, pte_p, pml4_index, pdpt_index, pd_index, pt_index}
use rincos.X86.Mmu.Table.{entry}
use rincos.X86.Mmu.Walk.{
  table_at, next_table, present_entry, path_of, page_at, entry_at-none, entry_at-some,
}

module _ (mem : Memory) (h root v : ℕ) where
  abbrev pub pml4_entry : ℕ
  pml4_entry = entry mem h root (pml4_index v)

  abbrev pub pdpt_entry : ℕ
  pdpt_entry = entry mem h (frame_of pml4_entry) (pdpt_index v)

  abbrev pub pd_entry : ℕ
  pd_entry = entry mem h (frame_of pdpt_entry) (pd_index v)

  abbrev pub pt_entry : ℕ
  pt_entry = entry mem h (frame_of pd_entry) (pt_index v)

-- The level at which the present bit is first missing, or the page's entry.
pub data WalkCase (mem : Memory) (h root v : ℕ) : Type 0 where
  no_pdpt : has (pml4_entry mem h root v) pte_p ≡ false → WalkCase mem h root v
  no_pd :
      has (pml4_entry mem h root v) pte_p ≡ true
      → has (pdpt_entry mem h root v) pte_p ≡ false
      → WalkCase mem h root v
  no_pt :
      has (pml4_entry mem h root v) pte_p ≡ true
      → has (pdpt_entry mem h root v) pte_p ≡ true
      → has (pd_entry mem h root v) pte_p ≡ false
      → WalkCase mem h root v
  no_page :
      has (pml4_entry mem h root v) pte_p ≡ true
      → has (pdpt_entry mem h root v) pte_p ≡ true
      → has (pd_entry mem h root v) pte_p ≡ true
      → has (pt_entry mem h root v) pte_p ≡ false
      → WalkCase mem h root v
  page :
      has (pml4_entry mem h root v) pte_p ≡ true
      → has (pdpt_entry mem h root v) pte_p ≡ true
      → has (pd_entry mem h root v) pte_p ≡ true
      → has (pt_entry mem h root v) pte_p ≡ true
      → WalkCase mem h root v

pub Walk-cases : (mem : Memory) (h root v : ℕ) → WalkCase mem h root v
Walk-cases mem h root v = elim (Bool-cases (has (pml4_entry mem h root v) pte_p)) [
  | inr a ↦ no_pdpt a
  | inl a ↦ elim (Bool-cases (has (pdpt_entry mem h root v) pte_p)) [
    | inr b ↦ no_pd a b
    | inl b ↦ elim (Bool-cases (has (pd_entry mem h root v) pte_p)) [
      | inr c ↦ no_pt a b c
      | inl c ↦ elim (Bool-cases (has (pt_entry mem h root v) pte_p)) [
        | inr d ↦ no_page a b c d
        | inl d ↦ page a b c d
      ]
    ]
  ]
]

abbrev pub case_page : {mem : Memory} {h root v : ℕ} → WalkCase mem h root v → Option ℕ
case_page {mem} {h} {root} {v} (page a b c d) = some (pt_entry mem h root v)
case_page (no_pdpt a) = none
case_page (no_pd a b) = none
case_page (no_pt a b c) = none
case_page (no_page a b c d) = none

module _ (mem : Memory) (h root v : ℕ) where
  abbrev pt_frame : WalkCase mem h root v → Option ℕ
  pt_frame (no_pdpt a) = none
  pt_frame (no_pd a b) = none
  pt_frame (no_pt a b c) = none
  pt_frame (no_page a b c d) = some (frame_of (pd_entry mem h root v))
  pt_frame (page a b c d) = some (frame_of (pd_entry mem h root v))

  table_at-case : (c : WalkCase mem h root v) → table_at mem h root (path_of v) ≡ pt_frame c
  unfolding table_at next_table
  table_at-case (no_pdpt a) = rw (a, table_at) refl
  table_at-case (no_pd a b) = rw (a, b, table_at) refl
  table_at-case (no_pt a b c) = rw (a, b, c, table_at) refl
  table_at-case (no_page a b c d) = rw (a, b, c, table_at) refl
  table_at-case (page a b c d) = rw (a, b, c, table_at) refl

  pub page_at-case : (c : WalkCase mem h root v) → page_at mem h root v ≡ case_page c
  unfolding present_entry
  page_at-case (no_pdpt a) =
      entry_at-none mem h root (path_of v) (pt_index v) (table_at-case (no_pdpt a))
  page_at-case (no_pd a b) =
      entry_at-none mem h root (path_of v) (pt_index v) (table_at-case (no_pd a b))
  page_at-case (no_pt a b c) =
      entry_at-none mem h root (path_of v) (pt_index v) (table_at-case (no_pt a b c))
  page_at-case (no_page a b c d) =
      entry_at-some mem h root (path_of v) (pt_index v) (table_at-case (no_page a b c d))
      ∙ rw d refl
  page_at-case (page a b c d) =
      entry_at-some mem h root (path_of v) (pt_index v) (table_at-case (page a b c d)) ∙ rw d refl

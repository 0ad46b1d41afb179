-- ===== src/X86/Mmu/Walk/Outside.antt =====
-- A change inside a frame that is no table changes no walk.
use rincos.Prelude.{
  sym, ◌∙◌, ℕ, ◌<◌, ◌≡◌, ◌≢◌, refl, arith, some, List, [], ◌∷◌, inl, inr, Option-cases, ◌%◌,
}
use rincos.Hal.Mmu.{Memory}
use rincos.X86.Mmu.Entry.Laws.{IsFrame}
use rincos.X86.Mmu.Table.{entry, slot_of, zero_frame}
use rincos.X86.Mmu.Walk.{
  table_at, next_table, entry_at, IsPath, IsTree, table_at-IsFrame, entry_at-some, entry_at-none,
  present_entry,
}
use rincos.X86.Mmu.Walk.Store.{index_lt}

-- The two memories hold the same entries in every frame but `f`.
abbrev pub SameOutside : ℕ → ℕ → Memory → Memory → Type 0
SameOutside h f mem mem' =
    (u j : ℕ) → IsFrame u → j < 512 → u ≢ f → entry mem' h u j ≡ entry mem h u j

abbrev pub IsUnused : Memory → ℕ → ℕ → ℕ → ℕ → Type 0
IsUnused mem h root limit f = (js : List ℕ) → IsPath limit js → table_at mem h root js ≢ some f

pub zero_frame-SameOutside :
    (h f : ℕ) (mem : Memory) → h % 4096 ≡ 0 → IsFrame f → SameOutside h f mem (zero_frame mem h f)
unfolding entry slot_of zero_frame
zero_frame-SameOutside h f mem a ff u j fu lt ne = ground arith

pub entry-zero_frame :
    (h f : ℕ) (mem : Memory) (j : ℕ) → j < 512 → entry (zero_frame mem h f) h f j ≡ 0
unfolding entry slot_of zero_frame
entry-zero_frame h f mem j lt = ground arith

-- The memories agree on the tables of one root.
module _ (mem mem' : Memory) {h root limit : ℕ} (tree : IsTree mem h root limit)
    (same_entry : (js : List ℕ) (j u : ℕ)
      → IsPath limit js
      → j < 512
      → table_at mem h root js ≡ some u
      → entry mem' h u j ≡ entry mem h u j) where
  pub table_at-kept :
      (js : List ℕ) → IsPath limit js → table_at mem' h root js ≡ table_at mem h root js
  unfolding table_at next_table
  table_at-kept [] p = refl
  table_at-kept (j ∷ js) p = elim (Option-cases (table_at mem h root js)) [
    | inl missing ↦ rw (table_at-kept js (omega arith, p.1.1), missing) refl
    | inr (u, found) ↦
        rw (table_at-kept js (omega arith, p.1.1), found)
          (ground (
            arith,
            same_entry js j u (omega arith, p.1.1) (index_lt limit js j tree.limit_le p.1.0) found,
          ))
  ]

  pub entry_at-kept :
      (js : List ℕ) (j : ℕ)
      → IsPath limit js
      → j < 512
      → entry_at mem' h root js j ≡ entry_at mem h root js j
  unfolding present_entry
  entry_at-kept js j p lt = elim (Option-cases (table_at mem h root js)) [
    | inl missing ↦
        entry_at-none mem' h root js j (table_at-kept js p ∙ missing)
        ∙ sym (entry_at-none mem h root js j missing)
    | inr (u, found) ↦
        rw
          (
            entry_at-some mem' h root js j (table_at-kept js p ∙ found),
            entry_at-some mem h root js j found,
            same_entry js j u p lt found,
          )
          refl
  ]

  pub IsTree-kept : IsTree mem' h root limit
  IsTree-kept = record {
    root_frame = tree.root_frame;
    direct_map = tree.direct_map;
    limit_le = tree.limit_le;
    distinct = λ js ks p q a b.
        tree.distinct js ks p q (rw (table_at-kept js p) at a) (rw (table_at-kept ks q) at b);
  }

module _ (mem mem' : Memory) {h root limit f : ℕ} (tree : IsTree mem h root limit)
    (unused : IsUnused mem h root limit f) (same : SameOutside h f mem mem') where
  same_entry :
      (js : List ℕ) (j u : ℕ)
      → IsPath limit js
      → j < 512
      → table_at mem h root js ≡ some u
      → entry mem' h u j ≡ entry mem h u j
  same_entry js j u p lt found =
      same u j (table_at-IsFrame mem h root js tree.root_frame found) lt
        (λ e. unused js p (rw e at found))

  pub table_at-outside :
      (js : List ℕ) → IsPath limit js → table_at mem' h root js ≡ table_at mem h root js
  table_at-outside = table_at-kept mem mem' tree same_entry

  pub entry_at-outside :
      (js : List ℕ) (j : ℕ)
      → IsPath limit js
      → j < 512
      → entry_at mem' h root js j ≡ entry_at mem h root js j
  entry_at-outside = entry_at-kept mem mem' tree same_entry

  pub IsTree-outside : IsTree mem' h root limit
  IsTree-outside = IsTree-kept mem mem' tree same_entry

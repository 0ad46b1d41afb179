-- ===== src/X86/Mmu/Walk/Leaf.antt =====
-- A write to an entry of a last-level table: the tables stay, and one page changes.
use rincos.Prelude.{
  sym, ◌∙◌, ℕ, ◌<◌, ◌≡◌, refl, arith, none, some, List, length, inl, inr, Option-cases,
  if◌then◌else◌,
}
use rincos.Hal.Mmu.{Memory}
use rincos.X86.Mmu.Entry.{has, pte_p}
use rincos.X86.Mmu.Table.{store}
use rincos.X86.Mmu.Walk.{
  table_at, entry_at, bound, IsPath, IsTree, entry_at-some, entry_at-none, present_entry,
}
use rincos.X86.Mmu.Walk.Store.{
  Through, Through-longer, table_at-store, entry-store_ne, entry-store_self,
}

module _ {mem : Memory} {h root limit : ℕ} (tree : IsTree mem h root limit) (is : List ℕ) (i : ℕ)
    {t : ℕ} (deep : length is ≡ 3) (path : IsPath limit is) (small : i < bound limit is)
    (at : table_at mem h root is ≡ some t) (e : ℕ) where
  not-Through : (js : List ℕ) → IsPath limit js → ¬ Through is i js
  not-Through js p x = omega (arith, Through-longer is i js x)

  pub table_at-store_leaf :
      (js : List ℕ)
      → IsPath limit js
      → table_at (store mem h t i e) h root js ≡ table_at mem h root js
  table_at-store_leaf js p = table_at-store tree is i path small at e js p (not-Through js p)

  pub IsTree-store_leaf : IsTree (store mem h t i e) h root limit
  IsTree-store_leaf = record {
    root_frame = tree.root_frame;
    direct_map = tree.direct_map;
    limit_le = tree.limit_le;
    distinct = λ js ks p q a b.
        tree.distinct js ks p q (rw (table_at-store_leaf js p) at a)
          (rw (table_at-store_leaf ks q) at b);
  }

  pub entry_at-store_self :
      entry_at (store mem h t i e) h root is i ≡ (if has e pte_p then some e else none)
  unfolding present_entry
  entry_at-store_self =
      rw
        (
          entry_at-some _ h root is i (table_at-store_leaf is path ∙ at),
          entry-store_self mem h t i e,
        )
        refl

  pub entry_at-store_ne :
      (js : List ℕ) (j : ℕ)
      → IsPath limit js
      → j < 512
      → ¬ ((j ≡ i) × (js ≡ is))
      → entry_at (store mem h t i e) h root js j ≡ entry_at mem h root js j
  unfolding present_entry
  entry_at-store_ne js j p lt ne = elim (Option-cases (table_at mem h root js)) [
    | inl missing ↦
        entry_at-none _ h root js j (table_at-store_leaf js p ∙ missing)
        ∙ sym (entry_at-none mem h root js j missing)
    | inr (u, found) ↦
        rw
          (
            entry_at-some _ h root js j (table_at-store_leaf js p ∙ found),
            entry_at-some mem h root js j found,
            entry-store_ne tree is i path small at e js j p lt found ne,
          )
          refl
  ]

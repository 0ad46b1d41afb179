-- ===== src/X86/Mmu/Local/Map.antt =====
-- `map_4k` of arch/x86_64/src/mmu.rs touches its own address space and the frames that it takes.
use rincos.Prelude.{
  ℕ, ◌<◌, ◌≡◌, refl, arith, some, List, [], ◌∷◌, inl, inr, Bool-cases, not, ◌||◌, if◌then◌else◌,
}
use rincos.Hal.Mmu.{MapError, MapFlags, AddressSpace, PageTableFrameAlloc, unaligned, invalid_args}
use rincos.X86.Run.{World, Run, Cmd, ok, err, fault, and_then}
use rincos.X86.Mmu.Entry.{
  aligned_4k, is_canonical, has, pte_p, pml4_index, pdpt_index, pd_index, pt_index,
}
use rincos.X86.Mmu.Table.{entry}
use rincos.X86.Mmu.Walk.{table_at, path_of, IsPath}
use rincos.X86.Mmu.Frames.{IsFrameSource}
use rincos.X86.Mmu.Ensure.{IsSpace, Ensured, ensure_table-Ensured}
use rincos.X86.Mmu.Ensure.Local.{ensure_table-IsLocal}
use rincos.X86.Mmu.Page.{root_of, map_4k}
use rincos.X86.Mmu.Page.View.{path_of-IsPath, index_bounds}
use rincos.X86.Mmu.Page.MapSteps.{
  map_leaf, map_tables, map_4k-guards, map_leaf-mapped, map_leaf-free,
}
use rincos.X86.Mmu.Requests.Keep.{After}
use rincos.X86.Mmu.Local.{IsLocal, IsLocal-refl, IsLocal-trans, store_leaf-IsLocal}

module _ {A : Type 0} {pt : PageTableFrameAlloc A} {h : ℕ} (src : IsFrameSource pt h)
    (root limit v p : ℕ) (flags : MapFlags) (low : pml4_index v < limit) (w : World A) where
  path : IsPath limit (path_of v)
  path = path_of-IsPath limit v low

  leaf-IsLocal :
      (w' : World A) {t : ℕ}
      → IsSpace src root limit w'
      → table_at w'.machine.mem h root (path_of v) ≡ some t
      → IsLocal src root limit w w'
      → After (IsLocal src root limit w) (map_leaf pt v p flags t w')
  leaf-IsLocal w' {t} space at so_far =
      elim (Bool-cases (has (entry w'.machine.mem h t (pt_index v)) pte_p)) [
        | inl there ↦ rw (map_leaf-mapped pt v p flags w' h t space.hhdm there) so_far
        | inr gone ↦ rw (map_leaf-free pt v p flags w' h t space.hhdm gone) (
            IsLocal-trans src root limit so_far (
              store_leaf-IsLocal src root limit w' (path_of v) (pt_index v) space refl path
                ((index_bounds v).3) at _ _))
      ]

  and_then-IsLocal :
      (is : List ℕ) (w1 : World A) (r : Run A MapError ℕ) (k : ℕ → Cmd A MapError (Unit {0}))
      → IsLocal src root limit w w1
      → Ensured src root limit w1 is r
      → After (IsLocal src root limit w1) r
      → ((u : ℕ) (w2 : World A)
          → IsSpace src root limit w2
          → table_at w2.machine.mem h root is ≡ some u
          → IsLocal src root limit w w2
          → After (IsLocal src root limit w) (k u w2))
      → After (IsLocal src root limit w) (and_then r k)
  and_then-IsLocal is w1 (ok u w2) k so_far (space, at, _, _) step next =
      next u w2 space at (IsLocal-trans src root limit so_far step)
  and_then-IsLocal is w1 (err e w2) k so_far _ step next = IsLocal-trans src root limit so_far step
  and_then-IsLocal is w1 fault k so_far bad step next = absurd bad

  at_root : table_at w.machine.mem h root [] ≡ some root
  unfolding table_at
  at_root = refl

  tables-IsLocal :
      IsSpace src root limit w → After (IsLocal src root limit w) (map_tables pt v p flags root w)
  unfolding map_tables
  tables-IsLocal space =
      and_then-IsLocal (i1 ∷ []) w _ _ (IsLocal-refl src root limit w)
        (ensure_table-Ensured src root limit space [] i1 (omega arith) (omega arith, tt) low at_root
          flags.user)
        (ensure_table-IsLocal src root limit space [] i1 (omega arith) (omega arith, tt) low at_root
          flags.user)
        λ pdpt w1 space1 at1 local1.
          and_then-IsLocal (i2 ∷ i1 ∷ []) w1 _ _ local1
            (ensure_table-Ensured src root limit space1 (i1 ∷ []) i2 (omega arith)
              (omega arith, path.1.1.1) path.1.1.0 at1 flags.user)
            (ensure_table-IsLocal src root limit space1 (i1 ∷ []) i2 (omega arith)
              (omega arith, path.1.1.1) path.1.1.0 at1 flags.user)
            λ pd w2 space2 at2 local2.
              and_then-IsLocal (path_of v) w2 _ _ local2
                (ensure_table-Ensured src root limit space2 (i2 ∷ i1 ∷ []) (pd_index v)
                  (omega arith) (omega arith, path.1.1) path.1.0 at2 flags.user)
                (ensure_table-IsLocal src root limit space2 (i2 ∷ i1 ∷ []) (pd_index v)
                  (omega arith) (omega arith, path.1.1) path.1.0 at2 flags.user)
                λ table w3 space3 at3 local3. leaf-IsLocal w3 space3 at3 local3
    where
      i1 : ℕ
      i1 = pml4_index v

      i2 : ℕ
      i2 = pdpt_index v

  pub map_4k-IsLocal :
      (aspace : AddressSpace)
      → root_of w.machine aspace ≡ some root
      → IsSpace src root limit w
      → After (IsLocal src root limit w) (map_4k pt aspace v p flags w)
  map_4k-IsLocal aspace known space = rw (map_4k-guards pt v p flags aspace w root known) guarded
    where
      same : IsLocal src root limit w w
      same = IsLocal-refl src root limit w

      guarded : After (IsLocal src root limit w) (
          if not (aligned_4k v) || not (aligned_4k p)
          then err unaligned w
          else (if is_canonical v then map_tables pt v p flags root w else err invalid_args w))
      guarded = elim (Bool-cases (not (aligned_4k v) || not (aligned_4k p))) [
        | inl odd ↦ rw odd same
        | inr al ↦ elim (Bool-cases (is_canonical v)) [
          | inr odd ↦ rw (al, odd) same
          | inl ca ↦ rw (al, ca) (tables-IsLocal space)
        ]
      ]

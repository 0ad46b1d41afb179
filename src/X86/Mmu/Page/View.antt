-- ===== src/X86/Mmu/Page/View.antt =====
-- An address space as a map from pages to entries, and a change of one page.
use rincos.Prelude.{
  ℕ, ◌*◌, ◌/◌, ◌%◌, ◌^◌, ◌<◌, ◌≡◌, refl, ap, arith, true, false, Option, none, some, List, [], ◌∷◌,
  inl, inr, Bool-cases, bit_and, ◌==◌, if◌then◌else◌, ==_iff,
}
use rincos.Prelude.Bits.{and_mask}
use rincos.Hal.Mmu.{Memory}
use rincos.X86.Mmu.Entry.{is_canonical, pml4_index, pdpt_index, pd_index, pt_index, has, pte_p}
use rincos.X86.Mmu.Table.{store}
use rincos.X86.Mmu.Walk.{page_at, path_of, table_at, IsPath, IsTree}
use rincos.X86.Mmu.Walk.Leaf.{entry_at-store_self, entry_at-store_ne}

pub index_bounds :
    (v : ℕ) → (pml4_index v < 512) × (pdpt_index v < 512) × (pd_index v < 512) × (pt_index v < 512)
unfolding pml4_index pdpt_index pd_index pt_index
index_bounds v = omega (
  arith,
  and_mask 9 (v / 2 ^ 39),
  and_mask 9 (v / 2 ^ 30),
  and_mask 9 (v / 2 ^ 21),
  and_mask 9 (v / 2 ^ 12),
)

pub path_of-IsPath : (limit v : ℕ) → pml4_index v < limit → IsPath limit (path_of v)
path_of-IsPath limit v h = let (_, b, c, _) = index_bounds v in (omega arith, (c, (b, (h, tt))))

-- Two canonical addresses with the same indices lie in one page.
pub page_of_indices :
    (u v : ℕ)
    → u < 2 ^ 64
    → v < 2 ^ 64
    → is_canonical u ≡ true
    → is_canonical v ≡ true
    → pml4_index u ≡ pml4_index v
    → pdpt_index u ≡ pdpt_index v
    → pd_index u ≡ pd_index v
    → pt_index u ≡ pt_index v
    → u / 4096 ≡ v / 4096
unfolding is_canonical pml4_index pdpt_index pd_index pt_index
page_of_indices u v hu hv cu cv e1 e2 e3 e4 = join (upper u cu) (upper v cv)
  where
    upper : (x : ℕ) → is_canonical x ≡ true → x / 2 ^ 48 ≡ x / 2 ^ 47 % 2 * 0xffff
    upper x c = ground (arith, and_mask 1 (x / 2 ^ 47))

    join :
        u / 2 ^ 48 ≡ u / 2 ^ 47 % 2 * 0xffff
        → v / 2 ^ 48 ≡ v / 2 ^ 47 % 2 * 0xffff
        → u / 4096 ≡ v / 4096
    join a b = omega (
      arith,
      and_mask 9 (u / 2 ^ 39),
      and_mask 9 (u / 2 ^ 30),
      and_mask 9 (u / 2 ^ 21),
      and_mask 9 (u / 2 ^ 12),
      and_mask 9 (v / 2 ^ 39),
      and_mask 9 (v / 2 ^ 30),
      and_mask 9 (v / 2 ^ 21),
      and_mask 9 (v / 2 ^ 12),
    )

-- The addresses that a view speaks of: canonical ones, in the part below `limit`.
abbrev pub IsAddress : ℕ → ℕ → Type 0
IsAddress limit u = (u < 2 ^ 64) × (is_canonical u ≡ true) × (pml4_index u < limit)

-- Every page is as before, but for that of `v`, whose entry is now `r`.
abbrev pub IsRemap : Memory → Memory → ℕ → ℕ → ℕ → ℕ → Option ℕ → Type 0
IsRemap mem mem' h root limit v r =
    (u : ℕ)
    → IsAddress limit u
    → page_at mem' h root u ≡ (if u / 4096 == v / 4096 then r else page_at mem h root u)

-- Addresses in one page have the same indices.
pub indices_of_page :
    (u v : ℕ)
    → u / 4096 ≡ v / 4096
    → (pml4_index u ≡ pml4_index v)
      × (pdpt_index u ≡ pdpt_index v)
      × (pd_index u ≡ pd_index v)
      × (pt_index u ≡ pt_index v)
unfolding pml4_index pdpt_index pd_index pt_index
indices_of_page u v e =
    (same 39 (omega arith), same 30 (omega arith), same 21 (omega arith), same 12 (omega arith))
  where
    same : (k : ℕ) → u / 2 ^ k ≡ v / 2 ^ k → bit_and (u / 2 ^ k) 0x1ff ≡ bit_and (v / 2 ^ k) 0x1ff
    same k e = ap (λ (t : ℕ). bit_and t 0x1ff) e

path-injective :
    {a b c x y z : ℕ}
    → ◌≡◌ {A = List ℕ} (a ∷ b ∷ c ∷ []) (x ∷ y ∷ z ∷ [])
    → (a ≡ x) × (b ≡ y) × (c ≡ z)
path-injective e = (cc, cc, cc)

module _ {mem : Memory} {h root limit : ℕ} (tree : IsTree mem h root limit) (v : ℕ)
    (address : IsAddress limit v) {pt : ℕ} (at : table_at mem h root (path_of v) ≡ some pt) where
  small : pt_index v < 512
  small = (index_bounds v).3

  -- A write of the page's entry changes that page and no other.
  pub store-IsRemap :
      (e : ℕ)
      → IsRemap mem
          (store mem h pt (pt_index v) e)
          h
          root
          limit
          v
          (if has e pte_p then some e else none)
  store-IsRemap e u (hu, cu, lu) = elim (Bool-cases (u / 4096 == v / 4096)) [
    | inl same ↦
        let (e1, e2, e3, e4) = indices_of_page u v ((==_iff _ _).0 same) in
        rw (same, e1, e2, e3, e4)
          (entry_at-store_self tree (path_of v) (pt_index v) refl path small at e)
    | inr other ↦ rw other (
        entry_at-store_ne tree (path_of v) (pt_index v) refl path small at e (path_of u)
          (pt_index u) (path_of-IsPath limit u lu) ((index_bounds u).3) (apart other))
  ]
    where
      path : IsPath limit (path_of v)
      path = path_of-IsPath limit v address.2

      apart :
          (u / 4096 == v / 4096) ≡ false → ¬ ((pt_index u ≡ pt_index v) × (path_of u ≡ path_of v))
      apart other (e4, es) =
          let (e3, e2, e1) = path-injective es in
          let same = page_of_indices u v hu address.0 cu address.1 e1 e2 e3 e4 in ground arith

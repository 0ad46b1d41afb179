-- ===== src/X86/Mmu/Requests/Keep.antt =====
-- What `map_4k`, `unmap_4k` and `protect_4k` of arch/x86_64/src/mmu.rs keep, beside the pages.
use rincos.Prelude.{
  ℕ, ◌<◌, ◌≡◌, ◌∙◌, refl, sym, true, false, some, inl, inr, Bool-cases, Option-cases, if◌then◌else◌,
  not, ◌||◌,
}
use rincos.Hal.Mmu.{
  MapError, MapFlags, AddressSpace, kernel, slot, dangling, PageTableFrameAlloc, unaligned,
  invalid_args,
}
use rincos.X86.Machine.{Machine}
use rincos.X86.Run.{World, Run, ok, err, fault}
use rincos.X86.Mmu.Entry.{aligned_4k, is_canonical, has, pte_p, pml4_index, pt_index}
use rincos.X86.Mmu.Table.{entry}
use rincos.X86.Mmu.Walk.{table_at, path_of, IsPath}
use rincos.X86.Mmu.Walk.Leaf.{IsTree-store_leaf, table_at-store_leaf}
use rincos.X86.Mmu.Frames.{IsFrameSource}
use rincos.X86.Mmu.Ensure.{IsSpace}
use rincos.X86.Mmu.Page.{root_of, map_4k}
use rincos.X86.Mmu.Page.View.{path_of-IsPath, index_bounds}
use rincos.X86.Mmu.Page.Unmap.{edit_page, edited}
use rincos.X86.Mmu.Page.MapSteps.{map_4k-guards, map_tables}

-- The roots are those of the statics and the slots.
pub root_of-same :
    (m m' : Machine) (aspace : AddressSpace)
    → m'.kas ≡ m.kas
    → m'.as_slots ≡ m.as_slots
    → root_of m' aspace ≡ root_of m aspace
unfolding root_of
root_of-same m m' kernel kas slots = kas
root_of-same m m' (slot i) kas slots = rw slots refl
root_of-same m m' dangling kas slots = refl

-- A property of the world that a function leaves, whatever its result.
abbrev pub After : {A E X : Type 0} → (World A → Type 0) → Run A E X → Type 0
After P (ok _ w) = P w
After P (err _ w) = P w
After P fault = ⊥

-- A result other than a refusal of the address says that the address is canonical.
abbrev pub Checked : {A : Type 0} → ℕ → Run A MapError (Unit {0}) → Type 0
Checked v (err MapError.unaligned w) = Unit {0}
Checked v (err MapError.invalid_args w) = Unit {0}
Checked v _ = is_canonical v ≡ true

canonical-Checked :
    {A : Type 0} (v : ℕ) (r : Run A MapError (Unit {0})) → is_canonical v ≡ true → Checked v r
canonical-Checked v (ok _ w) ca = ca
canonical-Checked v (err MapError.unaligned w) ca = tt
canonical-Checked v (err MapError.invalid_args w) ca = tt
canonical-Checked v (err MapError.already_mapped w) ca = ca
canonical-Checked v (err MapError.not_mapped w) ca = ca
canonical-Checked v (err MapError.out_of_memory w) ca = ca
canonical-Checked v fault ca = ca

module _ {A : Type 0} {pt : PageTableFrameAlloc A} {h : ℕ} (src : IsFrameSource pt h)
    (root limit v : ℕ) (low : pml4_index v < limit) (w : World A)
    (space : IsSpace src root limit w) where
  path : IsPath limit (path_of v)
  path = path_of-IsPath limit v low

  small : pt_index v < 512
  small = (index_bounds v).3

  edited-IsSpace :
      (t e : ℕ)
      → table_at w.machine.mem w.machine.hhdm_offset root (path_of v) ≡ some t
      → IsSpace src root limit (edited w v t e)
  edited-IsSpace t e found = rw space.hhdm record {
    hhdm = refl;
    sound = space.sound;
    tree = IsTree-store_leaf space.tree (path_of v) (pt_index v) refl path small at e;
    fresh = λ js q there. space.fresh js q (
        sym (table_at-store_leaf space.tree (path_of v) (pt_index v) refl path small at e js q)
        ∙ there);
  }
    where
      at : table_at w.machine.mem h root (path_of v) ≡ some t
      at = rw space.hhdm at found

  pub edit_page-IsSpace :
      (change : ℕ → ℕ) → After (IsSpace src root limit) (edit_page w root v change)
  edit_page-IsSpace change = elim (Bool-cases (aligned_4k v)) [
    | inr odd ↦ rw odd space
    | inl al ↦ elim (Bool-cases (is_canonical v)) [
      | inr odd ↦ rw (al, odd) space
      | inl ca ↦
          elim (Option-cases (table_at w.machine.mem w.machine.hhdm_offset root (path_of v))) [
            | inl gone ↦ rw (al, ca, gone) space
            | inr (t, at) ↦
                elim (Bool-cases
                  (has (entry w.machine.mem w.machine.hhdm_offset t (pt_index v)) pte_p)) [
                    | inr gone ↦ rw (al, ca, at, gone) space
                    | inl there ↦ rw (al, ca, at, there) (edited-IsSpace t _ at)
                  ]
          ]
    ]
  ]

pub edit_page-Checked :
    {A : Type 0} (w : World A) (root v : ℕ) (change : ℕ → ℕ) → Checked v (edit_page w root v change)
edit_page-Checked w root v change = elim (Bool-cases (is_canonical v)) [
  | inl ca ↦ canonical-Checked v _ ca
  | inr odd ↦ elim (Bool-cases (aligned_4k v)) [ inl al ↦ rw (al, odd) tt | inr skew ↦ rw skew tt ]
]

pub map_4k-Checked :
    {A : Type 0} (pt : PageTableFrameAlloc A) (v p : ℕ) (flags : MapFlags) (aspace : AddressSpace)
    (w : World A) (root : ℕ)
    → root_of w.machine aspace ≡ some root
    → Checked v (map_4k pt aspace v p flags w)
map_4k-Checked pt v p flags aspace w root known = elim (Bool-cases (is_canonical v)) [
  | inl ca ↦ canonical-Checked v _ ca
  | inr odd ↦ rw (map_4k-guards pt v p flags aspace w root known) (refuse odd)
]
  where
    refuse :
        is_canonical v ≡ false
        → Checked v (
            if not (aligned_4k v) || not (aligned_4k p)
            then err unaligned w
            else (if is_canonical v then map_tables pt v p flags root w else err invalid_args w))
    refuse odd = elim (Bool-cases (not (aligned_4k v) || not (aligned_4k p))) [
      | inl skew ↦ rw skew tt
      | inr al ↦ rw (al, odd) tt
    ]

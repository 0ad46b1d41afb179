-- ===== src/X86/Mmu/Requests.antt =====
-- Requests on the pages of one address space, answered by `map_4k`, `unmap_4k`, `protect_4k` and
-- `translate` of arch/x86_64/src/mmu.rs, and what they promise: a map from pages to frames with flags.
pub mod Keep
pub mod Represents
pub mod Edits
pub mod Refines
use rincos.Prelude.{
  ℕ, ◌+◌, ◌/◌, ◌%◌, ◌^◌, ◌<◌, ◌≡◌, ◌≢◌, ◌⊎◌, true, false, Option, none, some, List, [], ◌∷◌,
}
use rincos.Hal.Mmu.{
  VirtAddr, PhysAddr, MapFlags, MapError, TranslateError, unaligned, already_mapped, invalid_args,
  out_of_memory, invalid_address, AddressSpace, PageTableFrameAlloc,
}
use rincos.X86.Machine.{update}
use rincos.X86.Run.{World, Run, ok, err, fault}
use rincos.X86.Mmu.Entry.{is_canonical, pml4_index}
use rincos.X86.Mmu.Page.{map_4k, unmap_4k, protect_4k, translate}

pub data Request : Type 0 where
  map_page : VirtAddr → PhysAddr → MapFlags → Request
  unmap_page : VirtAddr → Request
  protect_page : VirtAddr → MapFlags → Request
  lookup : VirtAddr → Request

pub data Answer : Type 0 where
  done : Answer
  refused : MapError → Answer
  found : PhysAddr → Answer
  lost : TranslateError → Answer

module _ {A : Type 0} where
  abbrev pub of_edit : Run A MapError (Unit {0}) → Option (Answer × World A)
  of_edit (ok _ w) = some (done, w)
  of_edit (err e w) = some (refused e, w)
  of_edit fault = none

  abbrev pub of_lookup : Run A TranslateError PhysAddr → Option (Answer × World A)
  of_lookup (ok p w) = some (found p, w)
  of_lookup (err e w) = some (lost e, w)
  of_lookup fault = none

  module _ (pt : PageTableFrameAlloc A) (aspace : AddressSpace) where
    unfoldable pub serve_one : Request → World A → Option (Answer × World A)
    serve_one (map_page v p flags) w = of_edit (map_4k pt aspace v p flags w)
    serve_one (unmap_page v) w = of_edit (unmap_4k aspace v w)
    serve_one (protect_page v flags) w = of_edit (protect_4k aspace v flags w)
    serve_one (lookup v) w = of_lookup (translate aspace v w)

    unfoldable pub serve : List Request → World A → Option (List Answer × World A)
    serve [] w = some ([], w)
    serve (r ∷ rs) w = elim (serve_one r w) [
      | none ↦ none
      | some (a, w') ↦ elim (serve rs w') [
        | none ↦ none
        | some (answers, w'') ↦ some (a ∷ answers, w'')
      ]
    ]

-- What a page is mapped to.
pub record Mapping : Type 0 where
  pub frame : PhysAddr
  pub flags : MapFlags

-- The address space that the requests promise, by page number.
abbrev pub Pages : Type 0
Pages = ℕ → Option Mapping

-- One request, its answer, and the pages after it. A map may be refused for want of memory, whatever
-- the pages are.
pub data Step (s : Pages) : Request → Answer → Pages → Type 0 where
  map_done :
      {v p : ℕ} {flags : MapFlags}
      → v % 4096 ≡ 0
      → p % 4096 ≡ 0
      → is_canonical v ≡ true
      → s (v / 4096) ≡ none
      → Step s
          (map_page v p flags)
          done
          (update s (v / 4096) (some (record { frame = p; flags = flags })))
  map_taken :
      {v p : ℕ} {flags : MapFlags} {m : Mapping}
      → s (v / 4096) ≡ some m
      → Step s (map_page v p flags) (refused already_mapped) s
  map_full : {v p : ℕ} {flags : MapFlags} → Step s (map_page v p flags) (refused out_of_memory) s
  map_unaligned :
      {v p : ℕ} {flags : MapFlags}
      → (v % 4096 ≢ 0) ⊎ (p % 4096 ≢ 0)
      → Step s (map_page v p flags) (refused unaligned) s
  map_invalid :
      {v p : ℕ} {flags : MapFlags}
      → is_canonical v ≡ false
      → Step s (map_page v p flags) (refused invalid_args) s
  unmap_done :
      {v : ℕ} {m : Mapping}
      → v % 4096 ≡ 0
      → is_canonical v ≡ true
      → s (v / 4096) ≡ some m
      → Step s (unmap_page v) done (update s (v / 4096) none)
  unmap_missing :
      {v : ℕ} → s (v / 4096) ≡ none → Step s (unmap_page v) (refused MapError.not_mapped) s
  unmap_unaligned : {v : ℕ} → v % 4096 ≢ 0 → Step s (unmap_page v) (refused unaligned) s
  unmap_invalid : {v : ℕ} → is_canonical v ≡ false → Step s (unmap_page v) (refused invalid_args) s
  protect_done :
      {v : ℕ} {flags : MapFlags} {m : Mapping}
      → v % 4096 ≡ 0
      → is_canonical v ≡ true
      → s (v / 4096) ≡ some m
      → Step s (protect_page v flags) done (update s (v / 4096) (some (record m { flags = flags })))
  protect_missing :
      {v : ℕ} {flags : MapFlags}
      → s (v / 4096) ≡ none
      → Step s (protect_page v flags) (refused MapError.not_mapped) s
  protect_unaligned :
      {v : ℕ} {flags : MapFlags}
      → v % 4096 ≢ 0
      → Step s (protect_page v flags) (refused unaligned) s
  protect_invalid :
      {v : ℕ} {flags : MapFlags}
      → is_canonical v ≡ false
      → Step s (protect_page v flags) (refused invalid_args) s
  lookup_found :
      {v : ℕ} {m : Mapping}
      → is_canonical v ≡ true
      → s (v / 4096) ≡ some m
      → Step s (lookup v) (found (m.frame + v % 4096)) s
  lookup_missing :
      {v : ℕ}
      → is_canonical v ≡ true
      → s (v / 4096) ≡ none
      → Step s (lookup v) (lost TranslateError.not_mapped) s
  lookup_invalid : {v : ℕ} → is_canonical v ≡ false → Step s (lookup v) (lost invalid_address) s

pub data Steps : Pages → List Request → List Answer → Pages → Type 0 where
  over : {s : Pages} → Steps s [] [] s
  more :
      {r : Request} {rs : List Request} {a : Answer} {answers : List Answer} {s s' s'' : Pages}
      → Step s r a s'
      → Steps s' rs answers s''
      → Steps s (r ∷ rs) (a ∷ answers) s''

-- The requests that stay in the part below `limit`, with machine words for addresses.
abbrev pub IsRequest : ℕ → Request → Type 0
IsRequest limit (map_page v p flags) = (v < 2 ^ 64) × (pml4_index v < limit) × (p < 2 ^ 52)
IsRequest limit (unmap_page v) = (v < 2 ^ 64) × (pml4_index v < limit)
IsRequest limit (protect_page v flags) = (v < 2 ^ 64) × (pml4_index v < limit)
IsRequest limit (lookup v) = (v < 2 ^ 64) × (pml4_index v < limit)

abbrev pub AreRequests : ℕ → List Request → Type 0
AreRequests limit [] = Unit {0}
AreRequests limit (r ∷ rs) = IsRequest limit r × AreRequests limit rs

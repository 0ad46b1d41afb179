-- ===== src/X86/Mmu/System/Moves.antt =====
-- What the memory management of arch/x86_64/src/mmu.rs promises: separate maps from pages to frames,
-- one for each address space that there is.
use rincos.Prelude.{ℕ, ◌≡◌, Option, none, some, List, [], ◌∷◌}
use rincos.Hal.Mmu.{AddressSpace, kernel, slot, out_of_memory, PageTableFrameAlloc}
use rincos.X86.Run.{World}
use rincos.X86.Mmu.Frames.{IsFrameSource}
use rincos.X86.Mmu.Requests.{Request, Answer, Pages, Step}
use rincos.X86.Mmu.Requests.Represents.{Represents}
use rincos.X86.Mmu.System.{
  Call, create, destroy, enter, page, Reply, made, not_made, destroyed, entered, answered, IsLive,
  limit_of, IsSystem,
}
use rincos.X86.Mmu.System.Change.{address_space_discrete}

-- The address spaces that there are, with their pages.
abbrev pub Spaces : Type 0
Spaces = AddressSpace → Option Pages

-- The first if the proposition holds, the second if not.
unfoldable pub choose : {P B : Type 0} → Dec P → B → B → B
choose (yes _) x y = x
choose (no _) x y = y

unfoldable pub put : Spaces → AddressSpace → Option Pages → Spaces
unfolding choose
put s a o b = choose (address_space_discrete b a) o (s b)

-- One call, its reply, and the address spaces after it. The making of an address space may be refused
-- for want of memory, whatever there is.
pub data Move (s : Spaces) : Call → Reply → Spaces → Type 0 where
  create_done :
      {k : ℕ}
      → s (slot k) ≡ none
      → Move s create (made (slot k)) (put s (slot k) (some (λ _. none)))
  create_full : Move s create (not_made out_of_memory) s
  destroy_done :
      {k : ℕ} {p : Pages}
      → s (slot k) ≡ some p
      → Move s (destroy (slot k)) destroyed (put s (slot k) none)
  destroy_kernel : {p : Pages} → s kernel ≡ some p → Move s (destroy kernel) destroyed s
  enter_done : {a : AddressSpace} {p : Pages} → s a ≡ some p → Move s (enter a) entered s
  page_done :
      {a : AddressSpace} {p p' : Pages} {r : Request} {answer : Answer}
      → s a ≡ some p
      → Step p r answer p'
      → Move s (page a r) (answered answer) (put s a (some p'))

pub data Moves : Spaces → List Call → List Reply → Spaces → Type 0 where
  over : {s : Spaces} → Moves s [] [] s
  more :
      {c : Call} {cs : List Call} {reply : Reply} {replies : List Reply} {s s' s'' : Spaces}
      → Move s c reply s'
      → Moves s' cs replies s''
      → Moves s (c ∷ cs) (reply ∷ replies) s''

-- The machine's tables hold the address spaces.
pub record Holds {A : Type 0} {pt : PageTableFrameAlloc A} {h : ℕ} (src : IsFrameSource pt h)
    (top : ℕ) (w : World A) (s : Spaces) : Type 0 where
  pub system : IsSystem src top w
  pub there :
      (a : AddressSpace) (root : ℕ)
      → IsLive w a root
      → (p : Pages) × (s a ≡ some p) × Represents src root (limit_of top a) a w p
  pub live : (a : AddressSpace) (p : Pages) → s a ≡ some p → (root : ℕ) × IsLive w a root

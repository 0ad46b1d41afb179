-- ===== src/X86/Mmu/System.antt =====
-- The operations of arch/x86_64/src/mmu.rs on all the address spaces of a machine, and the invariant
-- that they keep.
pub mod Change
pub mod Local
pub mod Spaces
pub mod Ending
pub mod Keep
pub mod Moves
pub mod Refines
use rincos.Prelude.{ℕ, ◌<◌, ◌≡◌, ◌%◌, true, some, Option, none, get_elem?}
use rincos.Hal.Mmu.{AddressSpace, kernel, slot, dangling, MapError, PageTableFrameAlloc}
use rincos.X86.Machine.{AddressSpaceSlot}
use rincos.X86.Run.{World, Run, ok, err, fault}
use rincos.X86.Mmu.Frames.{IsFrameSource}
use rincos.X86.Mmu.Ensure.{IsSpace}
use rincos.X86.Mmu.Local.{IsTable}
use rincos.X86.Mmu.Slots.Laws.{IsNamed}
use rincos.X86.Mmu.Spaces.{address_space_new, address_space_destroy, activate}
use rincos.X86.Mmu.Requests.{Request, Answer, IsRequest, serve_one}

-- A call of the memory management, by the kernel.
pub data Call : Type 0 where
  create : Call
  destroy : AddressSpace → Call
  enter : AddressSpace → Call
  page : AddressSpace → Request → Call

pub data Reply : Type 0 where
  made : AddressSpace → Reply
  not_made : MapError → Reply
  destroyed entered : Reply
  answered : Answer → Reply

module _ {A : Type 0} where
  abbrev pub of_new : Run A MapError AddressSpace → Option (Reply × World A)
  of_new (ok aspace w) = some (made aspace, w)
  of_new (err e w) = some (not_made e, w)
  of_new fault = none

  abbrev pub of_unit : Reply → Run A ⊥ (Unit {0}) → Option (Reply × World A)
  of_unit reply (ok _ w) = some (reply, w)
  of_unit reply (err e w) = none
  of_unit reply fault = none

  abbrev pub of_answer : Option (Answer × World A) → Option (Reply × World A)
  of_answer none = none
  of_answer (some (a, w)) = some (answered a, w)

  unfoldable pub perform : PageTableFrameAlloc A → Call → World A → Option (Reply × World A)
  perform pt create w = of_new (address_space_new pt w)
  perform pt (destroy aspace) w = of_unit destroyed (address_space_destroy pt aspace w)
  perform pt (enter aspace) w = of_unit entered (activate aspace w)
  perform pt (page aspace r) w = of_answer (serve_one pt aspace r w)

-- The address space exists, with this root.
abbrev pub IsLive : {A : Type 0} → World A → AddressSpace → ℕ → Type 0
IsLive w kernel root = w.machine.kas ≡ some root
IsLive w (slot k) root =
    (s : AddressSpaceSlot) × (get_elem? w.machine.as_slots k ≡ some s)
    × (s.used ≡ true)
    × (s.pml4_phys ≡ root)
IsLive w dangling root = ⊥

-- The part of the root that is the address space's own: the kernel's up to `top`, and the lower half
-- of the others, whose upper half is the kernel's.
abbrev pub limit_of : ℕ → AddressSpace → ℕ
limit_of top kernel = top
limit_of top _ = 256

-- The calls that the interface permits: on address spaces that exist, and on their own part.
abbrev pub IsCall : {A : Type 0} → ℕ → World A → Call → Type 0
IsCall top w create = Unit {0}
IsCall top w (destroy aspace) = (root : ℕ) × IsLive w aspace root
IsCall top w (enter aspace) = (root : ℕ) × IsLive w aspace root
IsCall top w (page aspace r) =
    ((root : ℕ) × IsLive w aspace root) × IsRequest (limit_of top aspace) r

-- The address space that a call with this reply may change; an address space that is not there if it
-- changes none.
abbrev pub subject : Call → Reply → AddressSpace
subject create (made aspace) = aspace
subject create _ = dangling
subject (destroy aspace) _ = aspace
subject (enter aspace) _ = dangling
subject (page aspace r) _ = aspace

-- The kernel's address space is known, every slot has its own handle, each address space is a tree of
-- tables apart from the provider's frames, and no two share a table.
pub record IsSystem {A : Type 0} {pt : PageTableFrameAlloc A} {h : ℕ} (src : IsFrameSource pt h)
    (top : ℕ) (w : World A) : Type 0 where
  pub hhdm : w.machine.hhdm_offset ≡ h
  pub sound : src.IsSound w.pt_alloc
  pub direct_map : h % 4096 ≡ 0
  pub begun : (root : ℕ) × IsLive w kernel root
  pub handle : w.machine.kas_handle ≡ some kernel
  pub named : IsNamed 0 w.machine.as_slots
  pub spaces : (a : AddressSpace) (root : ℕ) → IsLive w a root → IsSpace src root (limit_of top a) w
  pub apart :
      (a b : AddressSpace) (r s u : ℕ)
      → IsLive w a r
      → IsLive w b s
      → IsTable h r (limit_of top a) w u
      → IsTable h s (limit_of top b) w u
      → a ≡ b

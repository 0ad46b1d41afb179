-- ===== src/X86/Mmu/System/Keep.antt =====
-- Every call of the memory management of arch/x86_64/src/mmu.rs keeps the address spaces in order, and
-- all of them but its own as they were.
use mathlib.Core.Path.{subst}
use rincos.Prelude.{ℕ, ◌≡◌, ◌≢◌, Option, none, some}
use rincos.Hal.Mmu.{AddressSpace, kernel, slot, dangling, MapError, PageTableFrameAlloc}
use rincos.X86.Run.{World, Run, ok, err, fault}
use rincos.X86.Mmu.Frames.{IsFrameSource}
use rincos.X86.Mmu.Local.{IsLocal-refl}
use rincos.X86.Mmu.Requests.{Request, Answer, serve_one}
use rincos.X86.Mmu.System.{
  Call, create, destroy, enter, page, Reply, destroyed, entered, of_new, of_unit, of_answer,
  perform, IsLive, IsCall, subject, IsSystem,
}
use rincos.X86.Mmu.Spaces.{address_space_new, address_space_destroy, activate}
use rincos.X86.Mmu.System.Change.{IsChange, IsSpared, change-IsSpared, change-IsSystem}
use rincos.X86.Mmu.System.Local.{Left, local-IsChange, serve_one-Left}
use rincos.X86.Mmu.System.Spaces.{Made, address_space_new-Made}
use rincos.X86.Mmu.System.Ending.{Ended, address_space_destroy-Ended, Entered, activate-Entered}

module _ {A : Type 0} {pt : PageTableFrameAlloc A} {h : ℕ} (src : IsFrameSource pt h)
    (top : ℕ) where
  -- The call has returned, and has changed no address space but its subject.
  abbrev pub Performed : World A → Call → Option (Reply × World A) → Type 0
  Performed w c none = ⊥
  Performed w c (some (reply, w')) = IsChange src top (subject c reply) w w'

  module _ (w : World A) (sys : IsSystem src top w) where
    new-Performed :
        (r : Run A MapError AddressSpace) → Made src top w sys r → Performed w create (of_new r)
    new-Performed (ok a w') (change, _, _, _) = change
    new-Performed (err e w') (change, _) = change
    new-Performed fault bad = bad

    destroy-Performed :
        (a : AddressSpace) (root : ℕ) (r : Run A ⊥ (Unit {0}))
        → IsLive w a root
        → Ended src top w sys a r
        → Performed w (destroy a) (of_unit destroyed r)
    destroy-Performed kernel root r live e = rw e (
        local-IsChange src top w sys kernel root live w (IsLocal-refl src root top w)
          (sys.spaces kernel root live))
    destroy-Performed (slot k) root (ok _ w') live (change, _) = change
    destroy-Performed (slot k) root (err e w') live bad = bad
    destroy-Performed (slot k) root fault live bad = bad
    destroy-Performed dangling root r live _ = elim live [ ]

    enter-Performed :
        (a : AddressSpace) (r : Run A ⊥ (Unit {0}))
        → Entered src top w sys r
        → Performed w (enter a) (of_unit entered r)
    enter-Performed a (ok _ w') change = change
    enter-Performed a (err e w') bad = bad
    enter-Performed a fault bad = bad

    page-Performed :
        (a : AddressSpace) (root : ℕ) (live : IsLive w a root) (r : Request)
        (o : Option (Answer × World A))
        → Left src top w sys a root live o
        → Performed w (page a r) (of_answer o)
    page-Performed a root live r none bad = bad
    page-Performed a root live r (some (answer, w')) (change, _) = change

    pub perform-Performed : (c : Call) → IsCall top w c → Performed w c (perform pt c w)
    unfolding perform
    perform-Performed create _ =
        new-Performed (address_space_new pt w) (address_space_new-Made src top w sys)
    perform-Performed (destroy a) (root, live) =
        destroy-Performed a root (address_space_destroy pt a w) live
          (address_space_destroy-Ended src top w sys a root live)
    perform-Performed (enter a) (root, live) =
        enter-Performed a (activate a w) (activate-Entered src top w sys a root live)
    perform-Performed (page a r) ((root, live), valid) =
        page-Performed a root live r (serve_one pt a r w)
          (serve_one-Left src top w sys a root live r valid)

  -- A call that returns in a system.
  abbrev pub Safe : World A → Call → Option (Reply × World A) → Type 0
  Safe w c none = ⊥
  Safe w c (some (reply, w')) =
      IsSystem src top w' × ((b : AddressSpace) → b ≢ subject c reply → IsSpared src top w w' b)

  safe :
      (w : World A) (c : Call) (o : Option (Reply × World A))
      → IsSystem src top w
      → Performed w c o
      → Safe w c o
  safe w c none sys bad = bad
  safe w c (some (reply, w')) sys change = (
    change-IsSystem src top (subject c reply) w w' sys change,
    change-IsSpared src top (subject c reply) w w' sys change,
  )

  -- Every call that the interface permits returns without a fault. It keeps each address space a tree
  -- of tables, apart from the provider's frames and from the tables of the others, and an address
  -- space that is not the call's own is still there with every page as it was.
  pub perform-Safe :
      (w : World A) (c : Call) → IsSystem src top w → IsCall top w c → Safe w c (perform pt c w)
  perform-Safe w c sys valid = safe w c (perform pt c w) sys (perform-Performed w sys c valid)

  -- The worlds that permitted calls lead to.
  pub data Reached (w : World A) : World A → Type 0 where
    start : Reached w w
    then :
        {w' w'' : World A} {reply : Reply} (c : Call)
        → Reached w w'
        → IsCall top w' c
        → perform pt c w' ≡ some (reply, w'')
        → Reached w w''

  next-IsSystem :
      (w w' : World A) (c : Call) (reply : Reply)
      → IsSystem src top w
      → IsCall top w c
      → perform pt c w ≡ some (reply, w')
      → IsSystem src top w'
  next-IsSystem w w' c reply sys valid e =
      let after : Safe w c (some (reply, w')) = subst (Safe w c) e (perform-Safe w c sys valid) in
      after.0

  -- Whatever permitted calls are made, one after the other, each address space stays a tree of tables,
  -- apart from the provider's frames and from the tables of the others.
  pub Reached-IsSystem : {w w' : World A} → IsSystem src top w → Reached w w' → IsSystem src top w'
  Reached-IsSystem sys start = sys
  Reached-IsSystem sys (then {w'} {w''} {reply} c before valid e) =
      next-IsSystem w' w'' c reply (Reached-IsSystem sys before) valid e

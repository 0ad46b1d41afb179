-- ===== src/X86/Mmu/System/Refines.antt =====
-- The calls of the memory management of arch/x86_64/src/mmu.rs, answered as separate maps of pages promise.
use mathlib.Core.Path.{subst}
use rincos.Prelude.{
  ℕ, ◌<◌, ◌/◌, ◌≡◌, ◌≢◌, ◌∙◌, refl, sym, ap, Option, none, some, List, [], ◌∷◌, inl, inr,
  Option-cases,
}
use rincos.Hal.Mmu.{AddressSpace, kernel, slot, dangling, MapError, PageTableFrameAlloc}
use rincos.X86.Run.{World, Run, ok, err, fault}
use rincos.X86.Mmu.Walk.{path_of, entry_at-none}
use rincos.X86.Mmu.Table.{entry}
use rincos.X86.Mmu.Entry.{pml4_index, pdpt_index, pd_index, pt_index}
use rincos.X86.Mmu.Ensure.{IsSpace}
use rincos.X86.Mmu.Spaces.Copy.{no_table}
use rincos.X86.Mmu.Frames.{IsFrameSource}
use rincos.X86.Mmu.Page.View.{path_of-IsPath, index_bounds}
use rincos.X86.Mmu.Requests.{Request, Answer, Pages, serve_one}
use rincos.X86.Mmu.Requests.Represents.{Represents, Refined, pte_of}
use rincos.X86.Mmu.Requests.Refines.{serve_one-Refined}
use rincos.X86.Mmu.Spaces.{address_space_new, address_space_destroy, activate}
use rincos.X86.Mmu.System.{
  Call, create, destroy, enter, page, Reply, made, not_made, destroyed, entered, of_new, of_unit,
  of_answer, perform, IsLive, limit_of, IsCall,
}
use rincos.X86.Mmu.System.Change.{
  address_space_discrete, IsLive-root_of, IsLive-unique, IsChange, change-IsSpared, change-IsSystem,
}
use rincos.X86.Mmu.System.Local.{Left, serve_one-Left}
use rincos.X86.Mmu.System.Spaces.{Made, address_space_new-Made}
use rincos.X86.Mmu.System.Ending.{Ended, address_space_destroy-Ended, Entered, activate-Entered}
use rincos.X86.Mmu.System.Moves.{
  Spaces, choose, put, Move, create_done, create_full, destroy_done, destroy_kernel, enter_done,
  page_done, Moves, over, more, Holds,
}

choose_yes : {P B : Type 0} (d : Dec P) (x y : B) → P → choose d x y ≡ x
unfolding choose
choose_yes (yes _) x y p = refl
choose_yes (no not_p) x y p = absurd (not_p p)

choose_no : {P B : Type 0} (d : Dec P) (x y : B) → ¬ P → choose d x y ≡ y
unfolding choose
choose_no (yes p) x y not_p = absurd (not_p p)
choose_no (no _) x y not_p = refl

put_self : (s : Spaces) (a : AddressSpace) (o : Option Pages) → put s a o a ≡ o
unfolding put
put_self s a o = choose_yes (address_space_discrete a a) o (s a) refl

put_ne : (s : Spaces) (a b : AddressSpace) (o : Option Pages) → b ≢ a → put s a o b ≡ s b
unfolding put
put_ne s a b o ne = choose_no (address_space_discrete b a) o (s b) ne

module _ {A : Type 0} {pt : PageTableFrameAlloc A} {h : ℕ} (src : IsFrameSource pt h) (top : ℕ)
    (w : World A) (s : Spaces) (holds : Holds src top w s) where
  -- An address space that a change leaves alone still holds its pages.
  spared-Represents :
      (a : AddressSpace) (w' : World A)
      → IsChange src top a w w'
      → (b : AddressSpace) (root : ℕ) → b ≢ a
      → IsLive w b root
      → (p : Pages) → Represents src root (limit_of top b) b w p
      → Represents src root (limit_of top b) b w' p
  spared-Represents a w' change b root other live p rep =
      let (live', same) = change-IsSpared src top a w w' holds.system change b other root live in
      record {
        known = IsLive-root_of w' b root live';
        space = (change-IsSystem src top a w w' holds.system change).spaces b root live';
        pages = λ u address.
            same _ _ (path_of-IsPath (limit_of top b) u address.2) ((index_bounds u).3)
            ∙ rep.pages u address
            ∙ ap (λ x. pte_of x (p (u / 4096))) (sym change.nxe);
        frames = rep.frames;
      }

  -- A change of one address space, and what is promised of it afterwards.
  changed-Holds :
      (a : AddressSpace) (w' : World A) (s' : Spaces)
      → IsChange src top a w w'
      → ((b : AddressSpace) → b ≢ a → s' b ≡ s b)
      → ((root : ℕ)
          → IsLive w' a root
          → (p : Pages) × (s' a ≡ some p) × Represents src root (limit_of top a) a w' p)
      → ((p : Pages) → s' a ≡ some p → (root : ℕ) × IsLive w' a root)
      → Holds src top w' s'
  changed-Holds a w' s' change same own own_live = record {
    system = change-IsSystem src top a w w' holds.system change;
    there = λ b root live. elim (address_space_discrete b a) [
      | yes e ↦
          subst
            (λ x.
              IsLive w' x root
              → (p : Pages) × (s' x ≡ some p) × Represents src root (limit_of top x) x w' p)
            (sym e) (own root) live
      | no ne ↦
          let before : IsLive w b root = change.old b root ne live in
          let (p, at, rep) = holds.there b root before in
          (p, same b ne ∙ at, spared-Represents a w' change b root ne before p rep)
    ];
    live = λ b p at. elim (address_space_discrete b a) [
      | yes e ↦ subst (λ x. s' x ≡ some p → (root : ℕ) × IsLive w' x root) (sym e) (own_live p) at
      | no ne ↦
          let (root, before) = holds.live b p (sym (same b ne) ∙ at) in
          (root, change.stays b root ne before)
    ];
  }

  -- Nothing that is promised has changed.
  idle-Holds : (w' : World A) → IsChange src top dangling w w' → Holds src top w' s
  idle-Holds w' change =
      changed-Holds dangling w' s change (λ b ne. refl) (λ root live. absurd live)
        λ p at. absurd (holds.live dangling p at).1

  no_pages : (b : AddressSpace) → ((root : ℕ) → ¬ IsLive w b root) → s b ≡ none
  no_pages b gone = elim (Option-cases (s b)) [
    | inl nothing ↦ nothing
    | inr (p, at) ↦ let (root, live) = holds.live b p at in absurd (gone root live)
  ]

  -- The call has returned with a reply that the promise allows, and the promise holds afterwards.
  abbrev pub Promised : Call → Option (Reply × World A) → Type 0
  Promised c none = ⊥
  Promised c (some (reply, w')) = (s' : Spaces) × Move s c reply s' × Holds src top w' s'

  destroy-Promised :
      (a : AddressSpace) (root : ℕ) (r : Run A ⊥ (Unit {0}))
      → IsLive w a root
      → Ended src top w holds.system a r
      → Promised (destroy a) (of_unit destroyed r)
  destroy-Promised kernel root r live e =
      let (p, at, _) = holds.there kernel root live in
      rw (e, Promised) (s, destroy_kernel at, holds)
  destroy-Promised (slot k) root (ok _ w') live (change, gone) =
      let (p, at, _) = holds.there (slot k) root live in
      (
        put s (slot k) none,
        destroy_done at,
        changed-Holds (slot k) w' (put s (slot k) none) change (λ b. put_ne s (slot k) b none)
            (λ r live'. absurd (gone r live'))
            λ q there. absurd (cc (put_self s (slot k) none, there)),
      )
  destroy-Promised (slot k) root (err e w') live bad = bad
  destroy-Promised (slot k) root fault live bad = bad
  destroy-Promised dangling root r live _ = elim live [ ]

  enter-Promised :
      (a : AddressSpace) (root : ℕ) (r : Run A ⊥ (Unit {0}))
      → IsLive w a root
      → Entered src top w holds.system r
      → Promised (enter a) (of_unit entered r)
  enter-Promised a root (ok _ w') live change =
      let (p, at, _) = holds.there a root live in (s, enter_done at, idle-Holds w' change)
  enter-Promised a root (err e w') live bad = bad
  enter-Promised a root fault live bad = bad

  page-Promised :
      (a : AddressSpace) (root : ℕ) (live : IsLive w a root) (p : Pages) (r : Request)
      (o : Option (Answer × World A))
      → s a ≡ some p
      → Left src top w holds.system a root live o
      → Refined src root (limit_of top a) a p r o
      → Promised (page a r) (of_answer o)
  page-Promised a root live p r none at bad _ = bad
  page-Promised a root live p r (some (answer, w')) at (change, still) (p', step, rep) = (
    put s a (some p'),
    page_done at step,
    changed-Holds a w' (put s a (some p')) change (λ b. put_ne s a b (some p'))
        (λ r' live'. (
          p',
          put_self s a (some p'),
          subst (λ x. Represents src x (limit_of top a) a w' p')
              (IsLive-unique w' a root r' still live') rep,
        ))
        λ q there. (root, still),
  )

  new-Represents :
      (k f : ℕ) (w' : World A)
      → IsLive w' (slot k) f
      → IsSpace src f 256 w'
      → ((j : ℕ) → j < 256 → entry w'.machine.mem h f j ≡ 0)
      → Represents src f 256 (slot k) w' (λ _. none)
  new-Represents k f w' live space empty = record {
    known = IsLive-root_of w' (slot k) f live;
    space = space;
    pages = λ u address. entry_at-none w'.machine.mem h f (path_of u) (pt_index u) (
        no_table w'.machine.mem h f (pd_index u) (pdpt_index u ∷ pml4_index u ∷ []) empty
          ((path_of-IsPath 256 u address.2).1));
    frames = λ _ m at. absurd (cc at);
  }

  new-Promised :
      (r : Run A MapError AddressSpace) → Made src top w holds.system r → Promised create (of_new r)
  new-Promised (ok a w') (change, (k, is_slot), vacant, (f, live, space, empty)) = (
    put s a (some (λ _. none)),
    subst (λ x. s x ≡ none → Move s create (made x) (put s x (some (λ _. none)))) (sym is_slot)
        create_done (no_pages a vacant),
    changed-Holds a w' (put s a (some (λ _. none))) change (λ b. put_ne s a b (some (λ _. none)))
        (λ r' live'. (
          (λ _. none),
          put_self s a (some (λ _. none)),
          subst (λ x. Represents src x (limit_of top a) a w' (λ _. none))
              (IsLive-unique w' a f r' live live')
              (subst (λ x. IsLive w' x f → Represents src f (limit_of top x) x w' (λ _. none))
                (sym is_slot) (λ l. new-Represents k f w' l space empty) live),
        ))
        λ q there. (f, live),
  )
  new-Promised (err e w') (change, oom) =
      subst (λ x. Promised create (some (not_made x, w'))) (sym oom)
        (s, create_full, idle-Holds w' change)
  new-Promised fault bad = bad

  -- A call that the interface permits returns, with a reply that separate maps of pages, one for each
  -- address space, allow; afterwards the tables hold the maps that the call has left.
  pub perform-Promised : (c : Call) → IsCall top w c → Promised c (perform pt c w)
  unfolding perform
  perform-Promised create _ =
      new-Promised (address_space_new pt w) (address_space_new-Made src top w holds.system)
  perform-Promised (destroy a) (root, live) =
      destroy-Promised a root (address_space_destroy pt a w) live
        (address_space_destroy-Ended src top w holds.system a root live)
  perform-Promised (enter a) (root, live) =
      enter-Promised a root (activate a w) live
        (activate-Entered src top w holds.system a root live)
  perform-Promised (page a r) ((root, live), valid) =
      let (p, at, rep) = holds.there a root live in
      page-Promised a root live p r (serve_one pt a r w) at
        (serve_one-Left src top w holds.system a root live r valid)
        (serve_one-Refined src root (limit_of top a) a w p rep r valid)

module _ {A : Type 0} {pt : PageTableFrameAlloc A} {h : ℕ} (src : IsFrameSource pt h)
    (top : ℕ) where
  -- Permitted calls, one after the other, and their replies.
  pub data Performs : World A → List Call → List Reply → World A → Type 0 where
    idle : {w : World A} → Performs w [] [] w
    then :
        {w w' w'' : World A} {c : Call} {cs : List Call} {reply : Reply} {replies : List Reply}
        → IsCall top w c
        → perform pt c w ≡ some (reply, w')
        → Performs w' cs replies w''
        → Performs w (c ∷ cs) (reply ∷ replies) w''

  one-Promised :
      {w w' : World A} {s : Spaces} (c : Call) (reply : Reply) (holds : Holds src top w s)
      → IsCall top w c
      → perform pt c w ≡ some (reply, w')
      → (s' : Spaces) × Move s c reply s' × Holds src top w' s'
  one-Promised {w} {w'} {s} c reply holds valid e =
      let after : Promised src top w s holds c (some (reply, w')) =
        subst (Promised src top w s holds c) e (perform-Promised src top w s holds c valid) in
      after

  -- The replies to permitted calls, one after the other, are those of separate maps of pages, one for each
  -- address space, and in the end the tables hold the maps that the calls have left.
  pub Performs-Moves :
      {w w' : World A} {cs : List Call} {replies : List Reply} {s : Spaces}
      → Holds src top w s
      → Performs w cs replies w'
      → (s' : Spaces) × Moves s cs replies s' × Holds src top w' s'
  Performs-Moves {s = s} holds idle = (s, over, holds)
  Performs-Moves holds (then {c = c} {reply = reply} valid e rest) =
      let (s', move, holds') = one-Promised c reply holds valid e in
      let (s'', moves, holds'') = Performs-Moves holds' rest in (s'', more move moves, holds'')

-- ===== src/Kernel/Vm/Calls.antt =====
-- The calls of kernel/src/svc/vm.rs on the address spaces of arch/x86_64/src/mmu.rs.
use mathlib.Core.Path.{subst}
use rincos.Prelude.{
  ℕ, ◌%◌, ◌≡◌, ◌≢◌, ◌⊎◌, ◌∙◌, refl, sym, ap, Bool, true, false, Option, none, some, inl, inr,
  bit_or, Bool-cases, Option-cases, if◌then◌else◌,
}
use rincos.Hal.Mmu.{AddressSpace, MapError, MapFlags, TranslateError, invalid_address}
use rincos.X86.Run.{World, Run, ok, err, fault}
use rincos.X86.Mmu.Entry.{aligned_4k, is_canonical, has, pte_p, frame_of, flags_to_pte, pt_index}
use rincos.X86.Mmu.Table.{entry}
use rincos.X86.Mmu.Walk.{table_at, path_of, page_at}
use rincos.X86.Mmu.Page.{root_of, as_x86}
use rincos.X86.Mmu.Page
use rincos.X86.Mmu.Page.Translate.{Translated, translate_lem}
use rincos.X86.Mmu.Page.Unmap.{edit_page, unmap_4k-edit, protect_4k-edit}
use rincos.X86.Mmu.Spaces.{activate}
use rincos.X86.Mmu.Requests.{
  Request, Answer, map_page, unmap_page, protect_page, lookup, of_edit, of_lookup, serve_one,
}
use rincos.X86.Mmu.System.{
  Call, create, destroy, enter, page, Reply, destroyed, entered, of_new, of_unit, of_answer,
  perform, IsCall, subject, IsSystem,
}
use rincos.X86.Mmu.System.Change.{IsLive-root_of, IsSpared}
use rincos.X86.Mmu.System.Keep.{Safe, perform-Safe}
use rincos.Vm.{BootPtAlloc, boot_pt_alloc}
use rincos.Vm.Source.{boot_source}
use rincos.Kernel.Vm.{
  with_alloc, stored, stored_run, with_guard, new_address_space, destroy_address_space,
}
use rincos.Kernel.Vm

-- The service's answer to a request on the pages of an address space.
unfoldable pub request :
    AddressSpace
    → Request
    → World (Option BootPtAlloc)
    → Option (Answer × World (Option BootPtAlloc))
request aspace (map_page v p flags) w = of_edit (Vm.map_4k aspace v p flags w)
request aspace (unmap_page v) w = of_edit (Vm.unmap_4k aspace v w)
request aspace (protect_page v flags) w = of_edit (Vm.protect_4k aspace v flags w)
request aspace (lookup v) w = of_lookup (Vm.translate aspace v w)

-- The call, made to the service; `activate` is the platform's own.
unfoldable pub call :
    Call → World (Option BootPtAlloc) → Option (Reply × World (Option BootPtAlloc))
unfolding request
call create w = of_new (new_address_space w)
call (destroy aspace) w = of_unit destroyed (destroy_address_space aspace w)
call (enter aspace) w = of_unit entered (activate aspace w)
call (page aspace r) w = of_answer (request aspace r w)

abbrev stored_result :
    {X : Type 0} → Option (X × World BootPtAlloc) → Option (X × World (Option BootPtAlloc))
stored_result none = none
stored_result (some (x, w)) = some (x, stored w)

of_new-stored :
    (r : Run BootPtAlloc MapError AddressSpace) → of_new (stored_run r) ≡ stored_result (of_new r)
of_new-stored (ok a w) = refl
of_new-stored (err e w) = refl
of_new-stored fault = refl

of_unit-stored :
    (reply : Reply) (r : Run BootPtAlloc ⊥ (Unit {0}))
    → of_unit reply (stored_run r) ≡ stored_result (of_unit reply r)
of_unit-stored reply (ok _ w) = refl
of_unit-stored reply (err e w) = refl
of_unit-stored reply fault = refl

of_edit-stored :
    (r : Run BootPtAlloc MapError (Unit {0})) → of_edit (stored_run r) ≡ stored_result (of_edit r)
of_edit-stored (ok _ w) = refl
of_edit-stored (err e w) = refl
of_edit-stored fault = refl

of_lookup-stored :
    (r : Run BootPtAlloc TranslateError ℕ) → of_lookup (stored_run r) ≡ stored_result (of_lookup r)
of_lookup-stored (ok p w) = refl
of_lookup-stored (err e w) = refl
of_lookup-stored fault = refl

of_answer-stored :
    (o : Option (Answer × World BootPtAlloc))
    → of_answer (stored_result o) ≡ stored_result (of_answer o)
of_answer-stored none = refl
of_answer-stored (some (a, w)) = refl

-- The edits of a page leave the allocator alone.
edit_page-stored :
    (w : World BootPtAlloc) (root v : ℕ) (change : ℕ → ℕ)
    → edit_page (stored w) root v change ≡ stored_run (edit_page w root v change)
edit_page-stored w root v change = elim (Bool-cases (aligned_4k v)) [
  | inr odd ↦ rw odd refl
  | inl al ↦ elim (Bool-cases (is_canonical v)) [
    | inr odd ↦ rw (al, odd) refl
    | inl ca ↦ elim (Option-cases (table_at w.machine.mem w.machine.hhdm_offset root (path_of v))) [
      | inl gone ↦ rw (al, ca, gone) refl
      | inr (t, at) ↦
          elim (Bool-cases (has (entry w.machine.mem w.machine.hhdm_offset t (pt_index v)) pte_p)) [
            | inr gone ↦ rw (al, ca, at, gone) refl
            | inl there ↦ rw (al, ca, at, there) refl
          ]
    ]
  ]
]

module _ (w : World BootPtAlloc) (aspace : AddressSpace) (root : ℕ)
    (known : root_of w.machine aspace ≡ some root) where
  unmap_4k-stored :
      (v : ℕ) → Page.unmap_4k aspace v (stored w) ≡ stored_run (Page.unmap_4k aspace v w)
  unmap_4k-stored v =
      unmap_4k-edit (stored w) aspace v root known
      ∙ edit_page-stored w root v (λ _. 0)
      ∙ ap stored_run (sym (unmap_4k-edit w aspace v root known))

  protect_4k-stored :
      (v : ℕ) (flags : MapFlags)
      → Page.protect_4k aspace v flags (stored w) ≡ stored_run (Page.protect_4k aspace v flags w)
  protect_4k-stored v flags =
      protect_4k-edit (stored w) aspace v root known flags
      ∙ edit_page-stored w root v
          (λ e. bit_or (frame_of e) (flags_to_pte flags w.machine.nxe_enabled))
      ∙ ap stored_run (sym (protect_4k-edit w aspace v root known flags))

  translated-stored :
      (v : ℕ) (o : Option ℕ) → Translated (stored w) v o ≡ stored_run (Translated w v o)
  translated-stored v none = refl
  translated-stored v (some e) = refl

  translate-stored :
      (v : ℕ) → Page.translate aspace v (stored w) ≡ stored_run (Page.translate aspace v w)
  translate-stored v =
      rw (translate_lem (stored w) aspace v root known, translate_lem w aspace v root known) cases
    where
      cases :
          (if is_canonical v
            then Translated (stored w) v (page_at w.machine.mem w.machine.hhdm_offset root v)
            else err invalid_address (stored w))
          ≡ stored_run (
              if is_canonical v
              then Translated w v (page_at w.machine.mem w.machine.hhdm_offset root v)
              else err invalid_address w)
      cases = elim (Bool-cases (is_canonical v)) [
        | inr odd ↦ rw odd refl
        | inl ca ↦ rw ca (translated-stored v _)
      ]

  activate-stored : activate {E = ⊥} aspace (stored w) ≡ stored_run (activate aspace w)
  unfolding activate
  activate-stored = rw (known, as_x86) refl

  request-stored :
      (r : Request)
      → request aspace r (stored w) ≡ stored_result (serve_one boot_pt_alloc aspace r w)
  unfolding request serve_one Vm.map_4k Vm.unmap_4k Vm.protect_4k Vm.translate with_guard
  request-stored (map_page v p flags) =
      of_edit-stored (Page.map_4k boot_pt_alloc aspace v p flags w)
  request-stored (unmap_page v) =
      ap of_edit (unmap_4k-stored v) ∙ of_edit-stored (Page.unmap_4k aspace v w)
  request-stored (protect_page v flags) =
      ap of_edit (protect_4k-stored v flags) ∙ of_edit-stored (Page.protect_4k aspace v flags w)
  request-stored (lookup v) =
      ap of_lookup (translate-stored v) ∙ of_lookup-stored (Page.translate aspace v w)

-- A permitted call does with the service what it does with the platform and the service's allocator.
call-perform :
    (top : ℕ) (w : World BootPtAlloc) (c : Call)
    → IsCall top w c
    → call c (stored w) ≡ stored_result (perform boot_pt_alloc c w)
unfolding call perform new_address_space destroy_address_space with_guard
call-perform top w create _ = of_new-stored _
call-perform top w (destroy a) _ = of_unit-stored destroyed _
call-perform top w (enter a) (root, live) =
    ap (of_unit entered) (activate-stored w a root (IsLive-root_of w a root live))
    ∙ of_unit-stored entered (activate a w)
call-perform top w (page a r) ((root, live), _) =
    ap of_answer (request-stored w a root (IsLive-root_of w a root live) r)
    ∙ of_answer-stored (serve_one boot_pt_alloc a r w)

-- The calls for which the service takes its allocator.
abbrev pub needs_alloc : Call → Bool
needs_alloc create = true
needs_alloc (destroy aspace) = true
needs_alloc (page aspace (map_page v p flags)) = true
needs_alloc _ = false

without_alloc :
    (w : World (Option BootPtAlloc)) (c : Call)
    → w.pt_alloc ≡ none
    → needs_alloc c ≡ true
    → call c w ≡ none
unfolding call request new_address_space destroy_address_space Vm.map_4k with_guard
without_alloc w create gone _ = rw gone refl
without_alloc w (destroy a) gone _ = rw gone refl
without_alloc w (enter a) gone no_need = absurd (cc no_need)
without_alloc w (page a (map_page v p flags)) gone _ = rw gone refl
without_alloc w (page a (unmap_page v)) gone no_need = absurd (cc no_need)
without_alloc w (page a (protect_page v flags)) gone no_need = absurd (cc no_need)
without_alloc w (page a (lookup v)) gone no_need = absurd (cc no_need)

module _ (h : ℕ) (direct_map : h % 4096 ≡ 0) (top : ℕ) where
  -- The call has returned to a service that has its allocator and its address spaces in order.
  abbrev pub Kept : World BootPtAlloc → Call → Option (Reply × World (Option BootPtAlloc)) → Type 0
  Kept w c none = ⊥
  Kept w c (some (reply, w')) =
      (a : BootPtAlloc) × (w'.pt_alloc ≡ some a)
      × IsSystem (boot_source h direct_map) top (with_alloc w' a)
      × ((b : AddressSpace)
          → b ≢ subject c reply
          → IsSpared (boot_source h direct_map) top w (with_alloc w' a) b)

  -- How a call of the service may go, before `init` and after.
  abbrev pub Called :
      World (Option BootPtAlloc) → Call → Option (Reply × World (Option BootPtAlloc)) → Type 0
  Called w c r =
      ((w.pt_alloc ≡ none) × (needs_alloc c ≡ true → r ≡ none))
      ⊎ ((a : BootPtAlloc) × (w.pt_alloc ≡ some a) × Kept (with_alloc w a) c r)

  Safe-Kept :
      (w : World BootPtAlloc) (c : Call) (o : Option (Reply × World BootPtAlloc))
      → Safe (boot_source h direct_map) top w c o
      → Kept w c (stored_result o)
  Safe-Kept w c none bad = bad
  Safe-Kept w c (some (reply, w')) (sys, spared) = (w'.pt_alloc, refl, sys, spared)

  -- Before `init` the calls that need the allocator end in a panic. After it every permitted call of the
  -- service returns; the allocator is there again, the address spaces are in order, and each of them
  -- but the call's own has every page as it was.
  pub call-Called :
      (w : World (Option BootPtAlloc)) (c : Call)
      → ((a : BootPtAlloc)
          → w.pt_alloc ≡ some a
          → IsSystem (boot_source h direct_map) top (with_alloc w a))
      → ((a : BootPtAlloc) → w.pt_alloc ≡ some a → IsCall top (with_alloc w a) c)
      → Called w c (call c w)
  call-Called w c sys valid = elim (Option-cases w.pt_alloc) [
    | inl gone ↦ inl (gone, without_alloc w c gone)
    | inr (a, there) ↦ inr (
      a,
      there,
      subst (Kept (with_alloc w a) c)
          (sym (call-perform top (with_alloc w a) c (valid a there)) ∙ ap (call c) (same a there))
          (Safe-Kept (with_alloc w a) c (perform boot_pt_alloc c (with_alloc w a)) (
            perform-Safe (boot_source h direct_map) top (with_alloc w a) c (sys a there)
              (valid a there))),
    )
  ]
    where
      same : (a : BootPtAlloc) → w.pt_alloc ≡ some a → stored (with_alloc w a) ≡ w
      same a there = λ i. record w { pt_alloc = sym there i }

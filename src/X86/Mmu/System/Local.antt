-- ===== src/X86/Mmu/System/Local.antt =====
-- A request on the pages of one address space of arch/x86_64/src/mmu.rs changes that space only.
use mathlib.Core.Path.{subst}
use rincos.Prelude.{ℕ, ◌≡◌, ◌≢◌, ◌∙◌, sym, Option, none, some, inl, inr, Bool-cases, if◌then◌else◌}
use rincos.Hal.Mmu.{AddressSpace, MapError, MapFlags, PageTableFrameAlloc, invalid_address}
use rincos.X86.Run.{World, Run, ok, err, fault}
use rincos.X86.Mmu.Walk.{table_at-IsFrame, page_at}
use rincos.X86.Mmu.Frames.{IsFrameSource}
use rincos.X86.Mmu.Ensure.{IsSpace}
use rincos.X86.Mmu.Entry.{is_canonical}
use rincos.X86.Mmu.Page.{root_of, translate}
use rincos.X86.Mmu.Page.Map.{Mapped, map_4k-Mapped}
use rincos.X86.Mmu.Slots.Laws.{IsNamed}
use rincos.X86.Mmu.Page.Translate.{Translated, translate_lem}
use rincos.X86.Mmu.Local.{IsTable, IsOwned, IsLocal, IsLocal-refl}
use rincos.X86.Mmu.Local.Map.{map_4k-IsLocal}
use rincos.X86.Mmu.Local.Edits.{
  unmap_4k-IsLocal, protect_4k-IsLocal, unmap_4k-IsSpace, protect_4k-IsSpace,
}
use rincos.X86.Mmu.Requests.{
  Request, Answer, map_page, unmap_page, protect_page, lookup, of_edit, of_lookup, serve_one,
  IsRequest,
}
use rincos.X86.Mmu.Requests.Keep.{After}
use rincos.X86.Mmu.System.{IsLive, limit_of, IsSystem}
use rincos.X86.Mmu.System.Change.{IsLive-root_of, IsLive-unique, IsLive-same, IsChange}

module _ {A : Type 0} {pt : PageTableFrameAlloc A} {h : ℕ} (src : IsFrameSource pt h) (top : ℕ)
    (w : World A) (sys : IsSystem src top w) (a : AddressSpace) (root : ℕ)
    (live : IsLive w a root) where
  -- Answers that change the address space only.
  abbrev pub Left : Option (Answer × World A) → Type 0
  Left none = ⊥
  Left (some (_, w')) = IsChange src top a w w' × IsLive w' a root

  space : IsSpace src root (limit_of top a) w
  space = sys.spaces a root live

  -- What the address space owns is not a table of another.
  tables_apart :
      (b : AddressSpace) (r u : ℕ)
      → b ≢ a
      → IsLive w b r
      → IsTable h r (limit_of top b) w u
      → ¬ IsOwned src root (limit_of top a) w u
  tables_apart b r u other live_b table (inl here) =
      other (sys.apart b a r root u live_b live table here)
  tables_apart b r u other live_b (js, p, found) (inr av) =
      (sys.spaces b r live_b).fresh js p found av

  pub local-IsChange :
      (w' : World A)
      → IsLocal src root (limit_of top a) w w'
      → IsSpace src root (limit_of top a) w'
      → IsChange src top a w w'
  local-IsChange w' local space' = record {
    hhdm = local.statics.hhdm;
    sound = space'.sound;
    begun = (sys.begun.0, local.statics.kas ∙ sys.begun.1);
    handle = local.statics.handle;
    nxe = local.statics.nxe;
    named = subst (IsNamed 0) (sym local.statics.slots) sys.named;
    old = λ b r _. before b r;
    stays = λ b r _. IsLive-same w w' b r local.statics.kas local.statics.slots;
    same = λ b r u j other live_b (js, p, found) lt.
        local.outside u j (table_at-IsFrame _ h r js (sys.spaces b r live_b).tree.root_frame found)
          lt (tables_apart b r u other live_b (js, p, found));
    fresh = λ b r u other live_b av table.
        tables_apart b r u other live_b table (inr (local.fewer u av));
    own = λ r live'.
        subst (λ x. IsSpace src x (limit_of top a) w')
          (IsLive-unique w a root r live (before a r live')) space';
    own_apart = λ b r s u other live' live_b here. λ table. tables_apart b s u other live_b table (
        local.grown u (
          subst (λ x. IsTable h x (limit_of top a) w' u)
            (IsLive-unique w a r root (before a r live') live) here));
  }
    where
      before : (b : AddressSpace) (r : ℕ) → IsLive w' b r → IsLive w b r
      before b r = IsLive-same w' w b r (sym local.statics.kas) (sym local.statics.slots)

  local-Left :
      (w' : World A)
      → IsLocal src root (limit_of top a) w w'
      → IsSpace src root (limit_of top a) w'
      → IsChange src top a w w' × IsLive w' a root
  local-Left w' local space' = (
    local-IsChange w' local space',
    IsLive-same w w' a root local.statics.kas local.statics.slots live,
  )

  edit-Left :
      (r : Run A MapError (Unit {0}))
      → After (IsLocal src root (limit_of top a) w) r
      → After (IsSpace src root (limit_of top a)) r
      → Left (of_edit r)
  edit-Left (ok _ w') local space' = local-Left w' local space'
  edit-Left (err e w') local space' = local-Left w' local space'
  edit-Left fault bad _ = bad

  known : root_of w.machine a ≡ some root
  known = IsLive-root_of w a root live

  Mapped-IsSpace :
      (v p : ℕ) (flags : MapFlags) (r : Run A MapError (Unit {0}))
      → Mapped src root (limit_of top a) v p flags w r
      → After (IsSpace src root (limit_of top a)) r
  Mapped-IsSpace v p flags (ok _ w') (_, _, _, _, space', _) = space'
  Mapped-IsSpace v p flags (err MapError.unaligned w') (same, _) = rw same space
  Mapped-IsSpace v p flags (err MapError.invalid_args w') (same, _) = rw same space
  Mapped-IsSpace v p flags (err MapError.already_mapped w') (_, space', _, _) = space'
  Mapped-IsSpace v p flags (err MapError.out_of_memory w') (_, space', _, _) = space'
  Mapped-IsSpace v p flags (err MapError.not_mapped w') bad = absurd bad
  Mapped-IsSpace v p flags fault bad = bad

  looked-Left : (v : ℕ) → Left (of_lookup (translate a v w))
  looked-Left v = rw (translate_lem w a v root known) by_result
    where
      same : IsChange src top a w w × IsLive w a root
      same = local-Left w (IsLocal-refl src root (limit_of top a) w) space

      by_page : (o : Option ℕ) → Left (of_lookup (Translated w v o))
      by_page none = same
      by_page (some e) = same

      by_result : Left (
          of_lookup (
            if is_canonical v
            then Translated w v (page_at w.machine.mem w.machine.hhdm_offset root v)
            else err invalid_address w))
      by_result = elim (Bool-cases (is_canonical v)) [
        | inr odd ↦ rw odd same
        | inl ca ↦ rw ca (by_page _)
      ]

  pub serve_one-Left : (r : Request) → IsRequest (limit_of top a) r → Left (serve_one pt a r w)
  unfolding serve_one
  serve_one-Left (map_page v p flags) (word, low, small) =
      edit-Left _ (map_4k-IsLocal src root (limit_of top a) v p flags low w a known space) (
        Mapped-IsSpace v p flags _
          (map_4k-Mapped src root (limit_of top a) v p flags a w word low known space))
  serve_one-Left (unmap_page v) (word, low) =
      edit-Left _ (unmap_4k-IsLocal src root (limit_of top a) v low w space a known)
        (unmap_4k-IsSpace src root (limit_of top a) v low w space a known)
  serve_one-Left (protect_page v flags) (word, low) =
      edit-Left _ (protect_4k-IsLocal src root (limit_of top a) v low w space a known flags)
        (protect_4k-IsSpace src root (limit_of top a) v low w space a known flags)
  serve_one-Left (lookup v) _ = looked-Left v

-- ===== src/X86/Mmu/Requests/Refines.antt =====
-- Requests on an address space, answered by arch/x86_64/src/mmu.rs as its abstract map promises.
use mathlib.Core.Path.{subst}
use rincos.Prelude.{
  ℕ, ◌+◌, ◌/◌, ◌%◌, ◌^◌, ◌<◌, ◌≡◌, ◌∙◌, sym, ap, true, Option, none, some, List, [], ◌∷◌, inl, inr,
  Bool-cases, bit_or,
}
use rincos.Hal.Mmu.{MapError, MapFlags, AddressSpace, PageTableFrameAlloc}
use rincos.X86.Machine.{Machine, update}
use rincos.X86.Run.{World, Run, ok, err, fault}
use rincos.X86.Mmu.Entry.{is_canonical, frame_of, flags_to_pte, pml4_index}
use rincos.X86.Mmu.Entry.Laws.{frame_of-or, frame_of-frame, flags_to_pte-IsFlags}
use rincos.X86.Mmu.Walk.{page_at}
use rincos.X86.Mmu.Frames.{IsFrameSource}
use rincos.X86.Mmu.Page.{translate}
use rincos.X86.Mmu.Page.Translate.{Translated, translate_lem}
use rincos.X86.Mmu.Page.Map.{Mapped, map_4k-Mapped}
use rincos.X86.Mmu.Requests.{
  Request, map_page, unmap_page, protect_page, lookup, Answer, found, of_edit, of_lookup, serve_one,
  serve, Mapping, Pages, Step, map_done, map_taken, map_full, map_unaligned, map_invalid,
  lookup_found, lookup_missing, lookup_invalid, Steps, over, more, IsRequest, AreRequests,
}
use rincos.X86.Mmu.Requests.Keep.{Checked, map_4k-Checked}
use rincos.X86.Mmu.Requests.Represents.{
  some_frame, Represents, Refined, mapping_at, nothing_at, something_at, changed, Kept-pages,
}
use rincos.X86.Mmu.Requests.Edits.{unmap_page-Refined, protect_page-Refined}

module _ {A : Type 0} {pt : PageTableFrameAlloc A} {h : ℕ} (src : IsFrameSource pt h)
    (root limit : ℕ) (aspace : AddressSpace) where
  module _ (w : World A) (s : Pages) (rep : Represents src root limit aspace w s) where
    module _ (v : ℕ) (word : v < 2 ^ 64) (low : pml4_index v < limit) where
      map_page-Refined :
          (p : ℕ) (flags : MapFlags) (r : Run A MapError (Unit {0}))
          → p < 2 ^ 52
          → Mapped src root limit v p flags w r
          → Checked v r
          → Refined src root limit aspace s (map_page v p flags) (of_edit r)
      map_page-Refined p flags (ok _ w') small (al, alp, gone, remap, space', same) ca = (
        update s (v / 4096) (some (record { frame = p; flags = flags })),
        map_done al alp ca (nothing_at src root limit aspace w s rep v (word, ca, low) gone),
        changed src root limit aspace w s rep w' space' (ap (λ (m : Machine). m.kas) same)
            (ap (λ (m : Machine). m.as_slots) same) (ap (λ (m : Machine). m.nxe_enabled) same) v
            (some (record { frame = p; flags = flags })) (some_frame _ (alp, small)) remap,
      )
      map_page-Refined p flags (err MapError.unaligned w') small (same, bad) _ =
          (s, map_unaligned bad, rw same rep)
      map_page-Refined p flags (err MapError.invalid_args w') small (same, bad) _ =
          (s, map_invalid bad, rw same rep)
      map_page-Refined p flags (err MapError.already_mapped w') small (there, space', same, kept)
            ca =
          let (m, here) = something_at src root limit aspace w s rep v (word, ca, low) there in
          (s, map_taken here, Kept-pages src root limit aspace w s rep w' space' same kept)
      map_page-Refined p flags (err MapError.out_of_memory w') small (_, space', same, kept) _ =
          (s, map_full, Kept-pages src root limit aspace w s rep w' space' same kept)
      map_page-Refined p flags (err MapError.not_mapped w') small bad _ = absurd bad
      map_page-Refined p flags fault small bad _ = absurd bad

      translated-Refined :
          is_canonical v ≡ true
          → (o : Option ℕ) → page_at w.machine.mem h root v ≡ o
          → Refined src root limit aspace s (lookup v) (of_lookup (Translated w v o))
      translated-Refined ca none at = (
        s,
        lookup_missing ca (nothing_at src root limit aspace w s rep v (word, ca, low) at),
        rep,
      )
      translated-Refined ca (some e) at =
          let (m, here, eq) = mapping_at src root limit aspace w s rep v (word, ca, low) at in
          (
            s,
            subst (λ q. Step s (lookup v) (found (q + v % 4096)) s) (sym (frame_here m here e eq))
                (lookup_found ca here),
            rep,
          )
        where
          frame_here :
              (m : Mapping)
              → s (v / 4096) ≡ some m
              → (e : ℕ) → e ≡ bit_or (frame_of m.frame) (flags_to_pte m.flags w.machine.nxe_enabled)
              → frame_of e ≡ m.frame
          frame_here m here e eq =
              ap frame_of eq
              ∙ frame_of-or m.frame (flags_to_pte m.flags w.machine.nxe_enabled)
                  (flags_to_pte-IsFlags m.flags _)
              ∙ frame_of-frame m.frame (rep.frames _ m here)

      lookup-Refined : Refined src root limit aspace s (lookup v) (of_lookup (translate aspace v w))
      lookup-Refined = elim (Bool-cases (is_canonical v)) [
        | inr odd ↦ rw (translate_lem w aspace v root rep.known, odd) (s, lookup_invalid odd, rep)
        | inl ca ↦
            rw (translate_lem w aspace v root rep.known, ca)
              (translated-Refined ca _
                (ap (λ o. page_at w.machine.mem o root v) (sym rep.space.hhdm)))
      ]

    pub serve_one-Refined :
        (r : Request)
        → IsRequest limit r
        → Refined src root limit aspace s r (serve_one pt aspace r w)
    unfolding serve_one
    serve_one-Refined (map_page v p flags) (word, low, small) =
        map_page-Refined v word low p flags _ small
          (map_4k-Mapped src root limit v p flags aspace w word low rep.known rep.space)
          (map_4k-Checked pt v p flags aspace w root rep.known)
    serve_one-Refined (unmap_page v) (word, low) =
        unmap_page-Refined src root limit aspace w s rep v word low
    serve_one-Refined (protect_page v flags) (word, low) =
        protect_page-Refined src root limit aspace w s rep v word low flags
    serve_one-Refined (lookup v) (word, low) = lookup-Refined v word low

  -- How requests may be answered.
  abbrev pub Served : Pages → List Request → Option (List Answer × World A) → Type 0
  Served s rs none = ⊥
  Served s rs (some (answers, w')) =
      (s' : Pages) × Steps s rs answers s' × Represents src root limit aspace w' s'

  Served-more :
      (s s' : Pages) (r : Request) (rs : List Request) (a : Answer)
      (o : Option (List Answer × World A))
      → Step s r a s'
      → Served s' rs o
      → Served s (r ∷ rs) (elim o [ none ↦ none | some (answers, w'') ↦ some (a ∷ answers, w'') ])
  Served-more s s' r rs a none step bad = bad
  Served-more s s' r rs a (some (answers, w'')) step (s'', steps, rep) = (s'', more step steps, rep)

  -- Any requests on an address space, one after the other, are all answered, as the abstract map from
  -- pages to frames and flags allows, and afterwards the tables hold the map that the requests left.
  pub serve-Served :
      (rs : List Request) (w : World A) (s : Pages)
      → AreRequests limit rs
      → Represents src root limit aspace w s
      → Served s rs (serve pt aspace rs w)
  unfolding serve
  serve-Served [] w s _ rep = (s, over, rep)
  serve-Served (r ∷ rs) w s (valid, valid_rest) rep =
      next (λ w' s'. serve-Served rs w' s' valid_rest) (serve_one pt aspace r w)
        (serve_one-Refined w s rep r valid)
    where
      next :
          ((w' : World A) (s' : Pages)
            → Represents src root limit aspace w' s'
            → Served s' rs (serve pt aspace rs w'))
          → (o : Option (Answer × World A)) → Refined src root limit aspace s r o
          → Served s (r ∷ rs) (elim o [
            | none ↦ none
            | some (a, w') ↦ elim (serve pt aspace rs w') [
              | none ↦ none
              | some (answers, w'') ↦ some (a ∷ answers, w'')
            ]
          ])
      next later none bad = bad
      next later (some (a, w')) (s', step, rep') =
          Served-more s s' r rs a (serve pt aspace rs w') step (later w' s' rep')

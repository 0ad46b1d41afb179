-- ===== src/Vm/Alloc.antt =====
-- `alloc_frame_4k` and `free_frame_4k` of kernel/src/svc/vm.rs: which frames are handed out.
use rincos.Prelude.{
  ℕ, ◌-◌, ◌≤◌, ◌<◌, ◌≡◌, ◌⊎◌, arith, ap, ◌∙◌, Option, none, some, inl, inr, Bool-cases, ltb, ltb→lt,
  get_elem?, length, get_elem?_of_lt,
}
use rincos.Hal.Mmu.{PhysAddr}
use rincos.X86.Mmu.Entry.Laws.{IsFrame}
use rincos.Vm.{BootPtAlloc, next_from_map, take_frame}
use rincos.Vm.Map.{Ahead}
use rincos.Vm.Rounds.{IsCursor}
use rincos.Vm.FromMap.{Moved, Taken, Emptied, FromMap, next_from_map-FromMap}

-- The frame `q` is on the free list.
abbrev pub Free : BootPtAlloc → ℕ → Type 0
Free a q = (i : ℕ) × (i < a.free_count) × (get_elem? a.free_list i ≡ some q)

-- The frames that the allocator may still hand out.
abbrev pub Avail : BootPtAlloc → ℕ → Type 0
Avail a q = Free a q ⊎ Ahead a q

-- The allocator's invariant: the free list's live part holds distinct frames, none of which is
-- still ahead in the map.
pub record IsSound (h : ℕ) (a : BootPtAlloc) : Type 0 where
  pub hhdm : a.hhdm_offset ≡ h
  pub cursor : IsCursor a
  pub count_le : a.free_count ≤ 128
  pub room : length a.free_list ≡ 128
  pub frames : (q : ℕ) → Free a q → IsFrame q
  pub apart : (q : ℕ) → Free a q → ¬ (Ahead a q)
  pub distinct :
      (i j : ℕ) {q : ℕ}
      → i < a.free_count
      → j < a.free_count
      → get_elem? a.free_list i ≡ some q
      → get_elem? a.free_list j ≡ some q
      → i ≡ j

-- The step from `a` to `a'` hands out `f` and nothing else.
pub record Supplied (h : ℕ) (a : BootPtAlloc) (f : PhysAddr) (a' : BootPtAlloc) : Type 0 where
  pub sound : IsSound h a'
  pub frame : IsFrame f
  pub was_avail : Avail a f
  pub gone : ¬ (Avail a' f)
  pub kept : (q : ℕ) → Avail a' q → Avail a q
  pub covered : (q : ℕ) → Avail a q → (q ≡ f) ⊎ Avail a' q

-- Nothing was there to hand out.
pub record Exhausted (h : ℕ) (a a' : BootPtAlloc) : Type 0 where
  pub sound : IsSound h a'
  pub before : (q : ℕ) → ¬ (Avail a q)
  pub after : (q : ℕ) → ¬ (Avail a' q)

abbrev pub Handed : ℕ → BootPtAlloc → Option PhysAddr × BootPtAlloc → Type 0
Handed h a (some f, a') = Supplied h a f a'
Handed h a (none, a') = Exhausted h a a'

abbrev popped : BootPtAlloc → BootPtAlloc
popped a = record a { free_count = a.free_count - 1 }

module _ (h : ℕ) (a : BootPtAlloc) (sound : IsSound h a) where
  module _ (f : PhysAddr) (some_free : 0 < a.free_count)
      (top : get_elem? a.free_list (a.free_count - 1) ≡ some f) where
    unpop : (q : ℕ) → Free (popped a) q → Free a q
    unpop q (i, lt, at_i) = (i, ground arith, at_i)

    popped-IsSound : IsSound h (popped a)
    popped-IsSound = record {
      hhdm = sound.hhdm;
      cursor = record { map = sound.cursor.map; small = sound.cursor.small };
      count_le = ground (arith, sound.count_le);
      room = sound.room;
      frames = λ q free. sound.frames q (unpop q free);
      apart = λ q free. sound.apart q (unpop q free);
      distinct = λ i j lt lt'. sound.distinct i j (ground arith) (ground arith);
    }

    popped-gone : ¬ (Avail (popped a) f)
    popped-gone (inl (i, lt, at_i)) =
        ground (arith, sound.distinct i (a.free_count - 1) (ground arith) (ground arith) at_i top)
    popped-gone (inr ahead) = sound.apart f (a.free_count - 1, ground arith, top) ahead

    popped-kept : (q : ℕ) → Avail (popped a) q → Avail a q
    popped-kept q (inl free) = inl (unpop q free)
    popped-kept q (inr ahead) = inr ahead

    same_frame : {q : ℕ} (i : ℕ) → i ≡ a.free_count - 1 → get_elem? a.free_list i ≡ some q → q ≡ f
    same_frame i here at_i = cc

    popped-covered : (q : ℕ) → Avail a q → (q ≡ f) ⊎ Avail (popped a) q
    popped-covered q (inl (i, lt, at_i)) = elim (Bool-cases (ltb i (a.free_count - 1))) [
      | inl below ↦ inr (inl (i, ltb→lt i (a.free_count - 1) below, at_i))
      | inr last ↦
          let here : i ≡ a.free_count - 1 = ground (arith, last) in inl (same_frame i here at_i)
    ]
    popped-covered q (inr ahead) = inr (inr ahead)

    popped-Supplied : Supplied h a f (popped a)
    popped-Supplied = record {
      sound = popped-IsSound;
      frame = sound.frames f (a.free_count - 1, ground arith, top);
      was_avail = inl (a.free_count - 1, ground arith, top);
      gone = popped-gone;
      kept = popped-kept;
      covered = popped-covered;
    }

  module _ (a' : BootPtAlloc) (moved : Moved a a') (cursor : IsCursor a')
      (no_free : a.free_count ≡ 0) where
    same_count : a'.free_count ≡ 0
    same_count = ap (λ x. x.free_count) moved ∙ no_free

    unfree : (q : ℕ) → ¬ (Free a' q)
    unfree q (i, lt, _) = ground (arith, same_count)

    moved-IsSound : IsSound h a'
    moved-IsSound = record {
      hhdm = ap (λ x. x.hhdm_offset) moved ∙ sound.hhdm;
      cursor = cursor;
      count_le = ground (arith, same_count);
      room = ap (λ x. length x.free_list) moved ∙ sound.room;
      frames = λ q free. absurd (unfree q free);
      apart = λ q free. absurd (unfree q free);
      distinct = λ i j lt. ground (arith, same_count);
    }

    moved-Ahead : (q : ℕ) → Avail a' q → Ahead a' q
    moved-Ahead q (inl free) = absurd (unfree q free)
    moved-Ahead q (inr ahead) = ahead

    moved-covered : (f : PhysAddr) → Taken a f a' → (q : ℕ) → Avail a q → (q ≡ f) ⊎ Avail a' q
    moved-covered f taken q (inl (i, lt, _)) = ground (arith, no_free)
    moved-covered f taken q (inr ahead) = elim (taken.covered q ahead) [
      | inl same ↦ inl same
      | inr left ↦ inr (inr left)
    ]

    moved-Taken : (f : PhysAddr) → Taken a f a' → Supplied h a f a'
    moved-Taken f taken = record {
      sound = moved-IsSound;
      frame = taken.frame;
      was_avail = inr taken.was_ahead;
      gone = λ avail. taken.passed (moved-Ahead f avail);
      kept = λ q avail. inr (taken.kept q (moved-Ahead q avail));
      covered = moved-covered f taken;
    }

    moved-before : Emptied a a' → (q : ℕ) → ¬ (Avail a q)
    moved-before empty q (inl (i, lt, _)) = ground (arith, no_free)
    moved-before empty q (inr ahead) = empty.before q ahead

    moved-Emptied : Emptied a a' → Exhausted h a a'
    moved-Emptied empty = record {
      sound = moved-IsSound;
      before = moved-before empty;
      after = λ q avail. empty.after q (moved-Ahead q avail);
    }

  from_map : (r : Option PhysAddr × BootPtAlloc) → a.free_count ≡ 0 → FromMap a r → Handed h a r
  from_map (some f, a') no_free taken = moved-Taken a' taken.moved taken.cursor no_free f taken
  from_map (none, a') no_free empty = moved-Emptied a' empty.moved empty.cursor no_free empty

  pub take_frame-Handed : Handed h a (take_frame a)
  unfolding take_frame
  take_frame-Handed = elim (Bool-cases (ltb 0 a.free_count)) [
    | inl some_free ↦
        let lt = ltb→lt 0 a.free_count some_free in
        let (f, top) =
          get_elem?_of_lt a.free_list (a.free_count - 1)
            (ground (arith, lt, sound.count_le, sound.room)) in
        rw (some_free, top) (popped-Supplied f lt top)
    | inr no_free ↦ rw no_free (
        from_map (next_from_map a) (ground (arith, no_free)) (next_from_map-FromMap a sound.cursor))
  ]

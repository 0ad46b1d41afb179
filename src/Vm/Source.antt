-- ===== src/Vm/Source.antt =====
-- The allocator of kernel/src/svc/vm.rs as a provider of page-table frames for mmu.rs.
use rincos.Prelude.{
  ℕ, ◌+◌, ◌-◌, ◌%◌, ◌<◌, ◌≡◌, ◌⊎◌, arith, refl, sym, ap, ◌∙◌, Option, none, some, inl, inr,
  Bool-cases, ltb, ltb→lt, lt→ltb, get_elem?, set, length-set, get_elem?-set_self, get_elem?-set_ne,
}
use rincos.Hal.Mmu.{PhysAddr, Memory}
use rincos.X86.Mmu.Entry.Laws.{IsFrame}
use rincos.X86.Mmu.Table.{entry, fill_zero, phys_to_virt}
use rincos.X86.Mmu.Table as Table
use rincos.X86.Mmu.Walk.Outside.{SameOutside, zero_frame-SameOutside, entry-zero_frame}
use rincos.X86.Mmu.Frames.{Allocated, IsFrameSource}
use rincos.Vm.{
  BootPtAlloc, max_free_frames, zero_frame, take_frame, alloc_frame_4k, free_frame_4k,
  boot_pt_alloc, zero_taken,
}
use rincos.Vm.Map.{Ahead}
use rincos.Vm.Alloc.{Free, Avail, IsSound, Supplied, Exhausted, Handed, take_frame-Handed}

-- What an allocation does to the allocator and to memory.
abbrev pub Served : ℕ → BootPtAlloc → Memory → Option PhysAddr × BootPtAlloc × Memory → Type 0
Served h a mem (some f, a', mem') =
    Supplied h a f a' × ((j : ℕ) → j < 512 → entry mem' h f j ≡ 0) × SameOutside h f mem mem'
Served h a mem (none, a', mem') = Exhausted h a a' × (mem' ≡ mem)

module _ (h : ℕ) (page : h % 4096 ≡ 0) (a : BootPtAlloc) (mem : Memory) where
  same_zero :
      (a' : BootPtAlloc) (p : ℕ)
      → a'.hhdm_offset ≡ h
      → zero_frame a' p mem ≡ Table.zero_frame mem h p
  unfolding zero_frame Table.zero_frame phys_to_virt
  same_zero a' p known = rw known refl

  served : (r : Option PhysAddr × BootPtAlloc) → Handed h a r → Served h a mem (zero_taken mem r)
  unfolding zero_taken
  served (none, a') handed = (handed, refl)
  served (some p, a') handed =
      rw (same_zero a' p handed.sound.hhdm)
        (handed, entry-zero_frame h p mem, zero_frame-SameOutside h p mem page handed.frame)

  -- From a sound allocator, `alloc_frame_4k` returns an available frame, aligned, physical and
  -- zeroed; the frame is no longer available, every other one stays so, and memory is the same
  -- outside it. It returns no frame only when none is available, and then memory is unchanged.
  pub alloc_frame_4k-Served : IsSound h a → Served h a mem (alloc_frame_4k a mem)
  unfolding alloc_frame_4k
  alloc_frame_4k-Served sound = served (take_frame a) (take_frame-Handed h a sound)

-- What giving `f` back does: the available frames are those of before, and `f` while the list has
-- room.
pub record Freed (h : ℕ) (a : BootPtAlloc) (f : PhysAddr) (a' : BootPtAlloc) : Type 0 where
  pub sound : IsSound h a'
  pub kept : (q : ℕ) → Avail a q → Avail a' q
  pub added : a.free_count < 128 → Avail a' f
  pub only : (q : ℕ) → Avail a' q → Avail a q ⊎ (q ≡ f)

abbrev pushed : BootPtAlloc → PhysAddr → BootPtAlloc
pushed a f = record a { free_list = set a.free_list a.free_count f; free_count = a.free_count + 1 }

module _ (h : ℕ) (a : BootPtAlloc) (sound : IsSound h a) (f : PhysAddr) where
  module _ (room : a.free_count < 128) where
    top : get_elem? (pushed a f).free_list a.free_count ≡ some f
    top = get_elem?-set_self a.free_list a.free_count f (ground (arith, room, sound.room))

    below :
        (i : ℕ) → i < a.free_count → get_elem? (pushed a f).free_list i ≡ get_elem? a.free_list i
    below i lt = get_elem?-set_ne a.free_list a.free_count i f (λ e. ground arith)

    on_top :
        (i : ℕ) {q : ℕ} → i ≡ a.free_count → get_elem? (pushed a f).free_list i ≡ some q → q ≡ f
    on_top i here at_i = cc (ap (get_elem? (pushed a f).free_list) here, top, at_i)

    -- A frame of the longer list is one of the shorter, or it is `f` on top.
    place :
        (i : ℕ) {q : ℕ}
        → i < a.free_count + 1
        → get_elem? (pushed a f).free_list i ≡ some q
        → ((i < a.free_count) × (get_elem? a.free_list i ≡ some q)) ⊎ ((i ≡ a.free_count) × (q ≡ f))
    place i lt at_i = elim (Bool-cases (ltb i a.free_count)) [
      | inl under ↦
          let under' = ltb→lt i a.free_count under in inl (under', sym (below i under') ∙ at_i)
      | inr over ↦
          let here : i ≡ a.free_count = ground (arith, over) in inr (here, on_top i here at_i)
    ]

    pushed-Free : (q : ℕ) → Free (pushed a f) q → Free a q ⊎ (q ≡ f)
    pushed-Free q (i, lt, at_i) = elim (place i lt at_i) [
      | inl (under, at_i') ↦ inl (i, under, at_i')
      | inr (_, same) ↦ inr same
    ]

    pushed-frames : IsFrame f → (q : ℕ) → Free (pushed a f) q → IsFrame q
    pushed-frames frame q free = elim (pushed-Free q free) [
      | inl old ↦ sound.frames q old
      | inr same ↦ rw same frame
    ]

    pushed-apart : ¬ (Avail a f) → (q : ℕ) → Free (pushed a f) q → ¬ (Ahead a q)
    pushed-apart fresh q free ahead = elim (pushed-Free q free) [
      | inl old ↦ sound.apart q old ahead
      | inr same ↦ fresh (inr (rw same at ahead))
    ]

    abbrev Place : ℕ → ℕ → Type 0
    Place i q =
        ((i < a.free_count) × (get_elem? a.free_list i ≡ some q)) ⊎ ((i ≡ a.free_count) × (q ≡ f))

    pushed-distinct : ¬ (Avail a f) → (i j q : ℕ) → Place i q → Place j q → i ≡ j
    pushed-distinct fresh i j q (inl (lt, at_i)) (inl (lt', at_j)) =
        sound.distinct i j lt lt' at_i at_j
    pushed-distinct fresh i j q (inl (lt, at_i)) (inr (_, same)) =
        absurd (fresh (inl (i, lt, rw same at at_i)))
    pushed-distinct fresh i j q (inr (_, same)) (inl (lt, at_j)) =
        absurd (fresh (inl (j, lt, rw same at at_j)))
    pushed-distinct fresh i j q (inr (here, _)) (inr (here', _)) = here ∙ sym here'

    pushed-IsSound : IsFrame f → ¬ (Avail a f) → IsSound h (pushed a f)
    pushed-IsSound frame fresh = record {
      hhdm = sound.hhdm;
      cursor = record { map = sound.cursor.map; small = sound.cursor.small };
      count_le = ground (arith, room);
      room = length-set a.free_list a.free_count f ∙ sound.room;
      frames = pushed-frames frame;
      apart = pushed-apart fresh;
      distinct =
          λ i j lt lt' at_i at_j. pushed-distinct fresh i j _ (place i lt at_i) (place j lt' at_j);
    }

    pushed-kept : (q : ℕ) → Avail a q → Avail (pushed a f) q
    pushed-kept q (inl (i, lt, at_i)) = inl (i, ground arith, below i lt ∙ at_i)
    pushed-kept q (inr ahead) = inr ahead

    pushed-only : (q : ℕ) → Avail (pushed a f) q → Avail a q ⊎ (q ≡ f)
    pushed-only q (inl free) = elim (pushed-Free q free) [
      | inl old ↦ inl (inl old)
      | inr same ↦ inr same
    ]
    pushed-only q (inr ahead) = inl (inr ahead)

    pushed-Freed : IsFrame f → ¬ (Avail a f) → Freed h a f (pushed a f)
    pushed-Freed frame fresh = record {
      sound = pushed-IsSound frame fresh;
      kept = pushed-kept;
      added = λ _. inl (a.free_count, ground arith, top);
      only = pushed-only;
    }

  -- A frame that is not available becomes so when it is given back, unless the list is full, and no
  -- other frame does; the allocator stays sound.
  pub free_frame_4k-Freed : IsFrame f → ¬ (Avail a f) → Freed h a f (free_frame_4k a f)
  unfolding free_frame_4k
  free_frame_4k-Freed frame fresh = elim (Bool-cases (ltb a.free_count max_free_frames)) [
    | inl room ↦ rw room (pushed-Freed (ltb→lt a.free_count max_free_frames room) frame fresh)
    | inr full ↦ rw full (record {
      sound = sound;
      kept = λ q avail. avail;
      added = λ room. ground (arith, full);
      only = λ q avail. inl avail;
    })
  ]

  -- The last frame given back is the next to be handed out.
  pub alloc-free :
      a.free_count < 128 → (mem : Memory) → (alloc_frame_4k (free_frame_4k a f) mem).0 ≡ some f
  unfolding alloc_frame_4k free_frame_4k take_frame zero_taken
  alloc-free room mem =
      let back : a.free_count + 1 - 1 ≡ a.free_count = omega arith in
      rw
        (
          lt→ltb a.free_count max_free_frames room,
          lt→ltb 0 (a.free_count + 1) (omega arith),
          back,
          top room,
        )
        refl

pub allocated :
    (h : ℕ) (a : BootPtAlloc) (mem : Memory) (r : Option PhysAddr × BootPtAlloc × Memory)
    → Served h a mem r
    → Allocated h Avail (IsSound h) a mem r
allocated h a mem (none, a', mem') (out, same) = (out.sound, out.after, same)
allocated h a mem (some f, a', mem') (sup, zeroed, same) =
    (sup.sound, sup.kept, sup.frame, sup.was_avail, sup.gone, same)

-- The boot allocator fills the interface that mmu.rs relies on.
abbrev pub boot_source : (h : ℕ) → h % 4096 ≡ 0 → IsFrameSource boot_pt_alloc h
boot_source h page = record {
  Avail = Avail;
  IsSound = IsSound h;
  alloc_lem = λ a mem sound.
      allocated h a mem (alloc_frame_4k a mem) (alloc_frame_4k-Served h page a mem sound);
  free_lem = λ a f sound frame fresh.
      let freed = free_frame_4k-Freed h a sound f frame fresh in (freed.sound, freed.only);
}

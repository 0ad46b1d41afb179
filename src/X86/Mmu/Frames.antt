-- ===== src/X86/Mmu/Frames.antt =====
-- What mmu.rs relies on of the provider of page-table frames, the trait `PageTableFrameAlloc` of
-- crates/hal/src/mmu.rs: a frame that it hands out is no longer its own,
-- and it hands out none only when it has none left.
use rincos.Prelude.{ℕ, ◌≡◌, Option, none, some, ◌⊎◌}
use rincos.Hal.Mmu.{PhysAddr, Memory, PageTableFrameAlloc}
use rincos.X86.Mmu.Entry.Laws.{IsFrame}
use rincos.X86.Mmu.Walk.Outside.{SameOutside}

-- What holds after `alloc_frame_4k`, by its result.
abbrev pub Allocated :
    {A : Type 0} (h : ℕ)
    → (A → ℕ → Type 0)
    → (A → Type 0)
    → A
    → Memory
    → Option PhysAddr × A × Memory
    → Type 0
Allocated h Avail IsSound a mem (none, a', mem') =
    IsSound a' × ((q : ℕ) → ¬ Avail a' q) × (mem' ≡ mem)
Allocated h Avail IsSound a mem (some f, a', mem') =
    IsSound a'
    × ((q : ℕ) → Avail a' q → Avail a q)
    × IsFrame f
    × Avail a f
    × (¬ Avail a' f)
    × SameOutside h f mem mem'

-- `Avail a f` says that the provider may still hand `f` out, and `IsSound` is its own invariant.
pub record IsFrameSource {A : Type 0} (pt : PageTableFrameAlloc A) (h : ℕ) : Type 1 where
  pub Avail : A → ℕ → Type 0
  pub IsSound : A → Type 0
  pub alloc_lem :
      (a : A) (mem : Memory) → IsSound a → Allocated h Avail IsSound a mem (pt.alloc_frame_4k a mem)
  pub free_lem :
      (a : A) (f : ℕ)
      → IsSound a
      → IsFrame f
      → ¬ Avail a f
      → IsSound (pt.free_frame_4k a f)
        × ((q : ℕ) → Avail (pt.free_frame_4k a f) q → Avail a q ⊎ (q ≡ f))

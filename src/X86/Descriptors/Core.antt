-- ===== src/X86/Descriptors/Core.antt =====
-- `init_core` of arch/x86_64/src/lib.rs: what the processor finds in its tables afterwards.
use mathlib.Core.Path.{subst}
use rincos.Prelude.{sym, ℕ, ◌+◌, ◌-◌, ◌*◌, ◌/◌, ◌%◌, ◌^◌, ◌≤◌, ◌<◌, ◌≡◌, arith, refl, true, ◌∷◌}
use rincos.X86.Machine.{update}
use rincos.X86.Descriptors.{
  Descriptors, Layout, tss_sel, tss_size, ist_stack_size, gdt_code64, gdt_data, make_tss_desc,
  is_canonical, init_tss, build_gdt_entries_only, build_tss_desc, build_full_table, load_gdt,
  reload_segments, load_task_register, init_idt, mask_legacy_pic, outb, init_gdt_and_segments,
  load_tss, init_core, tss_word,
}
use rincos.X86.Descriptors.Decode.{
  tss_at, desc_base, desc_limit, IsTaskSegment, make_tss_desc-base, make_tss_desc-limit,
  make_tss_desc-IsTaskSegment,
}
use rincos.X86.Descriptors.Gates.{stub_of, Gated, init_idt-Gated}

module _ (place : Layout) (rsp0_top : ℕ) (d : Descriptors) where
  -- The segment registers select the code and the data descriptor, which lie within the table loaded.
  abbrev pub SegmentsLoaded : Descriptors → Type 0
  SegmentsLoaded d' =
      (d'.gdtr.base ≡ place.full_addr)
      × (d'.full.gdt (d'.cs / 8) ≡ gdt_code64)
      × (d'.full.gdt (d'.data_segments / 8) ≡ gdt_data)
      × (d'.cs + 7 ≤ d'.gdtr.limit)
      × (d'.data_segments + 7 ≤ d'.gdtr.limit)

  -- The top of the stack for double faults.
  abbrev pub df_stack : ℕ
  df_stack = (place.df_ist_stack + ist_stack_size) % 2 ^ 64

  -- The stacks in the task state segment as it lies in memory. Since `rsp0` is aligned to 8 bytes, they
  -- stand at the offsets 8 and 40, and the processor, which reads at 4 and 36, finds the lower half of
  -- each above 32 bits of something else.
  abbrev pub StacksPlaced : Descriptors → Type 0
  StacksPlaced d' =
      (padding : ℕ → ℕ)
      → (tss_at padding d'.tss 8 ≡ rsp0_top % 2 ^ 64)
        × (tss_at padding d'.tss 40 ≡ df_stack)
        × (tss_at padding d'.tss 4 ≡ padding 1 % 2 ^ 32 + rsp0_top % 2 ^ 32 * 2 ^ 32)
        × (tss_at padding d'.tss 36 ≡ d.tss.rsv1 / 2 ^ 32 % 2 ^ 32 + df_stack % 2 ^ 32 * 2 ^ 32)

  -- The task register selects, just behind the three descriptors, the one of the task state segment.
  abbrev pub TaskLoaded : Descriptors → Type 0
  TaskLoaded d' =
      (d'.task_register ≡ 8 * 3)
      × (d'.task_register + 15 ≤ d'.gdtr.limit)
      × (desc_base d'.full.tss ≡ place.tss_addr)
      × (desc_limit d'.full.tss ≡ tss_size - 1)
      × IsTaskSegment d'.full.tss
      × StacksPlaced d'

  -- The table of gates is loaded, with a gate to its stub for every vector that has one.
  abbrev pub GatesLoaded : Descriptors → Type 0
  GatesLoaded d' =
      (d'.idtr.base ≡ place.idt_addr)
      × (d'.idtr.limit + 1 ≡ 256 * 16)
      × ((vec : ℕ) → Gated place d.idt d'.idt vec (stub_of place vec))

  -- Both legacy interrupt controllers are masked.
  abbrev pub LegacyMasked : Descriptors → Type 0
  LegacyMasked d' = d'.ports ≡ (0xa0, 0x20) ∷ (0x20, 0x20) ∷ (0xa1, 0xff) ∷ (0x21, 0xff) ∷ d.ports

  abbrev pub Loaded : Descriptors → Type 0
  Loaded d' = SegmentsLoaded d' × TaskLoaded d' × GatesLoaded d' × LegacyMasked d'

  -- Before the task register is loaded, and after.
  before_task : Descriptors
  before_task = mask_legacy_pic place (init_idt place (init_gdt_and_segments place rsp0_top d))

  abbrev with_task : Descriptors → Descriptors
  with_task c = record c {
    tss_desc = make_tss_desc place.tss_addr tss_size;
    full = record {
      gdt = update (update (update c.full.gdt 0 (c.gdt 0)) 1 (c.gdt 1)) 2 (c.gdt 2);
      tss = make_tss_desc place.tss_addr tss_size;
    };
    task_register = tss_sel;
  }

  -- The last steps leave the gates, the segments and the task state segment itself.
  load_tss_lem :
      (c : Descriptors) → is_canonical place.tss_addr ≡ true → load_tss place c ≡ with_task c
  unfolding load_tss build_tss_desc build_full_table load_task_register
  load_tss_lem c canonical = rw canonical refl

  core_eq : is_canonical place.tss_addr ≡ true → init_core place rsp0_top d ≡ with_task before_task
  unfolding init_core before_task
  core_eq canonical = load_tss_lem _ canonical

  segments : SegmentsLoaded (with_task before_task)
  unfolding before_task mask_legacy_pic outb init_idt init_gdt_and_segments init_tss
      build_gdt_entries_only build_full_table load_gdt reload_segments
  segments = (refl, refl, refl, omega arith, omega arith)

  limit_here : (before_task).gdtr.limit ≡ 39
  unfolding before_task mask_legacy_pic outb init_idt init_gdt_and_segments load_gdt reload_segments
  limit_here = refl

  stacks : StacksPlaced before_task
  unfolding before_task mask_legacy_pic outb init_idt init_gdt_and_segments init_tss
      build_gdt_entries_only build_full_table load_gdt reload_segments tss_word
  stacks padding = (omega arith, omega arith, omega arith, omega arith)

  registers : (before_task.idtr.base ≡ place.idt_addr) × (before_task.idtr.limit + 1 ≡ 256 * 16)
  unfolding before_task mask_legacy_pic outb init_idt
  registers = (refl, refl)

  masked : LegacyMasked before_task
  unfolding before_task mask_legacy_pic outb init_idt init_gdt_and_segments init_tss
      build_gdt_entries_only build_full_table load_gdt reload_segments
  masked = refl

  gates : (vec : ℕ) → Gated place d.idt (before_task).idt vec (stub_of place vec)
  unfolding before_task mask_legacy_pic outb init_gdt_and_segments init_tss build_gdt_entries_only
      build_full_table load_gdt reload_segments
  gates vec = init_idt-Gated place (init_gdt_and_segments place rsp0_top d) vec

  -- `init_core` loads the segment registers, the task register and the table of gates with what
  -- describes the kernel's segments, the task state segment and the stubs, and masks the legacy
  -- controllers, if the task state segment has a canonical address. The stacks in that segment stand 4
  -- bytes behind the offsets at which the processor reads them.
  pub init_core-Loaded :
      place.tss_addr < 2 ^ 64
      → is_canonical place.tss_addr ≡ true
      → Loaded (init_core place rsp0_top d)
  init_core-Loaded word canonical = subst Loaded (sym (core_eq canonical)) (
    segments,
    (
      refl,
      omega (arith, limit_here),
      make_tss_desc-base place.tss_addr tss_size word,
      make_tss_desc-limit place.tss_addr tss_size (omega arith),
      make_tss_desc-IsTaskSegment place.tss_addr tss_size word,
      stacks,
    ),
    (registers.0, registers.1, gates),
    masked,
  )

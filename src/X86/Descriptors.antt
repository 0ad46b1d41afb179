-- ===== src/X86/Descriptors.antt =====
-- arch/x86_64/src/gdt.rs, tss.rs and idt.rs: the tables that tell the processor where its segments,
-- its stacks and its interrupt handlers are, and `init_core` of arch/x86_64/src/lib.rs.
pub mod Decode
pub mod Gates
pub mod Core
use rincos.Prelude.{
  ℕ, zero, suc, ◌+◌, ◌-◌, ◌*◌, ◌/◌, ◌%◌, ◌^◌, ltb, Bool, not, List, [], ◌∷◌, ◌==◌, if◌then◌else◌,
  bit_and, bit_or, shl, shr, as_u16, as_u32, wrapping_add,
}
use rincos.X86.Machine.{update}

pub record Tss64 : Type 0 where
  pub rsv0 : ℕ
  pub rsp0 : ℕ
  pub rsp1 : ℕ
  pub rsp2 : ℕ
  pub rsv1 : ℕ
  pub ist : ℕ → ℕ
  pub rsv2 : ℕ
  pub rsv3 : ℕ
  pub iopb_offset : ℕ

-- The lower half of a 64-bit field at an even index, or the upper one.
abbrev half_at : ℕ → ℕ → ℕ
half_at v i = if i % 2 == 0 then as_u32 v else as_u32 (shr v 32)

-- The segment in memory, by words of 32 bits, as `repr(C)` lays it out: `rsp0` is aligned to 8 bytes,
-- and the whole to 16. What stands in the padding is not determined, and a parameter.
unfoldable pub tss_word : (ℕ → ℕ) → Tss64 → ℕ → ℕ
tss_word padding t i =
    if i == 0
    then as_u32 t.rsv0
    else (if i == 1
        then as_u32 (padding i)
        else (if ltb i 4
            then half_at t.rsp0 i
            else (if ltb i 6
                then half_at t.rsp1 i
                else (if ltb i 8
                    then half_at t.rsp2 i
                    else (if ltb i 10
                        then half_at t.rsv1 i
                        else (if ltb i 24
                            then half_at (t.ist ((i - 10) / 2)) i
                            else (if ltb i 26
                                then half_at t.rsv2 i
                                else (if i == 26
                                    then as_u16 t.rsv3 + as_u16 t.iopb_offset * 2 ^ 16
                                    else as_u32 (padding i)))))))))

-- `size_of::<Tss64>()` with `repr(C, align(16))`.
abbrev pub tss_size : ℕ
tss_size = 112

abbrev pub ist_stack_size : ℕ
ist_stack_size = 16 * 1024

pub record TssDesc : Type 0 where
  pub lo : ℕ
  pub hi : ℕ

-- The three descriptors of the GDT, by index, and the one of the task state segment.
pub record FullTable : Type 0 where
  pub gdt : ℕ → ℕ
  pub tss : TssDesc

-- A table register: what `lgdt` and `lidt` load.
pub record TableRegister : Type 0 where
  pub limit : ℕ
  pub base : ℕ

pub record IdtEntry : Type 0 where
  pub offset_lo : ℕ
  pub selector : ℕ
  pub ist : ℕ
  pub type_attr : ℕ
  pub offset_mid : ℕ
  pub offset_hi : ℕ

-- The statics of the three files, and the registers that they are loaded into.
pub record Descriptors : Type 0 where
  pub tss : Tss64
  pub gdt : ℕ → ℕ
  pub tss_desc : TssDesc
  pub full : FullTable
  pub idt : ℕ → IdtEntry
  pub gdtr : TableRegister
  pub idtr : TableRegister
  pub cs : ℕ
  -- `ds`, `es`, `ss`, `fs` and `gs`.
  pub data_segments : ℕ
  pub task_register : ℕ
  -- Writes to ports, newest first.
  pub ports : List (ℕ × ℕ)

-- Where the linker has put the statics, and the entry points of the stubs in assembly.
pub record Layout : Type 0 where
  pub tss_addr : ℕ
  pub df_ist_stack : ℕ
  pub full_addr : ℕ
  pub idt_addr : ℕ
  pub isr_stub_table : ℕ → ℕ
  pub irq_stub_table : ℕ → ℕ
  pub irq_224 : ℕ
  pub irq_225 : ℕ

abbrev pub kernel_cs : ℕ
kernel_cs = 0x08

abbrev pub kernel_ds : ℕ
kernel_ds = 0x10

abbrev pub tss_sel : ℕ
tss_sel = 0x18

abbrev pub gdt_code64 : ℕ
gdt_code64 = 0x00AF_9A00_0000_FFFF

abbrev pub gdt_data : ℕ
gdt_data = 0x00CF_9200_0000_FFFF

unfoldable pub make_tss_desc : ℕ → ℕ → TssDesc
make_tss_desc tss_addr tss_len =
    let limit = tss_len - 1 in
    let lo = bit_and limit 0xFFFF in
    let lo = bit_or lo (shl (bit_and tss_addr 0xFFFF) 16) in
    let lo = bit_or lo (shl (bit_and (shr tss_addr 16) 0xFF) 32) in
    let lo = bit_or lo (shl 0x89 40) in
    let lo = bit_or lo (shl (bit_and limit 0xF_0000) 32) in
    let lo = bit_or lo (shl (bit_and (shr tss_addr 24) 0xFF) 56) in
    record { lo = lo; hi = shr tss_addr 32 }

unfoldable pub is_canonical : ℕ → Bool
is_canonical addr =
    let sign = bit_and (shr addr 47) 1 in
    let upper = shr addr 48 in if sign == 0 then upper == 0 else upper == 0xffff

module _ (place : Layout) where
  -- Also `init_tss_only`.
  unfoldable pub init_tss : ℕ → Descriptors → Descriptors
  init_tss rsp0_top d = record d {
    tss = record d.tss {
      rsp0 = rsp0_top;
      ist = update d.tss.ist 0 (wrapping_add place.df_ist_stack ist_stack_size);
      iopb_offset = as_u16 tss_size;
    };
  }

  unfoldable pub build_gdt_entries_only : Descriptors → Descriptors
  build_gdt_entries_only d = record d { gdt = update (update d.gdt 1 gdt_code64) 2 gdt_data }

  unfoldable pub build_tss_desc : Descriptors → Descriptors
  unfolding is_canonical make_tss_desc
  build_tss_desc d =
      if not (is_canonical place.tss_addr)
      then d
      else record d { tss_desc = make_tss_desc place.tss_addr (as_u32 tss_size) }

  unfoldable pub build_full_table : Descriptors → Descriptors
  build_full_table d =
      let gdt = update (update (update d.full.gdt 0 (d.gdt 0)) 1 (d.gdt 1)) 2 (d.gdt 2) in
      record d { full = record { gdt = gdt; tss = d.tss_desc } }

  -- `lgdt`: three descriptors of 8 bytes and one of 16.
  unfoldable pub load_gdt : Descriptors → Descriptors
  load_gdt d = record d { gdtr = record { limit = 8 * 3 + 16 - 1; base = place.full_addr } }

  unfoldable pub reload_segments : Descriptors → Descriptors
  reload_segments d = record d { cs = kernel_cs; data_segments = kernel_ds }

  -- `ltr`, the last step of gdt.rs.
  unfoldable pub load_task_register : Descriptors → Descriptors
  load_task_register d = record d { task_register = tss_sel }

  unfoldable pub set_gate : ℕ → ℕ → ℕ → (ℕ → IdtEntry) → ℕ → IdtEntry
  set_gate vec handler ist idt = update idt vec (record {
    offset_lo = as_u16 handler;
    selector = kernel_cs;
    ist = bit_and ist 0x7;
    type_attr = 0x8E;
    offset_mid = as_u16 (shr handler 16);
    offset_hi = as_u32 (shr handler 32);
  })

  -- The two loops of `init_idt`, over `left` vectors from the index `i` on.
  unfoldable pub exception_gates : ℕ → ℕ → (ℕ → IdtEntry) → ℕ → IdtEntry
  unfolding set_gate
  exception_gates vec zero idt = idt
  exception_gates vec (suc left) idt =
      exception_gates (vec + 1) left
        (set_gate vec (place.isr_stub_table vec) (if vec == 8 then 1 else 0) idt)

  unfoldable pub irq_gates : ℕ → ℕ → (ℕ → IdtEntry) → ℕ → IdtEntry
  unfolding set_gate
  irq_gates i zero idt = idt
  irq_gates i (suc left) idt =
      irq_gates (i + 1) left (set_gate (32 + i) (place.irq_stub_table i) 0 idt)

  unfoldable pub init_idt : Descriptors → Descriptors
  unfolding exception_gates irq_gates
  init_idt d =
      let idt = exception_gates 0 32 d.idt in
      let idt = irq_gates 0 16 idt in
      let idt = set_gate 0xe0 place.irq_224 0 idt in
      let idt = set_gate 0xe1 place.irq_225 0 idt in
      record d { idt = idt; idtr = record { limit = 256 * 16 - 1; base = place.idt_addr } }

  unfoldable pub outb : ℕ → ℕ → Descriptors → Descriptors
  outb port val d = record d { ports = (port, val) ∷ d.ports }

  unfoldable pub mask_legacy_pic : Descriptors → Descriptors
  unfolding outb
  mask_legacy_pic d = outb 0xa0 0x20 (outb 0x20 0x20 (outb 0xa1 0xff (outb 0x21 0xff d)))

  unfoldable pub init_gdt_and_segments : ℕ → Descriptors → Descriptors
  unfolding init_tss build_gdt_entries_only build_full_table load_gdt reload_segments
  init_gdt_and_segments rsp0_top d =
      reload_segments (load_gdt (build_full_table (build_gdt_entries_only (init_tss rsp0_top d))))

  unfoldable pub load_tss : Descriptors → Descriptors
  unfolding build_tss_desc build_full_table load_task_register
  load_tss d = load_task_register (build_full_table (build_tss_desc d))

  -- `rsp0_top` is the stack pointer.
  unfoldable pub init_core : ℕ → Descriptors → Descriptors
  unfolding init_gdt_and_segments init_idt mask_legacy_pic load_tss
  init_core rsp0_top d = load_tss (mask_legacy_pic (init_idt (init_gdt_and_segments rsp0_top d)))

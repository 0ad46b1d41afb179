-- ===== src/Tests/Machines.antt =====
-- The start of the processor and of the kernel, kernel/src/kmain.rs, on a small machine.
use rincos.Prelude.{◌≡◌, ◌≤◌, ◌^◌, ◌+◌, ◌*◌, refl, arith, none, [], true}
use rincos.X86.Descriptors.{Layout, Descriptors, IdtEntry, TssDesc, is_canonical, init_core}
use rincos.X86.Descriptors.Core.{Loaded, init_core-Loaded}
use rincos.X86.Cpuid.{has_invariant_tsc, tsc_hz}
use rincos.Kernel.Main.{Kernel, kmain}
use rincos.Kernel.Main.Kept.{counted_hz}
use rincos.Kernel.Main.Running.{Running, kmain-Running}
use rincos.Tests.Memory.{sample_boot}
use rincos.Tests.Requests.{before}
use rincos.Tests.Devices.{cpuid}

abbrev pub place : Layout
place = record {
  tss_addr = 0xffff_ffff_8010_0000;
  df_ist_stack = 0xffff_ffff_8011_0000;
  full_addr = 0xffff_ffff_8012_0000;
  idt_addr = 0xffff_ffff_8013_0000;
  isr_stub_table = λ vec. 0xffff_ffff_8014_0000 + 16 * vec;
  irq_stub_table = λ i. 0xffff_ffff_8015_0000 + 16 * i;
  irq_224 = 0xffff_ffff_8016_0000;
  irq_225 = 0xffff_ffff_8016_0010;
}

abbrev no_gate : IdtEntry
no_gate = record {
  offset_lo = 0;
  selector = 0;
  ist = 0;
  type_attr = 0;
  offset_mid = 0;
  offset_hi = 0;
}

abbrev no_desc : TssDesc
no_desc = record { lo = 0; hi = 0 }

abbrev descriptors : Descriptors
descriptors = record {
  tss = record {
    rsv0 = 0;
    rsp0 = 0;
    rsp1 = 0;
    rsp2 = 0;
    rsv1 = 0;
    ist = λ _. 0;
    rsv2 = 0;
    rsv3 = 0;
    iopb_offset = 0;
  };
  gdt = λ _. 0;
  tss_desc = no_desc;
  full = record { gdt = λ _. 0; tss = no_desc };
  idt = λ _. no_gate;
  gdtr = record { limit = 0; base = 0 };
  idtr = record { limit = 0; base = 0 };
  cs = 0;
  data_segments = 0;
  task_register = 0;
  ports = [];
}

tss-canonical : is_canonical place.tss_addr ≡ true
unfolding is_canonical
tss-canonical = refl

init_core-Loaded_example : Loaded place 0x9000 descriptors (init_core place 0x9000 descriptors)
init_core-Loaded_example = init_core-Loaded place 0x9000 descriptors (omega arith) tss-canonical

abbrev pub cold : Kernel
cold = record { world = before; descriptors = descriptors; handler = λ _. none; timer = none }

counted_small : counted_hz cpuid ≤ 10 ^ 12
unfolding has_invariant_tsc tsc_hz
counted_small = omega arith

kmain-Running_example :
    Running sample_boot cpuid place 0x9000 cold (kmain sample_boot cpuid place 0x9000 cold)
kmain-Running_example =
    kmain-Running sample_boot cpuid place 0x9000 cold (omega arith) tss-canonical counted_small refl

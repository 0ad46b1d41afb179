-- ===== src/Kernel/Entry.antt =====
-- kernel/src/main.rs: `kentry`, from the boot loader's jump to `kmain`, with what it writes.
pub mod Laws
use rincos.Prelude.{ℕ, Option, none, some, List, [], ◌∷◌, codes}
use rincos.Bootabi.{Arch, BootInfo}
use rincos.Limine.Memmap.{EntryType}
use rincos.Limine.Info.{FirmwareType, Responses, Statics, gather_bootinfo}
use rincos.Hal.Serial.{register_serial_writer}
use rincos.X86.Machine.{Machine}
use rincos.X86.Serial.{Ports, com1_writer}
use rincos.X86.Start.{enable_sse}
use rincos.X86.Descriptors.{Layout}
use rincos.X86.Cpuid.{CpuidCount}
use rincos.Kernel.Console.{Output, LogSink, bind, early_write_str, print}
use rincos.Kernel.Console
use rincos.Kernel.Main.{Kernel, kmain}

-- `early_init` of arch/x86_64/src/lib.rs; `cli` and `cld` leave no state of the model.
unfoldable pub early_init : ℕ → Machine → Output Ports → Machine × Output Ports
unfolding enable_sse register_serial_writer
early_init fuel m o =
    (enable_sse m, record o { serial = register_serial_writer (com1_writer fuel) o.serial })

-- What there is when `kmain` is called: the boot information, the logger, and what has been written.
pub record Entered : Type 0 where
  pub boot : BootInfo
  pub logger : Option (LogSink Ports)
  pub output : Output Ports
  pub started : Option Kernel

module _ (f : FirmwareType) (l : EntryType) (responses : Responses) (memory : ℕ → ℕ)
    (statics : Statics) (cpuid : CpuidCount) (place : Layout) (rsp0_top : ℕ) where
  -- The result is none where a write does not return; `started` is what `kmain` comes to.
  unfoldable pub kentry : ℕ → Kernel → Option (LogSink Ports) → Output Ports → Option Entered
  unfolding early_init
  kentry fuel k logger o =
      let (m, o1) = early_init fuel k.world.machine o in
      bind (early_write_str (codes "ENTER kentry\n") o1) λ o2.
        let boot = (gather_bootinfo Arch.x86_64 f l responses memory 1 statics).0 in
        bind (early_write_str (codes "AFTER bootinfo\n") o2) λ o3.
          bind (Console.init logger o3) λ (logger', o4).
            bind (print logger' (codes "logger up" ∷ codes "\n" ∷ []) o4) λ o5. some (record {
              boot = boot;
              logger = logger';
              output = o5;
              started =
                  kmain boot cpuid place rsp0_top
                    (record k { world = record k.world { machine = m } });
            })

-- ===== src/Kernel/Entry/Laws.antt =====
-- What `kentry` of kernel/src/main.rs hands to `kmain`, and what it has written by then.
use mathlib.Core.List.{append_assoc}
use rincos.Prelude.{ℕ, ◌≡◌, ◌∙◌, refl, sym, ap, Option, some, List, [], ◌∷◌, ◌++◌, codes}
use rincos.Bootabi.{Arch, BootInfo}
use rincos.Limine.Memmap.{EntryType}
use rincos.Limine.Info.{FirmwareType, Responses, Statics, gather_bootinfo}
use rincos.Hal.Serial.{register_serial_writer}
use rincos.X86.Serial.{Ports}
use rincos.X86.Serial.Laws.{is_busy}
use rincos.X86.Start.{enable_sse}
use rincos.X86.Descriptors.{Layout}
use rincos.X86.Cpuid.{CpuidCount}
use rincos.Kernel.Console.{
  Output, LogSink, bind, write_raw, early_write_str, serial_sink, set_logger, print,
}
use rincos.Kernel.Console
use rincos.Kernel.Console.Laws.{
  crlf, early-send, print-send, sent, sent-append, IsResponsive, line, after, write_raw-Sent,
  send-Sent,
}
use rincos.Kernel.Main.{Kernel, kmain}
use rincos.Kernel.Entry.{early_init, Entered, kentry}

-- All that is written before `kmain`.
abbrev pub greeting : List ℕ
greeting =
    crlf (codes "ENTER kentry\n")
    ++ (crlf (codes "AFTER bootinfo\n") ++ (codes "OK\n" ++ crlf (codes "logger up\n")))

out_eq :
    (a b c d : List ℕ) (out : List (ℕ × ℕ))
    → sent d (sent c (sent b (sent a out))) ≡ sent (a ++ (b ++ (c ++ d))) out
out_eq a b c d out =
    ap (sent d) (sym (sent-append b c (sent a out)))
    ∙ sym (sent-append (b ++ c) d (sent a out))
    ∙ ap (λ t. sent t (sent a out)) (append_assoc b c d)
    ∙ sym (sent-append a (b ++ (c ++ d)) out)

module _ (fuel : ℕ) where
  init-Sent :
      (logger : Option (LogSink Ports)) (p : Ports)
      → IsResponsive fuel p
      → (n : ℕ) × (Console.init logger (line fuel p)
          ≡ some (some serial_sink, line fuel (after p n (codes "OK\n"))))
  unfolding Console.init set_logger sent is_busy
  init-Sent logger p r =
      let (n1, e1) = write_raw-Sent fuel b'O' p r in
      let (n2, e2) = write_raw-Sent fuel b'K' (after p n1 (codes "O")) r in
      let (n3, e3) = write_raw-Sent fuel 10 (after (after p n1 (codes "O")) n2 (codes "K")) r in
      (n3, rw (e1, e2, e3) refl)

  module _ (f : FirmwareType) (l : EntryType) (responses : Responses) (memory : ℕ → ℕ)
      (statics : Statics) (cpuid : CpuidCount) (place : Layout) (rsp0_top : ℕ) where
    abbrev boot : BootInfo
    boot = (gather_bootinfo Arch.x86_64 f l responses memory 1 statics).0

    -- What `kentry` comes to.
    abbrev pub entered : Kernel → Ports → ℕ → Entered
    entered k p n = record {
      boot = boot;
      logger = some serial_sink;
      output = line fuel (after p n greeting);
      started =
          kmain boot cpuid place rsp0_top
            (record k { world = record k.world { machine = enable_sse k.world.machine } });
    }

    -- With a serial device that never stays busy for `fuel` answers, `kentry` comes to `kmain` whatever
    -- was registered before. It gives `kmain` the boot information for one processor and a machine
    -- with SSE enabled; the serial port is then the kernel's writer and its logger, and it has been
    -- given the greeting, in order, and nothing else.
    pub kentry-Entered :
        (k : Kernel) (logger : Option (LogSink Ports)) (o : Output Ports)
        → IsResponsive fuel o.device
        → (n : ℕ) × (kentry f l responses memory statics cpuid place rsp0_top fuel k logger o
            ≡ some (entered k o.device n))
    unfolding kentry early_init register_serial_writer is_busy
    kentry-Entered k logger o r =
        let p = o.device in
        let a = crlf (codes "ENTER kentry\n") in
        let b = crlf (codes "AFTER bootinfo\n") in
        let c = codes "OK\n" in
        let d = crlf (codes "logger up\n") in
        let (n1, e1) = send-Sent fuel a p r in
        let (n2, e2) = send-Sent fuel b (after p n1 a) r in
        let (n3, e3) = init-Sent logger (after (after p n1 a) n2 b) r in
        let (n4, e4) = send-Sent fuel d (after (after (after p n1 a) n2 b) n3 c) r in
        (
          n4,
          rw
              (
                early-send (codes "ENTER kentry\n") (line fuel p),
                e1,
                early-send (codes "AFTER bootinfo\n") (line fuel (after p n1 a)),
                e2,
                e3,
                print-send (codes "logger up" ∷ codes "\n" ∷ [])
                    (line fuel (after (after (after p n1 a) n2 b) n3 c)),
                e4,
              )
              (ap
                (λ out. some (record (entered k p n4) {
                  output = line fuel (record p { reads = n4; output = out });
                }))
                (out_eq a b c d p.output)),
        )

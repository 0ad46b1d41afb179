-- ===== src/Tests/Consoles.antt =====
-- A serial device that is ready at every second answer, and what the kernel writes to it.
use rincos.Prelude.{
  ℕ, ◌+◌, ◌*◌, ◌%◌, ◌≡◌, refl, arith, none, some, List, [], ◌∷◌, ◌==◌, inl, inr, Bool-cases, false,
  codes, map, ◌++◌, Bool, true,
}
use rincos.Bootabi.{Arch}
use rincos.X86.Serial.{com1, Ports, com1_write}
use rincos.X86.Serial.Laws.{is_busy, IsFirstReady, com1_write-Sent}
use rincos.Kernel.Console.{Output, serial_sink, print}
use rincos.Kernel.Console.Laws.{concat, read_lines, IsResponsive, line, after, print-Sent}
use rincos.Kernel.BootLog.{Piece, text, print_boot_info}
use rincos.Kernel.BootLog.Printed.{reported_lines, gathered, print_boot_info-listing}
use rincos.Kernel.Entry.{kentry}
use rincos.Kernel.Entry.Laws.{entered, kentry-Entered}
use rincos.Tests.Boot.{firmware, kinds, responses, loader_memory, statics, low_entry, high_entry}
use rincos.Tests.Devices.{cpuid}
use rincos.Tests.Machines.{place, cold}

abbrev every_second : Ports
every_second = record { input = λ port n. 0x20 * (n % 2); reads = 0; output = [] }

ready : (n : ℕ) → n % 2 ≡ 1 → is_busy every_second n ≡ false
unfolding is_busy
ready n odd = rw odd refl

every_second-IsResponsive : IsResponsive 2 every_second
every_second-IsResponsive t = elim (Bool-cases (t % 2 == 1)) [
  | inl odd ↦ (t, omega arith, omega arith, ready t (ground (arith, odd)))
  | inr even ↦ (t + 1, omega arith, omega arith, ready (t + 1) (ground (arith, even)))
]

com1_write-Sent_example :
    (k : ℕ) × IsFirstReady every_second k
    × (com1_write 2 65 every_second
        ≡ some (record every_second { reads = k + 1; output = (com1, 65) ∷ [] }))
com1_write-Sent_example =
    com1_write-Sent 2 65 every_second 1 (omega arith) (omega arith) (ready 1 refl)

abbrev pieces : List (List ℕ)
pieces = codes "[ok] " ∷ codes "idle" ∷ codes "\n" ∷ []

print-Sent_example :
    (t : List ℕ) × (n : ℕ) × (read_lines t ≡ concat pieces)
    × (print (some serial_sink) pieces (line 2 every_second)
        ≡ some (line 2 (after every_second n t)))
print-Sent_example = print-Sent 2 pieces every_second every_second-IsResponsive

abbrev unregistered : Output Ports
unregistered = record { serial = none; device = every_second }

kentry-Entered_example :
    (n : ℕ) × (kentry firmware kinds responses loader_memory statics cpuid place 0x9000 2 cold none
        unregistered
      ≡ some (
          entered 2 firmware kinds responses loader_memory statics cpuid place 0x9000 cold
            every_second n))
kentry-Entered_example =
    kentry-Entered 2 firmware kinds responses loader_memory statics cpuid place 0x9000 cold none
      unregistered every_second-IsResponsive

abbrev all_text : List ℕ → Bool
all_text bytes = true

abbrev shown : Piece → List ℕ
shown (text s) = s
shown _ = []

print_boot_info-listing_example :
    (before : List Piece) × (t : List ℕ) × (n : ℕ) × (read_lines t
      ≡ concat (map shown (before ++ reported_lines kinds (low_entry ∷ high_entry ∷ []))))
    × (print_boot_info shown loader_memory all_text
          (gathered firmware kinds responses loader_memory 1 statics Arch.x86_64 low_entry
            (high_entry ∷ []))
          (some serial_sink)
          (line 2 every_second)
        ≡ some (line 2 (after every_second n t)))
print_boot_info-listing_example =
    print_boot_info-listing firmware kinds responses loader_memory 1 statics Arch.x86_64 low_entry
      (high_entry ∷ []) shown all_text 2 every_second refl refl refl (λ e. ground (arith, e))
      every_second-IsResponsive

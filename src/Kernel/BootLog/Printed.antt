-- ===== src/Kernel/BootLog/Printed.antt =====
-- `print_boot_info` of kernel/src/bootinfo.rs as a whole, on the serial line.
use mathlib.Core.List.{append_assoc}
use rincos.Prelude.{
  ℕ, ◌≡◌, ◌≢◌, ◌∙◌, refl, sym, ap, true, Bool, some, List, [], ◌∷◌, ◌++◌, map, take, min, length,
  ltb, Bool-cases, inl, inr, if◌then◌else◌, codes,
}
use rincos.Bootabi.{Arch, BootInfo, MemMapEntry, MemMapView, mem_map_entry_size}
use rincos.Limine.Memmap.{EntryType, Entry, max_memmap, convert_entry, convert_memmap_entries}
use rincos.Limine.Memmap.Laws.{Converted, convert_memmap_entries-Converted}
use rincos.Limine.Info.{FirmwareType, Responses, Statics, gather_bootinfo}
use rincos.X86.Serial.{Ports}
use rincos.Kernel.Console.{serial_sink}
use rincos.Kernel.Console.Laws.{concat, read_lines, IsResponsive, after, print-Sent}
use rincos.Kernel.Console.Laws
use rincos.Kernel.BootLog.{
  Piece, text, hex, dec, line, mem_flags_suffix, header_lines, count_line, print_bytespan, print_fb,
  print_entries, boot_info_pieces, print_boot_info,
}
use rincos.Kernel.BootLog.Laws.{listing, view-listing}

-- What is printed last.
abbrev pub EndsWith : List Piece → List Piece → Type 0
EndsWith xs ys = (before : List Piece) × (xs ≡ before ++ ys)

after_pieces : (a : List Piece) {xs ys : List Piece} → EndsWith xs ys → EndsWith (a ++ xs) ys
after_pieces a {xs} {ys} (before, e) =
    (a ++ before, ap (λ zs. a ++ zs) e ∙ sym (append_assoc a before ys))

pieces-EndsWith :
    (memory : ℕ → ℕ) (is_utf8 : List ℕ → Bool) (boot : BootInfo)
    → EndsWith
        (boot_info_pieces memory is_utf8 boot)
        (count_line boot.mem ++ print_entries boot.mem)
unfolding boot_info_pieces
pieces-EndsWith memory is_utf8 boot = after_pieces (header_lines boot) (
    after_pieces (print_bytespan memory is_utf8 "cmdline" boot.cmdline) (
      after_pieces (print_bytespan memory is_utf8 "bootloader" boot.bootloader)
        (after_pieces (print_fb boot.fb) ([], refl))))

-- The lines on `n` entries that the boot loader reports, of which the kernel takes 1024 at most.
abbrev pub reported_line : ℕ → List Piece
reported_line n = line (
    text (codes "[mem] entries=")
    ∷ dec (min n 1024)
    ∷ text (codes " entry_size=")
    ∷ dec mem_map_entry_size
    ∷ text (codes " flags=")
    ∷ hex (if ltb 1024 n then 1 else 0)
    ∷ text (codes (if ltb 1024 n then " (TRUNCATED)" else ""))
    ∷ [])

-- The lines on what the boot loader reports: the count, and each of the first 1024 entries.
abbrev pub reported_lines : EntryType → List Entry → List Piece
reported_lines l es = reported_line (length es) ++ listing 0 (map (convert_entry l) (take 1024 es))

module _ (l : EntryType) (membuf_ptr : ℕ) (membuf : ℕ → MemMapEntry) (e : Entry)
    (es : List Entry) where
  abbrev view : MemMapView
  view = (convert_memmap_entries l membuf_ptr membuf (e ∷ es)).0.0

  conv : Converted l (e ∷ es) view (convert_memmap_entries l membuf_ptr membuf (e ∷ es)).0.1
  conv = convert_memmap_entries-Converted l membuf_ptr membuf (e ∷ es)

  view-count : count_line view ≡ reported_line (length (e ∷ es))
  unfolding count_line mem_flags_suffix
  view-count = elim (Bool-cases (ltb max_memmap (length (e ∷ es)))) [
    | inl more ↦ rw (conv.count, conv.size, conv.truncated, more) refl
    | inr all ↦ rw (conv.count, conv.size, conv.truncated, all) refl
  ]

  view-lines : membuf_ptr ≢ 0 → count_line view ++ print_entries view ≡ reported_lines l (e ∷ es)
  view-lines placed = rw (view-count, view-listing l membuf_ptr membuf e es placed) refl

module _ (f : FirmwareType) (l : EntryType) (responses : Responses) (memory : ℕ → ℕ) (cpu_count : ℕ)
    (statics : Statics) (arch : Arch) (e : Entry) (es : List Entry) where
  abbrev pub gathered : BootInfo
  gathered = (gather_bootinfo arch f l responses memory cpu_count statics).0

  gathered-lines :
      responses.is_valid ≡ true
      → responses.is_supported ≡ true
      → responses.memmap ≡ some (e ∷ es)
      → statics.membuf_ptr ≢ 0
      → count_line gathered.mem ++ print_entries gathered.mem ≡ reported_lines l (e ∷ es)
  gathered-lines valid supported reported placed =
      ap (λ mem. count_line mem ++ print_entries mem) same
      ∙ view-lines l statics.membuf_ptr statics.membuf e es placed
    where
      same : gathered.mem ≡ view l statics.membuf_ptr statics.membuf e es
      same = unfold gather_bootinfo in rw (valid, supported, reported) refl

  -- If the boot loader answers, and reports memory, and the serial device never stays busy for `fuel`
  -- answers, then `print_boot_info` on what `gather_bootinfo` has collected returns. The log that a
  -- terminal reads ends with a line that counts the entries taken, at most 1024, and says that there
  -- are more exactly if there are, and then one line for each of these entries, numbered and in the
  -- boot loader's order. The buffer of the kernel's copy must not stand at address 0.
  pub print_boot_info-listing :
      (render : Piece → List ℕ) (is_utf8 : List ℕ → Bool) (fuel : ℕ) (p : Ports)
      → responses.is_valid ≡ true
      → responses.is_supported ≡ true
      → responses.memmap ≡ some (e ∷ es)
      → statics.membuf_ptr ≢ 0
      → IsResponsive fuel p
      → (before : List Piece) × (t : List ℕ) × (n : ℕ) × (read_lines t
          ≡ concat (map render (before ++ reported_lines l (e ∷ es))))
        × (print_boot_info render memory is_utf8 gathered (some serial_sink) (Laws.line fuel p)
            ≡ some (Laws.line fuel (after p n t)))
  unfolding print_boot_info
  print_boot_info-listing render is_utf8 fuel p valid supported reported placed responsive =
      let (before, ends) = pieces-EndsWith memory is_utf8 gathered in
      let (t, n, read, done) =
        print-Sent fuel (map render (boot_info_pieces memory is_utf8 gathered)) p responsive in
      (
        before,
        t,
        n,
        read
            ∙ ap (λ pieces. concat (map render pieces))
                (ends ∙ ap (λ ys. before ++ ys) (gathered-lines valid supported reported placed)),
        done,
      )

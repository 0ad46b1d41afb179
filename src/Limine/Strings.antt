-- ===== src/Limine/Strings.antt =====
-- The strings of crates/bootloader/limine/src/lib.rs: where the boot loader's lie, and the buffer
pub mod View
-- `STRBUF` that the kernel's copies go to.
pub mod Laws
use rincos.Prelude.{
  ℕ, zero, suc, ◌+◌, ◌-◌, ◌%◌, ◌^◌, ◌||◌, Bool, not, Option, none, some, List, [], ◌∷◌, ltb, ◌==◌,
  if◌then◌else◌, length, min, bit_and, bit_not,
}
use rincos.Bootabi.{MemMapView, ByteSpan, empty_span, mem_map_entry_size}
use rincos.X86.Machine.{update}
use rincos.Limine.Memmap.{resolve_limine_ptr}

abbrev pub strbuf_size : ℕ
strbuf_size = 4096

abbrev pub max_str_bytes : ℕ
max_str_bytes = 1024

pub record StrView : Type 0 where
  pub ptr : ℕ
  pub len : ℕ

-- `STRBUF`, a byte for each index, and `STRBUF_USED`.
pub record StrBuf : Type 0 where
  pub bytes : ℕ → ℕ
  pub used : ℕ

-- `buf[off..off + src.len()].copy_from_slice(src)`.
unfoldable pub copy_from_slice : (ℕ → ℕ) → ℕ → List ℕ → ℕ → ℕ
copy_from_slice buf off [] = buf
copy_from_slice buf off (b ∷ bs) = copy_from_slice (update buf off b) (off + 1) bs

-- `(STRBUF_USED + 7) & !7`.
unfoldable pub next_offset : ℕ → ℕ
next_offset used = bit_and ((used + 7) % 2 ^ 64) (bit_not 7)

-- The buffer stands at `strbuf_ptr`.
unfoldable pub strbuf_alloc_copy : ℕ → List ℕ → StrBuf → ByteSpan × StrBuf
strbuf_alloc_copy strbuf_ptr [] buf = (empty_span, buf)
strbuf_alloc_copy strbuf_ptr (b ∷ bs) buf =
    let off = next_offset buf.used in
    let need = length (b ∷ bs) in
    if ltb strbuf_size (off + need) then (empty_span, buf) else (
      record { ptr = strbuf_ptr + off; len = need % 2 ^ 32 },
      record { bytes = copy_from_slice buf.bytes off (b ∷ bs); used = off + need },
    )

abbrev pub sep : List ℕ
sep = 0x20 ∷ []

unfoldable pub strbuf_alloc_join : ℕ → List ℕ → List ℕ → StrBuf → ByteSpan × StrBuf
unfolding strbuf_alloc_copy
strbuf_alloc_join strbuf_ptr [] b buf = strbuf_alloc_copy strbuf_ptr b buf
strbuf_alloc_join strbuf_ptr (x ∷ xs) [] buf = strbuf_alloc_copy strbuf_ptr (x ∷ xs) buf
strbuf_alloc_join strbuf_ptr (x ∷ xs) (y ∷ ys) buf =
    let a = x ∷ xs in
    let b = y ∷ ys in
    let off = next_offset buf.used in
    let need = length a + length sep + length b in
    if ltb strbuf_size (off + need)
    then (empty_span, buf)
    else (let with_a = copy_from_slice buf.bytes off a in
        let cur = off + length a in
        let with_sep = copy_from_slice with_a cur sep in
        let cur = cur + length sep in
        (
          record { ptr = strbuf_ptr + off; len = need % 2 ^ 32 },
          record { bytes = copy_from_slice with_sep cur b; used = cur + length b },
        ))

-- `bytes.iter().position(|&b| b == 0)`, over `left` bytes from `ptr + i` on.
unfoldable pub position_zero : (ℕ → ℕ) → ℕ → ℕ → ℕ → Option ℕ
position_zero memory ptr i zero = none
position_zero memory ptr i (suc left) =
    let rest = position_zero memory ptr (i + 1) left in
    if memory (ptr + i) == 0 then some i else rest

-- `memory` has the bytes at virtual addresses.
unfoldable pub cstr_view : (ℕ → ℕ) → ℕ → ℕ → MemMapView → Option StrView
cstr_view memory ptr hhdm_offset mem =
    if ptr == 0
      || mem.entries_ptr == 0
      || mem.entry_count == 0
      || not (mem.entry_size == mem_map_entry_size)
    then none
    else elim (resolve_limine_ptr ptr hhdm_offset mem.entries mem.entry_count) [
      | none ↦ none
      | some (virt, max) ↦
          let max_len = min max max_str_bytes in
          if max_len == 0 then none else elim (position_zero memory virt 0 max_len) [
            | none ↦ none
            | some len ↦ if len == 0 then none else some (record { ptr = virt; len = len })
          ]
    ]

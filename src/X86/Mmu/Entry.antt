-- ===== src/X86/Mmu/Entry.antt =====
-- arch/x86_64/src/mmu.rs: the constants, the tests on an address and the bits of an entry.
pub mod Laws
use rincos.Prelude.{ℕ, ◌-◌, ◌^◌, Bool, not, ◌&&◌, bit_and, bit_or, ◌==◌, if◌then◌else◌, shr}
use rincos.Hal.Mmu.{MapFlags}

abbrev pub max_cpus : ℕ
max_cpus = 256

abbrev pub max_address_spaces : ℕ
max_address_spaces = 64

abbrev pub page_size : ℕ
page_size = 4096

abbrev pub entry_count : ℕ
entry_count = 512

abbrev pub kernel_pml4_start : ℕ
kernel_pml4_start = 256

abbrev pub addr_mask : ℕ
addr_mask = 0x000f_ffff_ffff_f000

abbrev pub pte_p : ℕ
pte_p = 2 ^ 0

abbrev pub pte_w : ℕ
pte_w = 2 ^ 1

abbrev pub pte_u : ℕ
pte_u = 2 ^ 2

abbrev pub pte_pwt : ℕ
pte_pwt = 2 ^ 3

abbrev pub pte_pcd : ℕ
pte_pcd = 2 ^ 4

abbrev pub pte_ps : ℕ
pte_ps = 2 ^ 7

abbrev pub pte_g : ℕ
pte_g = 2 ^ 8

abbrev pub pte_nx : ℕ
pte_nx = 2 ^ 63

unfoldable pub aligned_4k : ℕ → Bool
aligned_4k x = bit_and x (page_size - 1) == 0

unfoldable pub is_canonical : ℕ → Bool
is_canonical addr =
    let sign = bit_and (shr addr 47) 1 in
    let upper = shr addr 48 in if sign == 0 then upper == 0 else upper == 0xffff

unfoldable pub pml4_index : ℕ → ℕ
pml4_index v = bit_and (shr v 39) 0x1ff

unfoldable pub pdpt_index : ℕ → ℕ
pdpt_index v = bit_and (shr v 30) 0x1ff

unfoldable pub pd_index : ℕ → ℕ
pd_index v = bit_and (shr v 21) 0x1ff

unfoldable pub pt_index : ℕ → ℕ
pt_index v = bit_and (shr v 12) 0x1ff

-- `(entry & bit) != 0`.
unfoldable pub has : ℕ → ℕ → Bool
has entry bit = not (bit_and entry bit == 0)

unfoldable pub frame_of : ℕ → ℕ
frame_of entry = bit_and entry addr_mask

unfoldable pub flags_to_pte : MapFlags → Bool → ℕ
flags_to_pte flags nxe =
    let p = pte_p in
    let p = if flags.write then bit_or p pte_w else p in
    let p = if flags.user then bit_or p pte_u else p in
    let p = if flags.global then bit_or p pte_g else p in
    let p = if not flags.exec && nxe then bit_or p pte_nx else p in
    if flags.uncached then bit_or p (bit_or pte_pcd pte_pwt) else p

-- What `ensure_table` gives a new entry beside the frame.
unfoldable pub table_flags : Bool → ℕ
table_flags user = let flags = bit_or pte_p pte_w in if user then bit_or flags pte_u else flags

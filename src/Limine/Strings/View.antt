-- ===== src/Limine/Strings/View.antt =====
-- `resolve_limine_ptr` and `cstr_view` of crates/bootloader/limine/src/lib.rs: a string that is
-- taken over ends inside one entry of the memory map.
use rincos.Prelude.{
  ℕ, zero, suc, ◌+◌, ◌%◌, ◌^◌, ◌≤◌, ◌<◌, ◌≡◌, ◌≢◌, ◌&&◌, ◌||◌, not, arith, inl, inr, Option, none,
  some, ltb, ◌==◌, if◌then◌else◌, Bool-cases, wrapping_add, wrapping_sub, min,
}
use rincos.Bootabi.{MemMapEntry, MemMapView, mem_map_entry_size}
use rincos.Limine.Memmap.{phys_available, resolve_limine_ptr}
use rincos.Limine.Memmap.Laws.{Found, phys_available-Found}
use rincos.Limine.Strings.{StrView, position_zero, cstr_view, max_str_bytes}

-- The first zero byte from index `i` on.
abbrev pub FirstZero : (ℕ → ℕ) → ℕ → ℕ → ℕ → Option ℕ → Type 0
FirstZero memory ptr i end none = (k : ℕ) → i ≤ k → k < end → memory (ptr + k) ≢ 0
FirstZero memory ptr i end (some len) =
    (i ≤ len)
    × (len < end)
    × (memory (ptr + len) ≡ 0)
    × ((k : ℕ) → i ≤ k → k < len → memory (ptr + k) ≢ 0)

module _ (memory : ℕ → ℕ) (ptr : ℕ) where
  next-FirstZero :
      (i end : ℕ) (r : Option ℕ)
      → (memory (ptr + i) ≢ 0)
      → FirstZero memory ptr (i + 1) end r
      → FirstZero memory ptr i end r
  next-FirstZero i end none ne after = λ k le lt zero_k. elim (Bool-cases (i == k)) [
    | inl e ↦ ground arith
    | inr other ↦ after k (ground (arith, other)) lt zero_k
  ]
  next-FirstZero i end (some len) ne (le, lt, zero_at, after) = (
    omega (arith, le),
    lt,
    zero_at,
    λ k le' lt' zero_k. elim (Bool-cases (i == k)) [
      | inl e ↦ ground arith
      | inr other ↦ after k (ground (arith, other)) lt' zero_k
    ],
  )

  position_zero-FirstZero :
      (i left end : ℕ)
      → i + left ≡ end
      → FirstZero memory ptr i end (position_zero memory ptr i left)
  unfolding position_zero
  position_zero-FirstZero i zero end e = λ k le lt. ground arith
  position_zero-FirstZero i (suc left) end e = elim (Bool-cases (memory (ptr + i) == 0)) [
    | inl here ↦
        rw (here, FirstZero)
          (omega arith, omega (arith, e), ground (arith, here), λ k le lt. ground arith)
    | inr other ↦
        rw (other, FirstZero)
          (next-FirstZero i end (position_zero memory ptr (i + 1) left) (λ z. ground (arith, other))
            (position_zero-FirstZero (i + 1) left end (omega (arith, e))))
  ]

module _ (h : ℕ) (entries : ℕ → MemMapEntry) (count : ℕ) where
  -- The virtual address is that of a physical one which an entry holds, with `room` bytes left.
  abbrev pub Resolved : Option (ℕ × ℕ) → Type 0
  Resolved none = Unit {0}
  Resolved (some (virt, room)) =
      (phys : ℕ) × (virt ≡ (phys + h) % 2 ^ 64) × Found entries phys 0 count (some room)

  resolved :
      (phys virt : ℕ) (r : Option ℕ)
      → virt ≡ (phys + h) % 2 ^ 64
      → Found entries phys 0 count r
      → Resolved (elim r [ none ↦ none | some room ↦ some (virt, room) ])
  resolved phys virt none e found = tt
  resolved phys virt (some room) e found = (phys, e, found)

  pub resolve-Resolved :
      (ptr : ℕ) → ptr < 2 ^ 64 → h < 2 ^ 64 → Resolved (resolve_limine_ptr ptr h entries count)
  unfolding resolve_limine_ptr
  resolve-Resolved ptr small small_h = elim (Bool-cases (not (h == 0) && ltb ptr h)) [
    | inl below ↦ rw below (
        resolved ptr (wrapping_add ptr h) (phys_available ptr entries count) (omega arith)
          (phys_available-Found entries ptr count))
    | inr above ↦
        let phys : ℕ = if h == 0 then ptr else wrapping_sub ptr h in
        rw above (
          resolved phys ptr (phys_available phys entries count) (ground (arith, above))
            (phys_available-Found entries phys count))
  ]

-- A string that is not empty, whose bytes and the zero after them lie in one entry of the memory map.
pub record IsString (memory : ℕ → ℕ) (h : ℕ) (mem : MemMapView) (v : StrView) : Type 0 where
  pub entry : ℕ
  pub phys : ℕ
  pub index : entry < mem.entry_count
  pub lower : (mem.entries entry).base ≤ phys
  pub upper : phys + v.len < (mem.entries entry).base + (mem.entries entry).len
  pub virt : v.ptr ≡ (phys + h) % 2 ^ 64
  pub not_empty : 0 < v.len
  pub bound : v.len < max_str_bytes
  pub bytes : (k : ℕ) → k < v.len → memory (v.ptr + k) ≢ 0
  pub end : memory (v.ptr + v.len) ≡ 0

abbrev pub Viewed : (ℕ → ℕ) → ℕ → MemMapView → Option StrView → Type 0
Viewed memory h mem none = Unit {0}
Viewed memory h mem (some v) = IsString memory h mem v

module _ (memory : ℕ → ℕ) (ptr h : ℕ) (mem : MemMapView) where
  found-Viewed :
      (virt room : ℕ)
      → Resolved h mem.entries mem.entry_count (some (virt, room))
      → (r : Option ℕ) → FirstZero memory virt 0 (min room max_str_bytes) r
      → Viewed memory h mem (elim r [
        | none ↦ none
        | some len ↦ if len == 0 then none else some (record { ptr = virt; len = len })
      ])
  found-Viewed virt room found none _ = tt
  found-Viewed virt room (phys, e, (j, _, lt, holds, end)) (some len)
        (_, in_room, zero_at, nonzero) =
      elim (Bool-cases (len == 0)) [
        | inl empty ↦ rw empty tt
        | inr full ↦ rw full (record {
          entry = j;
          phys = phys;
          index = lt;
          lower = holds.0;
          upper = omega (arith, end, in_room);
          virt = e;
          not_empty = ground (arith, full);
          bound = omega (arith, in_room);
          bytes = λ k lt'. nonzero k (omega arith) lt';
          end = zero_at;
        })
      ]

  Resolved-Viewed :
      (r : Option (ℕ × ℕ))
      → Resolved h mem.entries mem.entry_count r
      → Viewed memory h mem (elim r [
        | none ↦ none
        | some (virt, max) ↦
            let max_len = min max max_str_bytes in
            if max_len == 0 then none else elim (position_zero memory virt 0 max_len) [
              | none ↦ none
              | some len ↦ if len == 0 then none else some (record { ptr = virt; len = len })
            ]
      ])
  Resolved-Viewed none _ = tt
  Resolved-Viewed (some (virt, max)) found = elim (Bool-cases (min max max_str_bytes == 0)) [
    | inl empty ↦ rw empty tt
    | inr full ↦ rw full (
        found-Viewed virt max found (position_zero memory virt 0 (min max max_str_bytes)) (
          position_zero-FirstZero memory virt 0 (min max max_str_bytes) (min max max_str_bytes)
            (omega arith)))
  ]

  -- A string that `cstr_view` finds has between 1 and 1023 bytes, none of them zero, and it ends,
  -- with its zero, inside the entry of the memory map that it starts in.
  pub cstr_view-Viewed :
      ptr < 2 ^ 64 → h < 2 ^ 64 → Viewed memory h mem (cstr_view memory ptr h mem)
  unfolding cstr_view
  cstr_view-Viewed small small_h =
      elim (Bool-cases (
        ptr == 0
        || mem.entries_ptr == 0
        || mem.entry_count == 0
        || not (mem.entry_size == mem_map_entry_size))) [
          | inl bad ↦ rw bad tt
          | inr good ↦ rw good (
              Resolved-Viewed (resolve_limine_ptr ptr h mem.entries mem.entry_count)
                (resolve-Resolved h mem.entries mem.entry_count ptr small small_h))
        ]

-- ===== src/Vm/Rounds.antt =====
-- `next_from_map` of kernel/src/svc/vm.rs: what a round does, and that the rounds suffice.
use rincos.Prelude.{
  ℕ, ◌+◌, ◌*◌, ◌/◌, ◌%◌, ◌^◌, ◌≤◌, ◌<◌, ◌≡◌, arith, true, false, refl, none, some, inl, inr,
  Bool-cases, ltb, ltb→lt, if◌then◌else◌, checked_add,
}
use rincos.Bootabi.{MemMapEntry}
use rincos.X86.Mmu.Entry.Laws.{IsFrame}
use rincos.Vm.{
  BootPtAlloc, Round, continue, return, is_usable, align_up, page_size, skip, next_round,
}
use rincos.Vm.Map.{IsMap, IsIn, IsUsable, Ahead, align_up-page}

-- The allocator stands somewhere in a sane map.
pub record IsCursor (a : BootPtAlloc) : Type 0 where
  pub map : IsMap a.entries a.entry_count
  pub small : a.cur_addr ≤ 2 ^ 52

-- The first address in the present entry that the allocator looks at.
abbrev pub start : BootPtAlloc → ℕ
start a =
    let base = (a.entries a.cur_entry).base in if ltb a.cur_addr base then base else a.cur_addr

abbrev pub Rounded : BootPtAlloc → Round → Type 0
Rounded a (continue a') = (a' ≡ skip a) × ((q : ℕ) → Ahead a q → Ahead (skip a) q)
Rounded a (return none a') = ⊥
Rounded a (return (some f) a') =
    (a' ≡ record a { cur_addr = f + 4096 })
    × IsFrame f
    × (f + 4096 ≤ 2 ^ 52)
    × IsIn a.entries a.entry_count a.cur_entry f
    × (a.cur_addr ≤ f)
    × ((q : ℕ) → IsIn a.entries a.entry_count a.cur_entry q → a.cur_addr ≤ q → f ≤ q)

module _ (a : BootPtAlloc) (cursor : IsCursor a) (live : a.cur_entry < a.entry_count) where
  abbrev e : MemMapEntry
  e = a.entries a.cur_entry

  later :
      (q : ℕ)
      → ¬ (IsIn a.entries a.entry_count a.cur_entry q × (a.cur_addr ≤ q))
      → Ahead a q
      → Ahead (skip a) q
  later q nowhere (j, within, inl lt) = (j, within, ground arith)
  later q nowhere (j, within, inr (same, from)) = absurd (nowhere (rw same within, from))

  unusable : is_usable e.mem_type ≡ false → Rounded a (next_round a e)
  unfolding next_round
  unusable no_use = rw no_use (refl, λ q. later q λ (within, _). ground (arith, within.usable))

  module _ (usable : IsUsable e) where
    end_bound : e.base + e.len ≤ 2 ^ 52
    end_bound = cursor.map.physical a.cur_entry live usable

    addr : ℕ
    addr = align_up (start a) page_size

    addr_eq : addr ≡ (start a + 4095) / 4096 * 4096
    unfolding addr
    addr_eq = align_up-page (start a) (ground (arith, end_bound, cursor.small))

    -- The aligned start is the least frame of the entry that is left, if any is.
    least : (q : ℕ) → IsIn a.entries a.entry_count a.cur_entry q → a.cur_addr ≤ q → addr ≤ q
    least q within from = ground (arith, addr_eq, within.lower, within.aligned)

    addr_bounds : (e.base ≤ addr) × (a.cur_addr ≤ addr) × (addr % 4096 ≡ 0) × (addr ≤ 2 ^ 53)
    addr_bounds = ground (arith, addr_eq, end_bound, cursor.small)

    end_known : checked_add e.base e.len ≡ some (e.base + e.len)
    end_known = ground (arith, end_bound)

    next_known : checked_add addr page_size ≡ some (addr + 4096)
    next_known = ground (arith, addr_bounds)

    within_addr : addr + 4096 ≤ e.base + e.len → IsIn a.entries a.entry_count a.cur_entry addr
    within_addr fits = record {
      index = live;
      usable = usable;
      aligned = addr_bounds.2;
      lower = addr_bounds.0;
      upper = fits;
    }

    nowhere_left :
        ltb (e.base + e.len) (addr + 4096) ≡ true
        → (q : ℕ) → ¬ (IsIn a.entries a.entry_count a.cur_entry q × (a.cur_addr ≤ q))
    nowhere_left over q (within, from) =
        ground
          (arith, least q within from, within.upper, ltb→lt (e.base + e.len) (addr + 4096) over)

    room : ltb (e.base + e.len) (addr + 4096) ≡ false → addr + 4096 ≤ e.base + e.len
    room fits = ground (arith, fits)

    found :
        ltb (e.base + e.len) (addr + 4096) ≡ false
        → Rounded a (return (some addr) (record a { cur_addr = addr + page_size }))
    found fits = (
      refl,
      (addr_bounds.2, ground (arith, room fits, end_bound)),
      ground (arith, room fits, end_bound),
      within_addr (room fits),
      addr_bounds.1,
      least,
    )

    usable_round : Rounded a (next_round a e)
    unfolding next_round addr
    usable_round = elim (Bool-cases (ltb (e.base + e.len) (addr + 4096))) [
      | inl over ↦
          rw (usable, end_known, next_known, over) (refl, λ q. later q (nowhere_left over q))
      | inr fits ↦ rw (usable, end_known, next_known, fits) (found fits)
    ]

  pub next_round-Rounded : Rounded a (next_round a (a.entries a.cur_entry))
  next_round-Rounded = elim (Bool-cases (is_usable e.mem_type)) [
    | inl usable ↦ usable_round usable
    | inr no_use ↦ unusable no_use
  ]

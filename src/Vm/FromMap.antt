-- ===== src/Vm/FromMap.antt =====
-- `next_from_map` of kernel/src/svc/vm.rs: which frame it takes, and that its rounds suffice.
use rincos.Prelude.{
  ℕ, zero, suc, ◌+◌, ◌-◌, ◌≤◌, ◌<◌, ◌≡◌, ◌⊎◌, arith, refl, Option, none, some, inl, inr, Bool-cases,
  ltb, ltb→lt, lt→ltb,
}
use rincos.Hal.Mmu.{PhysAddr}
use rincos.X86.Mmu.Entry.Laws.{IsFrame}
use rincos.Vm.{
  BootPtAlloc, Round, continue, return, skip, next_round, next_loop, next_from_map, entry_at,
}
use rincos.Vm.Map.{IsMap, IsIn, Ahead}
use rincos.Vm.Rounds.{IsCursor, Rounded, next_round-Rounded}

-- The allocator `a` with its cursor moved.
abbrev pub Moved : BootPtAlloc → BootPtAlloc → Type 0
Moved a a' = a' ≡ record a { cur_entry = a'.cur_entry; cur_addr = a'.cur_addr }

-- The frames ahead of `a` are `f` and those ahead of `a'`, which do not include `f`.
pub record Taken (a : BootPtAlloc) (f : PhysAddr) (a' : BootPtAlloc) : Type 0 where
  pub moved : Moved a a'
  pub cursor : IsCursor a'
  pub frame : IsFrame f
  pub was_ahead : Ahead a f
  pub passed : ¬ (Ahead a' f)
  pub kept : (q : ℕ) → Ahead a' q → Ahead a q
  pub covered : (q : ℕ) → Ahead a q → (q ≡ f) ⊎ Ahead a' q

-- No frame was ahead of `a`, nor is one ahead of `a'`.
pub record Emptied (a a' : BootPtAlloc) : Type 0 where
  pub moved : Moved a a'
  pub cursor : IsCursor a'
  pub before : (q : ℕ) → ¬ (Ahead a q)
  pub after : (q : ℕ) → ¬ (Ahead a' q)

abbrev pub FromMap : BootPtAlloc → Option PhysAddr × BootPtAlloc → Type 0
FromMap a (some f, a') = Taken a f a'
FromMap a (none, a') = Emptied a a'

past : (a : BootPtAlloc) → a.entry_count ≤ a.cur_entry → (q : ℕ) → ¬ (Ahead a q)
past a over q (j, within, inl lt) = ground (arith, within.index)
past a over q (j, within, inr (same, _)) = ground (arith, within.index)

stopped : (a : BootPtAlloc) → IsCursor a → a.entry_count ≤ a.cur_entry → Emptied a a
stopped a cursor over = record {
  moved = refl;
  cursor = cursor;
  before = past a over;
  after = past a over;
}

skip-Ahead : (a : BootPtAlloc) (q : ℕ) → Ahead (skip a) q → Ahead a q
skip-Ahead a q (j, within, inl lt) = (j, within, inl (ground arith))
skip-Ahead a q (j, within, inr (same, _)) = (j, within, inl (ground arith))

skip-IsCursor : (a : BootPtAlloc) → IsCursor a → IsCursor (skip a)
skip-IsCursor a cursor = record { map = cursor.map; small = ground arith }

-- A frame lies in one usable entry only.
one_entry :
    {entries : ℕ → _} {count : ℕ} (i j q : ℕ)
    → IsMap entries count
    → IsIn entries count i q
    → IsIn entries count j q
    → ¬ (i < j)
one_entry i j q map in_i in_j lt =
    elim (map.disjoint i j in_i.index in_j.index in_i.usable in_j.usable λ same. ground arith) [
      | inl before ↦ ground arith
      | inr after ↦ ground arith
    ]

skipped :
    (a : BootPtAlloc) (r : Option PhysAddr × BootPtAlloc)
    → ((q : ℕ) → Ahead a q → Ahead (skip a) q)
    → FromMap (skip a) r
    → FromMap a r
skipped a (some f, a') forth taken = record {
  moved = taken.moved;
  cursor = taken.cursor;
  frame = taken.frame;
  was_ahead = skip-Ahead a f taken.was_ahead;
  passed = taken.passed;
  kept = λ q h. skip-Ahead a q (taken.kept q h);
  covered = λ q h. taken.covered q (forth q h);
}
skipped a (none, a') forth empty = record {
  moved = empty.moved;
  cursor = empty.cursor;
  before = λ q h. empty.before q (forth q h);
  after = empty.after;
}

abbrev taking : BootPtAlloc → PhysAddr → BootPtAlloc
taking a f = record a { cur_addr = f + 4096 }

module _ (a : BootPtAlloc) (cursor : IsCursor a) (f : PhysAddr)
    (within : IsIn a.entries a.entry_count a.cur_entry f) (from : a.cur_addr ≤ f) where
  taken-passed : ¬ (Ahead (taking a f) f)
  taken-passed (j, in_j, inl lt) = one_entry a.cur_entry j f cursor.map within in_j lt
  taken-passed (j, in_j, inr (_, over)) = ground arith

  taken-kept : (q : ℕ) → Ahead (taking a f) q → Ahead a q
  taken-kept q (j, in_j, inl lt) = (j, in_j, inl lt)
  taken-kept q (j, in_j, inr (eq, over)) = (j, in_j, inr (eq, ground arith))

  taken-covered :
      ((q : ℕ) → IsIn a.entries a.entry_count a.cur_entry q → a.cur_addr ≤ q → f ≤ q)
      → (q : ℕ) → Ahead a q
      → (q ≡ f) ⊎ Ahead (taking a f) q
  taken-covered least q (j, in_j, inl lt) = inr (j, in_j, inl lt)
  taken-covered least q (j, in_j, inr (eq, over)) =
      let in_cur : IsIn a.entries a.entry_count a.cur_entry q = rw eq in_j in
      let next : (q ≡ f) ⊎ (f + 4096 ≤ q) =
        ground (arith, least q in_cur over, in_cur.aligned, within.aligned) in
      elim next [ inl same ↦ inl same | inr further ↦ inr (j, in_j, inr (eq, further)) ]

taken :
    (a : BootPtAlloc)
    → IsCursor a
    → (f : PhysAddr) (a' : BootPtAlloc) → Rounded a (return (some f) a')
    → Taken a f a'
taken a cursor f a' (same, frame, small, within, from, least) = rw same (record {
  moved = refl;
  cursor = record { map = cursor.map; small = small };
  frame = frame;
  was_ahead = (a.cur_entry, within, inr (refl, from));
  passed = taken-passed a cursor f within from;
  kept = taken-kept a cursor f within from;
  covered = taken-covered a cursor f within from least;
})

entry_known :
    (a : BootPtAlloc)
    → a.cur_entry < a.entry_count
    → entry_at a a.cur_entry ≡ some (a.entries a.cur_entry)
unfolding entry_at
entry_known a live = ground arith

module _ (fuel : ℕ) (a : BootPtAlloc) (ih : FromMap (skip a) (next_loop fuel (skip a)))
    (cursor : IsCursor a) where
  after_round :
      (r : Round)
      → a.cur_entry < a.entry_count
      → next_round a (a.entries a.cur_entry) ≡ r
      → Rounded a r
      → FromMap a (next_loop (suc fuel) a)
  unfolding next_loop
  after_round (continue a') live eq (same, forth) =
      rw (lt→ltb a.cur_entry a.entry_count live, entry_known a live, eq, same)
        (skipped a (next_loop fuel (skip a)) forth ih)
  after_round (return none a') live eq rounded = elim rounded [ ]
  after_round (return (some f) a') live eq rounded =
      rw (lt→ltb a.cur_entry a.entry_count live, entry_known a live, eq)
        (taken a cursor f a' rounded)

  one_more : FromMap a (next_loop (suc fuel) a)
  unfolding next_loop
  one_more = elim (Bool-cases (ltb a.cur_entry a.entry_count)) [
    | inl live ↦
        let live' = ltb→lt a.cur_entry a.entry_count live in
        after_round (next_round a (a.entries a.cur_entry)) live' refl
          (next_round-Rounded a cursor live')
    | inr over ↦ rw over (stopped a cursor (ground (arith, over)))
  ]

next_loop-FromMap :
    (fuel : ℕ) (a : BootPtAlloc)
    → IsCursor a
    → a.entry_count ≤ a.cur_entry + fuel
    → FromMap a (next_loop fuel a)
unfolding next_loop
next_loop-FromMap zero a cursor enough = stopped a cursor (ground (arith, enough))
next_loop-FromMap (suc fuel) a cursor enough =
    one_more fuel a
      (next_loop-FromMap fuel (skip a) (skip-IsCursor a cursor) (ground (arith, enough))) cursor

-- In a sane memory map, `next_from_map` takes the next frame of the frames ahead: it is 4 KiB
-- aligned and physical, it is not ahead afterwards, and every other frame ahead stays ahead. It
-- returns no frame only when none is ahead.
pub next_from_map-FromMap : (a : BootPtAlloc) → IsCursor a → FromMap a (next_from_map a)
unfolding next_from_map
next_from_map-FromMap a cursor =
    next_loop-FromMap (a.entry_count - a.cur_entry) a cursor (omega arith)

-- ===== src/X86/Mmu/Spaces/Complete.antt =====
-- `address_space_destroy` of arch/x86_64/src/mmu.rs leaves no table out.
use rincos.Prelude.{
  ℕ, zero, suc, ◌+◌, ◌≤◌, ◌<◌, ◌≡◌, arith, inl, inr, true, false, some, Bool-cases, ◌==◌, ==_iff,
}
use rincos.Hal.Mmu.{Memory, PageTableFrameAlloc, AddressSpace}
use rincos.X86.Run.{World, Run, ok, err, fault}
use rincos.X86.Mmu.Entry.{has, frame_of, pte_p, pte_ps}
use rincos.X86.Mmu.Table.{entry}
use rincos.X86.Mmu.Page.{root_of, as_x86}
use rincos.X86.Mmu.Slots.{free_slot}
use rincos.X86.Mmu.Spaces.{
  for_each, if_table, free_pt, free_pd, free_pdpt, free_root, free_tables, is_kernel,
  address_space_destroy,
}

-- The frame `q` holds the table `t`, or one that its entries below `limit` lead to in `depth` steps
-- at most; the entries of the tables below are all looked at, and large pages lead nowhere.
pub data Below (mem : Memory) (h q : ℕ) : ℕ → ℕ → ℕ → Type 0 where
  self : {depth limit t : ℕ} → q ≡ t → Below mem h q depth limit t
  child :
      {depth limit t : ℕ} (i : ℕ)
      → i < limit
      → has (entry mem h t i) pte_p ≡ true
      → has (entry mem h t i) pte_ps ≡ false
      → Below mem h q depth 512 (frame_of (entry mem h t i))
      → Below mem h q (suc depth) limit t

module _ {A : Type 0} (mem : Memory) (h : ℕ) (pt : PageTableFrameAlloc A) (q : ℕ)
    (Given : A → Type 0) (kept : (a : A) (f : ℕ) → Given a → Given (pt.free_frame_4k a f))
    (given : (a : A) → Given (pt.free_frame_4k a q)) where
  if_table-kept :
      (act : ℕ → A → A) (e : ℕ) (a : A)
      → ((f : ℕ) (b : A) → Given b → Given (act f b))
      → Given a
      → Given (if_table mem h act e a)
  unfolding if_table
  if_table-kept act e a keeps g = elim (Bool-cases (has e pte_p)) [
    | inr absent ↦ rw absent g
    | inl present ↦ elim (Bool-cases (has e pte_ps)) [
      | inl large ↦ rw (present, large) g
      | inr small ↦ rw (present, small) (keeps (frame_of e) a g)
    ]
  ]

  loop-kept :
      (t : ℕ) (act : ℕ → A → A) (i left : ℕ) (a : A)
      → ((f : ℕ) (b : A) → Given b → Given (act f b))
      → Given a
      → Given (for_each mem h t (if_table mem h act) i left a)
  unfolding for_each
  loop-kept t act i zero a keeps g = g
  loop-kept t act i (suc left) a keeps g =
      loop-kept t act (i + 1) left _ keeps (if_table-kept act (entry mem h t i) a keeps g)

  -- The loop comes to entry `k`, which leads to a table.
  loop-given :
      (t : ℕ) (act : ℕ → A → A) (i left k : ℕ) (a : A)
      → ((f : ℕ) (b : A) → Given b → Given (act f b))
      → i ≤ k
      → k < i + left
      → has (entry mem h t k) pte_p ≡ true
      → has (entry mem h t k) pte_ps ≡ false
      → ((b : A) → Given (act (frame_of (entry mem h t k)) b))
      → Given (for_each mem h t (if_table mem h act) i left a)
  unfolding for_each if_table
  loop-given t act i zero k a keeps le lt present small there = absurd (omega (arith, le, lt))
  loop-given t act i (suc left) k a keeps le lt present small there = elim (Bool-cases (i == k)) [
    | inl this ↦
        loop-kept t act (i + 1) left _ keeps (rw ((==_iff i k).0 this, present, small) (there a))
    | inr other ↦
        loop-given t act (i + 1) left k _ keeps (ground (arith, le, other)) (omega (arith, lt))
          present small there
  ]

  -- A table, after the tables that its first `n` entries lead to.
  node-given :
      (depth n t : ℕ) (act : ℕ → A → A) (a : A)
      → ((f : ℕ) (b : A) → Given b → Given (act f b))
      → ((f : ℕ) (b : A) → Below mem h q depth 512 f → Given (act f b))
      → Below mem h q (suc depth) n t
      → Given (pt.free_frame_4k (for_each mem h t (if_table mem h act) 0 n a) t)
  node-given depth n t act a keeps below (self e) = rw (← e) (given _)
  node-given depth n t act a keeps below (child k lt present small rest) = kept _ t (
      loop-given t act 0 n k a keeps (omega arith) (omega (arith, lt)) present small
        λ b. below _ b rest)

  pt-given : (t : ℕ) (a : A) → Below mem h q 0 512 t → Given (free_pt mem h pt t a)
  unfolding free_pt
  pt-given t a (self e) = rw (← e) (given a)

  pt-kept : (t : ℕ) (a : A) → Given a → Given (free_pt mem h pt t a)
  unfolding free_pt
  pt-kept t a g = kept a t g

  pd-kept : (t : ℕ) (a : A) → Given a → Given (free_pd mem h pt t a)
  unfolding free_pd
  pd-kept t a g = kept _ t (loop-kept t (free_pt mem h pt) 0 512 a pt-kept g)

  pd-given : (t : ℕ) (a : A) → Below mem h q 1 512 t → Given (free_pd mem h pt t a)
  unfolding free_pd
  pd-given t a below = node-given 0 512 t (free_pt mem h pt) a pt-kept pt-given below

  pdpt-kept : (t : ℕ) (a : A) → Given a → Given (free_pdpt mem h pt t a)
  unfolding free_pdpt
  pdpt-kept t a g = kept _ t (loop-kept t (free_pd mem h pt) 0 512 a pd-kept g)

  pdpt-given : (t : ℕ) (a : A) → Below mem h q 2 512 t → Given (free_pdpt mem h pt t a)
  unfolding free_pdpt
  pdpt-given t a below = node-given 1 512 t (free_pd mem h pt) a pd-kept pd-given below

  root-given : (t : ℕ) (a : A) → Below mem h q 3 256 t → Given (free_root mem h pt t a)
  unfolding free_root
  root-given t a below = node-given 2 256 t (free_pdpt mem h pt) a pdpt-kept pdpt-given below

-- A property of the provider when the function has returned.
abbrev pub GivenBack : {A : Type 0} → (A → Type 0) → Run A ⊥ (Unit {0}) → Type 0
GivenBack Given (ok _ w') = Given w'.pt_alloc
GivenBack Given (err e w') = ⊥
GivenBack Given fault = ⊥

module _ {A : Type 0} (pt : PageTableFrameAlloc A) (root q : ℕ) (aspace : AddressSpace)
    (w : World A) (known : root_of w.machine aspace ≡ some root) (Given : A → Type 0)
    (kept : (a : A) (f : ℕ) → Given a → Given (pt.free_frame_4k a f))
    (given : (a : A) → Given (pt.free_frame_4k a q)) where
  -- `address_space_destroy` of a space that is not the kernel's gives back the root and every table
  -- that the entries of its lower half lead to: whatever of the provider comes to hold when the frame
  -- of such a table is given back, and stays when others are, holds afterwards.
  pub address_space_destroy-GivenBack :
      is_kernel w.machine.kas_handle aspace ≡ false
      → Below w.machine.mem w.machine.hhdm_offset q 3 256 root
      → GivenBack Given (address_space_destroy pt aspace w)
  unfolding address_space_destroy free_tables free_slot
  address_space_destroy-GivenBack other below =
      rw (other, known, as_x86, GivenBack)
        (root-given w.machine.mem w.machine.hhdm_offset pt q Given kept given root w.pt_alloc below)

-- ===== src/X86/Descriptors/Gates.antt =====
-- The gates that `init_idt` of arch/x86_64/src/idt.rs sets, vector by vector.
use rincos.Prelude.{
  ℕ, zero, suc, ◌+◌, ◌-◌, ◌*◌, ◌^◌, ◌<◌, ◌≡◌, ◌∙◌, arith, refl, Option, none, some, false, inl, inr,
  Bool-cases, ltb, ◌==◌, if◌then◌else◌, bit_and, as_u16, as_u32, shr, leb, ◌&&◌, ==_iff, ap,
}
use rincos.Prelude.Bits.{and_mask}
use rincos.X86.Descriptors.{
  IdtEntry, Layout, Descriptors, kernel_cs, set_gate, exception_gates, irq_gates, init_idt,
}

-- The handler of a gate, as the processor puts it together.
abbrev pub gate_offset : IdtEntry → ℕ
gate_offset e = e.offset_lo + e.offset_mid * 2 ^ 16 + e.offset_hi * 2 ^ 32

-- An interrupt gate of the kernel, present and for the kernel only, to `handler` on stack `ist`.
abbrev pub IsGate : ℕ → ℕ → IdtEntry → Type 0
IsGate handler ist e =
    (gate_offset e ≡ handler) × (e.selector ≡ kernel_cs) × (e.type_attr ≡ 0x8E) × (e.ist ≡ ist)

abbrev gate : ℕ → ℕ → IdtEntry
gate handler ist = record {
  offset_lo = as_u16 handler;
  selector = kernel_cs;
  ist = bit_and ist 0x7;
  type_attr = 0x8E;
  offset_mid = as_u16 (shr handler 16);
  offset_hi = as_u32 (shr handler 32);
}

gate-IsGate : (handler ist : ℕ) → handler < 2 ^ 64 → ist < 8 → IsGate handler ist (gate handler ist)
gate-IsGate handler ist word small =
    (omega (arith, word), refl, refl, omega (arith, small, and_mask 3 ist))

-- A table that a loop sets from index `i` on.
extend :
    {T : Type 0} (g : ℕ → T) (f : T) (i left q : ℕ)
    → (if leb (i + 1) q && ltb q (i + 1 + left) then g q else (if q == i then g i else f))
      ≡ (if leb i q && ltb q (i + suc left) then g q else f)
extend g f i left q = elim (Bool-cases (q == i)) [
  | inl this ↦ let e : q ≡ i = (==_iff q i).0 this in rw e (ground arith)
  | inr other ↦ ground (arith, other)
]

module _ (place : Layout) where
  -- The stub of a vector that has one: the exceptions, the sixteen lines, the timer and the shootdown.
  abbrev pub stub_of : ℕ → Option ℕ
  stub_of vec =
      if ltb vec 32
      then some (place.isr_stub_table vec)
      else (if ltb vec 48
          then some (place.irq_stub_table (vec - 32))
          else (if vec == 0xe0
              then some place.irq_224
              else (if vec == 0xe1 then some place.irq_225 else none)))

  exception_gates_lem :
      (i left : ℕ) (idt : ℕ → IdtEntry) (q : ℕ)
      → exception_gates place i left idt q ≡ (
          if leb i q && ltb q (i + left)
          then gate (place.isr_stub_table q) (if q == 8 then 1 else 0)
          else idt q)
  unfolding exception_gates set_gate
  exception_gates_lem i zero idt q = ground arith
  exception_gates_lem i (suc left) idt q =
      exception_gates_lem (i + 1) left _ q
      ∙ extend (λ v. gate (place.isr_stub_table v) (if v == 8 then 1 else 0)) (idt q) i left q

  irq_gates_lem :
      (i left : ℕ) (idt : ℕ → IdtEntry) (q : ℕ)
      → irq_gates place i left idt q ≡ (
          if leb (32 + i) q && ltb q (32 + i + left)
          then gate (place.irq_stub_table (q - 32)) 0
          else idt q)
  unfolding irq_gates set_gate
  irq_gates_lem i zero idt q = ground arith
  irq_gates_lem i (suc left) idt q =
      irq_gates_lem (i + 1) left _ q ∙ shifted ∙ extend lines (idt q) (32 + i) left q
    where
      lines : ℕ → IdtEntry
      lines v = gate (place.irq_stub_table (v - 32)) 0

      same_line : place.irq_stub_table i ≡ place.irq_stub_table (32 + i - 32)
      same_line = ap place.irq_stub_table (omega arith)

      later : 32 + (i + 1) ≡ 32 + i + 1
      later = omega arith

      shifted :
          (if leb (32 + (i + 1)) q && ltb q (32 + (i + 1) + left)
            then lines q
            else set_gate place (32 + i) (place.irq_stub_table i) 0 idt q)
          ≡ (if leb (32 + i + 1) q && ltb q (32 + i + 1 + left)
              then lines q
              else (if q == 32 + i then lines (32 + i) else idt q))
      shifted = rw (same_line, later) refl

  -- After `init_idt` a vector below 256 has a gate to its stub, or is as before.
  abbrev pub Gated : (ℕ → IdtEntry) → (ℕ → IdtEntry) → ℕ → Option ℕ → Type 0
  Gated before after vec none = after vec ≡ before vec
  Gated before after vec (some handler) =
      handler < 2 ^ 64 → IsGate handler (if vec == 8 then 1 else 0) (after vec)

  idt_eq :
      (d : Descriptors) (q : ℕ)
      → (init_idt place d).idt q ≡ (
          if q == 0xe1
          then gate place.irq_225 0
          else (if q == 0xe0
              then gate place.irq_224 0
              else (if leb 32 q && ltb q 48
                  then gate (place.irq_stub_table (q - 32)) 0
                  else (if leb 0 q && ltb q 32
                      then gate (place.isr_stub_table q) (if q == 8 then 1 else 0)
                      else d.idt q))))
  unfolding init_idt set_gate
  idt_eq d q =
      rw (irq_gates_lem 0 16 (exception_gates place 0 32 d.idt) q, exception_gates_lem 0 32 d.idt q)
        refl

  gate_at :
      (d : Descriptors) (q handler ist : ℕ)
      → (init_idt place d).idt q ≡ gate handler ist
      → ist < 8
      → handler < 2 ^ 64
      → IsGate handler ist ((init_idt place d).idt q)
  gate_at d q handler ist at small word = rw at (gate-IsGate handler ist word small)

  -- `init_idt` gives every exception, each of the sixteen lines, the timer and the shootdown a gate
  -- to its stub, on the stack of its own for the double fault, and leaves all other vectors.
  pub init_idt-Gated :
      (d : Descriptors) (vec : ℕ) → Gated d.idt (init_idt place d).idt vec (stub_of vec)
  init_idt-Gated d vec = elim (Bool-cases (ltb vec 32)) [
    | inl exception ↦
        rw (exception, Gated)
          (gate_at d vec _ _ (idt_eq d vec ∙ ground (arith, exception)) (ground arith))
    | inr above ↦ elim (Bool-cases (ltb vec 48)) [
      | inl line ↦
          rw (above, line, low above, Gated)
            (gate_at d vec _ _ (idt_eq d vec ∙ ground (arith, above, line)) (omega arith))
      | inr high ↦ elim (Bool-cases (vec == 0xe0)) [
        | inl timer ↦
            rw (above, high, timer, low above, Gated)
              (gate_at d vec _ _ (idt_eq d vec ∙ ground (arith, timer)) (omega arith))
        | inr not_timer ↦ elim (Bool-cases (vec == 0xe1)) [
          | inl shootdown ↦
              rw (above, high, not_timer, shootdown, low above, Gated)
                (gate_at d vec _ _ (idt_eq d vec ∙ ground (arith, shootdown)) (omega arith))
          | inr free ↦
              rw (above, high, not_timer, free, Gated)
                (idt_eq d vec ∙ ground (arith, above, high, not_timer, free))
        ]
      ]
    ]
  ]
    where
      low : ltb vec 32 ≡ false → (vec == 8) ≡ false
      low above = ground (arith, above)

-- ===== src/X86/Serial/Laws.antt =====
-- The first serial port of arch/x86_64/src/serial.rs takes every byte, if its device answers.
use rincos.Prelude.{
  ℕ, zero, suc, ◌+◌, ◌%◌, ◌<◌, ◌≤◌, ◌≡◌, ◌∙◌, refl, arith, Bool, true, false, some, ◌∷◌, inl, inr,
  ◌==◌, bit_and, Bool-cases, ==_iff,
}
use rincos.X86.Serial.{com1, Ports, inb, outb, await_empty, com1_write}

-- Whether the device says, at its `n`-th answer, that it can take a byte.
unfoldable pub is_busy : Ports → ℕ → Bool
is_busy p n = bit_and (p.input (com1 + 5) n % 256) 0x20 == 0

-- Ready at answer `n`, and busy at those before, from the next one on.
pub record IsFirstReady (p : Ports) (n : ℕ) : Type 0 where
  pub next : p.reads ≤ n
  pub ready : is_busy p n ≡ false
  pub before : (i : ℕ) → p.reads ≤ i → i < n → is_busy p i ≡ true

await_empty-busy :
    (fuel : ℕ) (p : Ports)
    → is_busy p p.reads ≡ true
    → await_empty (suc fuel) p ≡ await_empty fuel (record p { reads = p.reads + 1 })
unfolding await_empty inb is_busy
await_empty-busy fuel p busy = rw busy refl

await_empty-ready :
    (fuel : ℕ) (p : Ports)
    → is_busy p p.reads ≡ false
    → await_empty (suc fuel) p ≡ some (record p { reads = p.reads + 1 })
unfolding await_empty inb is_busy
await_empty-ready fuel p ready = rw ready refl

-- The loop ends at the first answer that is not busy, if the fuel reaches any.
await_empty-returns :
    (fuel : ℕ) (p : Ports) (n : ℕ)
    → p.reads ≤ n
    → n < p.reads + fuel
    → is_busy p n ≡ false
    → (k : ℕ) × IsFirstReady p k
      × (k ≤ n)
      × (await_empty fuel p ≡ some (record p { reads = k + 1 }))
unfolding is_busy
await_empty-returns zero p n le lt ready = absurd (omega (arith, le, lt))
await_empty-returns (suc fuel) p n le lt ready = elim (Bool-cases (is_busy p p.reads)) [
  | inr now ↦ (
    p.reads,
    record { next = omega arith; ready = now; before = λ i a b. absurd (omega (arith, a, b)) },
    le,
    await_empty-ready fuel p now,
  )
  | inl busy ↦ later busy (
      await_empty-returns fuel (record p { reads = p.reads + 1 }) n (not_now busy)
        (omega (arith, lt)) ready)
]
  where
    not_now : is_busy p p.reads ≡ true → p.reads + 1 ≤ n
    not_now busy = elim (Bool-cases (p.reads == n)) [
      | inl here ↦ absurd (cc (busy, ready, (==_iff p.reads n).0 here))
      | inr other ↦ ground (arith, le, other)
    ]

    -- The answers from the next one on.
    later :
        is_busy p p.reads ≡ true
        → ((k : ℕ) × IsFirstReady (record p { reads = p.reads + 1 }) k
            × (k ≤ n)
            × (await_empty fuel (record p { reads = p.reads + 1 })
                ≡ some (record p { reads = k + 1 })))
        → (k : ℕ) × IsFirstReady p k
          × (k ≤ n)
          × (await_empty (suc fuel) p ≡ some (record p { reads = k + 1 }))
    later busy (k, first, le', e) = (
      k,
      record {
        next = omega (arith, first.next);
        ready = first.ready;
        before = λ i a b. elim (Bool-cases (p.reads == i)) [
          | inl here ↦ rw (← (==_iff p.reads i).0 here) busy
          | inr other ↦ first.before i (ground (arith, a, other)) b
        ];
      },
      le',
      await_empty-busy fuel p busy ∙ e,
    )

-- If one of the device's next `fuel` answers is not busy, `com1_write` returns. It has then sent the
-- byte, and nothing else, after reading the status up to the first answer that was not busy.
pub com1_write-Sent :
    (fuel b : ℕ) (p : Ports) (n : ℕ)
    → p.reads ≤ n
    → n < p.reads + fuel
    → is_busy p n ≡ false
    → (k : ℕ) × IsFirstReady p k
      × (com1_write fuel b p ≡ some (record p { reads = k + 1; output = (com1, b) ∷ p.output }))
unfolding com1_write outb
com1_write-Sent fuel b p n le lt ready =
    let (k, first, _, e) = await_empty-returns fuel p n le lt ready in
    (k, first, rw (e, com1_write) refl)

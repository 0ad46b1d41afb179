-- ===== src/X86/Cpuid/Laws.antt =====
-- What arch/x86_64/src/cpuid.rs makes of CPUID's answers.
use rincos.Prelude.{
  ℕ, ◌+◌, ◌*◌, ◌/◌, ◌^◌, ◌-◌, ◌≤◌, ◌<◌, ◌≡◌, ◌≢◌, ◌⊎◌, arith, refl, false, Option, none, some, ◌==◌,
  Bool-cases, inl, inr, min,
}
use native.Mathlib.Nat.{mul-le-mul, mul-div-le, lt-mul-div-succ}
use rincos.X86.Cpuid.{CpuidCount, has_leaf, crystal_hz, base_hz, tsc_hz}

-- The registers hold 32 bits.
abbrev pub IsCpuid : CpuidCount → Type 0
IsCpuid cpuid =
    (leaf sub : ℕ)
    → ((cpuid leaf sub).eax < 2 ^ 32)
      × ((cpuid leaf sub).ebx < 2 ^ 32)
      × ((cpuid leaf sub).ecx < 2 ^ 32)

-- What the frequency is, by its source.
abbrev pub KnownHz : CpuidCount → Option ℕ → Type 0
KnownHz cpuid none =
    ((has_leaf cpuid 0x15 ≡ false)
      ⊎ ((cpuid 0x15 0).eax ≡ 0)
      ⊎ ((cpuid 0x15 0).ebx ≡ 0)
      ⊎ ((cpuid 0x15 0).ecx ≡ 0))
    × ((has_leaf cpuid 0x16 ≡ false) ⊎ ((cpuid 0x16 0).eax ≡ 0))
KnownHz cpuid (some hz) =
    (((cpuid 0x15 0).eax * hz ≤ (cpuid 0x15 0).ecx * (cpuid 0x15 0).ebx)
      × ((cpuid 0x15 0).ecx * (cpuid 0x15 0).ebx < (cpuid 0x15 0).eax * hz + (cpuid 0x15 0).eax))
    ⊎ (hz ≡ (cpuid 0x16 0).eax * 1_000_000)

bound : (a : ℕ) → a < 2 ^ 32 → a ≤ 2 ^ 32 - 1
bound a h = omega arith

product : (a b : ℕ) → a < 2 ^ 32 → b < 2 ^ 32 → a * b < 2 ^ 64
product a b ha hb = omega (arith, mul-le-mul (bound a ha) (bound b hb))

quotient : (n d : ℕ) → d ≢ 0 → (d * (n / d) ≤ n) × (n < d * (n / d) + d)
quotient n d pos = omega (arith, mul-div-le n d, lt-mul-div-succ n {b = d} (omega arith))

module _ (cpuid : CpuidCount) (words : IsCpuid cpuid) where
  -- What leaf 0x15 gives.
  abbrev Crystal : Option ℕ → Type 0
  Crystal none =
      (has_leaf cpuid 0x15 ≡ false)
      ⊎ ((cpuid 0x15 0).eax ≡ 0)
      ⊎ ((cpuid 0x15 0).ebx ≡ 0)
      ⊎ ((cpuid 0x15 0).ecx ≡ 0)
  Crystal (some hz) =
      ((cpuid 0x15 0).eax * hz ≤ (cpuid 0x15 0).ecx * (cpuid 0x15 0).ebx)
      × ((cpuid 0x15 0).ecx * (cpuid 0x15 0).ebx < (cpuid 0x15 0).eax * hz + (cpuid 0x15 0).eax)

  by_base : Crystal none → KnownHz cpuid (base_hz cpuid)
  unfolding base_hz
  by_base no_crystal = elim (Bool-cases (has_leaf cpuid 0x16)) [
    | inr absent ↦ rw (absent, KnownHz) (no_crystal, inl absent)
    | inl leaf ↦ elim (Bool-cases ((cpuid 0x16 0).eax == 0)) [
      | inl empty ↦ rw (leaf, empty, KnownHz) (no_crystal, inr (ground (arith, empty)))
      | inr mhz ↦ rw (leaf, mhz, KnownHz) (inr refl)
    ]
  ]

  exact :
      min ((cpuid 0x15 0).ecx * (cpuid 0x15 0).ebx) (2 ^ 64 - 1)
      ≡ (cpuid 0x15 0).ecx * (cpuid 0x15 0).ebx
  exact =
      omega (arith, product (cpuid 0x15 0).ecx (cpuid 0x15 0).ebx (words 0x15 0).2 (words 0x15 0).1)

  by-Crystal : Crystal (crystal_hz cpuid)
  unfolding crystal_hz
  by-Crystal = elim (Bool-cases (has_leaf cpuid 0x15)) [
    | inr absent ↦ rw (absent, Crystal) (inl absent)
    | inl leaf ↦ elim (Bool-cases ((cpuid 0x15 0).eax == 0)) [
      | inl e ↦ rw (leaf, e, Crystal) (inr (inl (ground (arith, e))))
      | inr denom ↦ elim (Bool-cases ((cpuid 0x15 0).ebx == 0)) [
        | inl e ↦ rw (leaf, denom, e, Crystal) (inr (inr (inl (ground (arith, e)))))
        | inr numer ↦ elim (Bool-cases ((cpuid 0x15 0).ecx == 0)) [
          | inl e ↦ rw (leaf, denom, numer, e, Crystal) (inr (inr (inr (ground (arith, e)))))
          | inr crystal ↦
              rw (leaf, denom, numer, crystal, exact, Crystal)
                (quotient ((cpuid 0x15 0).ecx * (cpuid 0x15 0).ebx) (cpuid 0x15 0).eax
                  (λ e. ground (arith, denom, e)))
        ]
      ]
    ]
  ]

  either :
      (c : Option ℕ)
      → Crystal c
      → KnownHz cpuid (elim c [ some hz ↦ some hz | none ↦ base_hz cpuid ])
  either none absent = by_base absent
  either (some hz) known = inl known

  -- The frequency of the counter is the crystal's times the ratio, rounded down, with no overflow,
  -- or the base frequency; it is unknown only where CPUID gives neither.
  pub tsc_hz-KnownHz : KnownHz cpuid (tsc_hz cpuid)
  unfolding tsc_hz
  tsc_hz-KnownHz = either (crystal_hz cpuid) by-Crystal

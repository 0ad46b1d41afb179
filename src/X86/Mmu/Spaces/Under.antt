-- ===== src/X86/Mmu/Spaces/Under.antt =====
-- Paths of indices below a path, which is written from its end: where the loops of
-- `address_space_destroy` in arch/x86_64/src/mmu.rs have been.
use rincos.Prelude.{ℕ, ◌≤◌, ◌≡◌, ◌⊎◌, arith, refl, sym, ap, ◌∙◌, inl, inr, List, [], ◌∷◌, length}

-- The path `js` is `top`, or goes on from it.
abbrev pub Under : List ℕ → List ℕ → Type 0
Under top [] = [] ≡ top
Under top (j ∷ js) = (j ∷ js ≡ top) ⊎ Under top js

pub Under-self : (top : List ℕ) → Under top top
Under-self [] = refl
Under-self (i ∷ top) = inl refl

tail_eq : (j i : ℕ) (js top : List ℕ) → j ∷ js ≡ i ∷ top → js ≡ top
tail_eq j i js top e = cc

head_eq : (j i : ℕ) (js top : List ℕ) → j ∷ js ≡ i ∷ top → j ≡ i
head_eq j i js top e = cc

pub Under-eq : (top js : List ℕ) → js ≡ top → Under top js
Under-eq top js e = rw e (Under-self top)

pub Under-parent : (i : ℕ) (top js : List ℕ) → Under (i ∷ top) js → Under top js
Under-parent i top [] e = absurd (cc)
Under-parent i top (j ∷ js) (inl e) = inr (Under-eq top js (tail_eq j i js top e))
Under-parent i top (j ∷ js) (inr under) = inr (Under-parent i top js under)

pub Under-length : (top js : List ℕ) → Under top js → length top ≤ length js
Under-length top [] e = omega (arith, ap length e)
Under-length top (j ∷ js) (inl e) = omega (arith, ap length e)
Under-length top (j ∷ js) (inr under) = omega (arith, Under-length top js under)

-- A path does not lie below its own continuation.
pub not-Under : (i : ℕ) (top js : List ℕ) → js ≡ top → ¬ (Under (i ∷ top) js)
not-Under i top js e under = omega (arith, Under-length (i ∷ top) js under, ap length e)

pub Under-index : (i k : ℕ) (top js : List ℕ) → Under (i ∷ top) js → Under (k ∷ top) js → i ≡ k
Under-index i k top [] e _ = absurd (cc)
Under-index i k top (j ∷ js) (inl e) (inl e') = sym (head_eq j i js top e) ∙ head_eq j k js top e'
Under-index i k top (j ∷ js) (inl e) (inr under) =
    absurd (not-Under k top js (tail_eq j i js top e) under)
Under-index i k top (j ∷ js) (inr under) (inl e) =
    absurd (not-Under i top js (tail_eq j k js top e) under)
Under-index i k top (j ∷ js) (inr under) (inr under') = Under-index i k top js under under'

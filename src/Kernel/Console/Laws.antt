-- ===== src/Kernel/Console/Laws.antt =====
-- What leaves the serial line of kernel/src/drivers/console and kernel/src/log/mod.rs.
use rincos.Prelude.{
  ℕ, ◌+◌, ◌<◌, ◌≤◌, ◌≡◌, ◌∙◌, refl, sym, ap, Bool, false, Option, none, some, List, [], ◌∷◌, ◌++◌,
  inl, inr, ◌==◌, ==_iff, ◌&&◌, Bool-cases, Option-cases, if◌then◌else◌,
}
use rincos.Hal.Serial.{SerialWriter}
use rincos.Hal.Serial
use rincos.X86.Serial.{com1, Ports, com1_write, com1_writer}
use rincos.X86.Serial.Laws.{is_busy, com1_write-Sent}
use rincos.Kernel.Console.{
  newline, carriage_return, Output, bind, write_raw, write_str, early_write_str, serial_sink,
  adapter_write_str, print,
}

-- The text as a terminal takes it: each line ends with a carriage return and a newline.
unfoldable pub crlf : List ℕ → List ℕ
crlf [] = []
crlf (b ∷ s) = if b == newline then carriage_return ∷ b ∷ crlf s else b ∷ crlf s

abbrev pub concat : List (List ℕ) → List ℕ
concat [] = []
concat (s ∷ pieces) = s ++ concat pieces

crlf-append : (s t : List ℕ) → crlf (s ++ t) ≡ crlf s ++ crlf t
unfolding crlf
crlf-append [] t = refl
crlf-append (b ∷ s) t = elim (Bool-cases (b == newline)) [
  | inl e ↦ rw (e, crlf-append s t) refl
  | inr e ↦ rw (e, crlf-append s t) refl
]

module _ {M : Type 0} where
  -- One byte after the other.
  unfoldable pub send : List ℕ → Output M → Option (Output M)
  send [] o = some o
  send (b ∷ s) o = bind (write_raw b o) λ o1. send s o1

  send-append : (s t : List ℕ) (o : Output M) → send (s ++ t) o ≡ bind (send s o) (λ o1. send t o1)
  unfolding send
  send-append [] t o = refl
  send-append (b ∷ s) t o = elim (Option-cases (write_raw b o)) [
    | inl gone ↦ rw gone refl
    | inr (o1, e) ↦ rw e (send-append s t o1)
  ]

  bind-same :
      (r : Option (Output M)) (f g : Output M → Option (Output M))
      → ((o : Output M) → f o ≡ g o)
      → bind r f ≡ bind r g
  bind-same none f g same = refl
  bind-same (some o) f g same = same o

  write_str-send : (s : List ℕ) (o : Output M) → write_str s o ≡ send (crlf s) o
  unfolding write_str send crlf
  write_str-send [] o = refl
  write_str-send (b ∷ s) o = elim (Bool-cases (b == newline)) [
    | inl e ↦ rw e (
        bind-same (write_raw carriage_return o) (λ o1. bind (write_raw b o1) (write_str s))
          (λ o1. bind (write_raw b o1) (send (crlf s)))
          λ o1. bind-same (write_raw b o1) (write_str s) (send (crlf s)) (write_str-send s))
    | inr e ↦ rw e (bind-same (write_raw b o) (write_str s) (send (crlf s)) (write_str-send s))
  ]

  pub early-write_str : (s : List ℕ) (o : Output M) → early_write_str s o ≡ write_str s o
  unfolding write_str early_write_str
  early-write_str [] o = refl
  early-write_str (b ∷ s) o =
      bind-same (if b == newline then write_raw carriage_return o else some o)
        (λ o1. bind (write_raw b o1) (early_write_str s))
        (λ o1. bind (write_raw b o1) (write_str s))
        λ o1. bind-same (write_raw b o1) (early_write_str s) (write_str s) (early-write_str s)

  pub early-send : (s : List ℕ) (o : Output M) → early_write_str s o ≡ send (crlf s) o
  early-send s o = early-write_str s o ∙ write_str-send s o

  pub print-send :
      (pieces : List (List ℕ)) (o : Output M)
      → print (some serial_sink) pieces o ≡ send (crlf (concat pieces)) o
  unfolding print adapter_write_str send crlf
  print-send [] o = refl
  print-send (s ∷ pieces) o =
      bind-same (write_str s o) (print (some serial_sink) pieces) (send (crlf (concat pieces)))
        (print-send pieces)
      ∙ ap (λ r. bind r (send (crlf (concat pieces)))) (write_str-send s o)
      ∙ sym (send-append (crlf s) (crlf (concat pieces)) o)
      ∙ ap (λ t. send t o) (sym (crlf-append s (concat pieces)))

-- What a terminal reads: a carriage return in front of a newline is left out.
abbrev starts_line : List ℕ → Bool
starts_line [] = false
starts_line (b ∷ s) = b == newline

unfoldable pub read_lines : List ℕ → List ℕ
read_lines [] = []
read_lines (b ∷ s) =
    let rest = read_lines s in if (b == carriage_return) && starts_line s then rest else b ∷ rest

crlf-starts : (s : List ℕ) → starts_line (crlf s) ≡ false
unfolding crlf
crlf-starts [] = refl
crlf-starts (b ∷ s) = elim (Bool-cases (b == newline)) [
  | inl e ↦ rw e refl
  | inr e ↦ rw (e, e) refl
]

read_lines-crlf : (s : List ℕ) → read_lines (crlf s) ≡ s
unfolding read_lines crlf
read_lines-crlf [] = refl
read_lines-crlf (b ∷ s) = elim (Bool-cases (b == newline)) [
  | inl e ↦
      let is_newline : b ≡ 10 = (==_iff b newline).0 e in
      rw is_newline (ap (λ t. 10 ∷ t) (read_lines-crlf s))
  | inr e ↦ elim (Bool-cases (b == carriage_return)) [
    | inl cr ↦ rw (e, cr, crlf-starts s) (ap (λ t. b ∷ t) (read_lines-crlf s))
    | inr no_cr ↦ rw (e, no_cr) (ap (λ t. b ∷ t) (read_lines-crlf s))
  ]
]

-- The port's writes, newest first, after the bytes.
unfoldable pub sent : List ℕ → List (ℕ × ℕ) → List (ℕ × ℕ)
sent [] out = out
sent (b ∷ s) out = sent s ((com1, b) ∷ out)

pub sent-append : (s t : List ℕ) (out : List (ℕ × ℕ)) → sent (s ++ t) out ≡ sent t (sent s out)
unfolding sent
sent-append [] t out = refl
sent-append (b ∷ s) t out = sent-append s t ((com1, b) ∷ out)

-- Among any `fuel` answers in a row one says that the port can take a byte.
abbrev pub IsResponsive : ℕ → Ports → Type 0
IsResponsive fuel p = (t : ℕ) → (n : ℕ) × (t ≤ n) × (n < t + fuel) × (is_busy p n ≡ false)

abbrev pub line : ℕ → Ports → Output Ports
line fuel p = record { serial = some (com1_writer fuel); device = p }

abbrev pub after : Ports → ℕ → List ℕ → Ports
after p n s = record p { reads = n; output = sent s p.output }

module _ (fuel : ℕ) where
  responsive :
      (p : Ports) (n : ℕ) (s : List ℕ) → IsResponsive fuel p → IsResponsive fuel (after p n s)
  unfolding is_busy
  responsive p n s r = r

  written : (o : Option Ports) → Option (Output Ports)
  written none = none
  written (some p) = some (line fuel p)

  write_raw-com1 : (b : ℕ) (p : Ports) → write_raw b (line fuel p) ≡ written (com1_write fuel b p)
  unfolding write_raw Serial.write_byte written
  write_raw-com1 b p = by_result (com1_write fuel b p)
    where
      by_result :
          (r : Option Ports) → (elim r [ none ↦ none | some d ↦ some (line fuel d) ]) ≡ written r
      by_result none = refl
      by_result (some d) = refl

  pub write_raw-Sent :
      (b : ℕ) (p : Ports)
      → IsResponsive fuel p
      → (n : ℕ) × (write_raw b (line fuel p) ≡ some (line fuel (after p n (b ∷ []))))
  unfolding written sent
  write_raw-Sent b p r =
      let (n, le, lt, ready) = r p.reads in
      let (k, _, e) = com1_write-Sent fuel b p n le lt ready in
      (k + 1, write_raw-com1 b p ∙ ap written e)

  pub send-Sent :
      (s : List ℕ) (p : Ports)
      → IsResponsive fuel p
      → (n : ℕ) × (send s (line fuel p) ≡ some (line fuel (after p n s)))
  unfolding send sent is_busy written
  send-Sent [] p r = (p.reads, refl)
  send-Sent (b ∷ s) p r =
      let (k, e) = write_raw-Sent b p r in
      let (m, rest) = send-Sent s (after p k (b ∷ [])) r in (m, rw e rest)

  -- With a device that never stays busy for `fuel` answers, printing returns, and the port has then
  -- been given, in order, the bytes of a text that a terminal reads as the pieces printed.
  pub print-Sent :
      (pieces : List (List ℕ)) (p : Ports)
      → IsResponsive fuel p
      → (t : List ℕ) × (n : ℕ) × (read_lines t ≡ concat pieces)
        × (print (some serial_sink) pieces (line fuel p) ≡ some (line fuel (after p n t)))
  print-Sent pieces p r =
      let (n, e) = send-Sent (crlf (concat pieces)) p r in
      (
        crlf (concat pieces),
        n,
        read_lines-crlf (concat pieces),
        print-send pieces (line fuel p) ∙ e,
      )

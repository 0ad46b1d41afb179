-- ===== src/Limine/Strings/Laws.antt =====
-- The string buffer of crates/bootloader/limine/src/lib.rs: where a copy stands, and what it leaves.
use rincos.Prelude.{
  ℕ, zero, suc, ◌+◌, ◌-◌, ◌*◌, ◌/◌, ◌%◌, ◌^◌, ◌≤◌, ◌<◌, ◌≡◌, ◌≢◌, ◌⊎◌, arith, refl, ap, ◌∙◌, inl,
  inr, some, List, [], ◌∷◌, ◌++◌, ltb, length, get_elem?, Bool-cases, length-append,
  lt_of_get_elem?,
}
use rincos.Prelude.Bits.{and_mask, and_shl}
use rincos.Bootabi.{ByteSpan, empty_span}
use rincos.X86.Machine.{update}
use rincos.Limine.Strings.{
  StrBuf, strbuf_size, copy_from_slice, next_offset, strbuf_alloc_copy, strbuf_alloc_join, sep,
}

copy-below :
    (buf : ℕ → ℕ) (off : ℕ) (bs : List ℕ) (k : ℕ) → k < off → copy_from_slice buf off bs k ≡ buf k
unfolding copy_from_slice
copy-below buf off [] k lt = refl
copy-below buf off (b ∷ bs) k lt =
    copy-below (update buf off b) (off + 1) bs k (omega arith) ∙ ground arith

copy-at :
    (buf : ℕ → ℕ) (off : ℕ) (bs : List ℕ) (i b : ℕ)
    → get_elem? bs i ≡ some b
    → copy_from_slice buf off bs (off + i) ≡ b
unfolding copy_from_slice
copy-at buf off [] i b at = ground arith
copy-at buf off (c ∷ bs) zero b at =
    copy-below (update buf off c) (off + 1) bs (off + 0) (omega arith) ∙ ground (arith, at)
copy-at buf off (c ∷ bs) (suc i) b at =
    let shifted : off + suc i ≡ off + 1 + i = omega arith in
    ap (copy_from_slice (update buf off c) (off + 1) bs) shifted
    ∙ copy-at (update buf off c) (off + 1) bs i b at

copy-append :
    (buf : ℕ → ℕ) (off n : ℕ) (xs ys : List ℕ)
    → n ≡ off + length xs
    → copy_from_slice (copy_from_slice buf off xs) n ys ≡ copy_from_slice buf off (xs ++ ys)
unfolding copy_from_slice
copy-append buf off n [] ys e = ap (λ k. copy_from_slice buf k ys) (omega (arith, e))
copy-append buf off n (x ∷ xs) ys e =
    copy-append (update buf off x) (off + 1) n xs ys (omega (arith, e))

next_offset_lem : (used : ℕ) → used ≤ strbuf_size → next_offset used ≡ (used + 7) / 8 * 8
unfolding next_offset
next_offset_lem used le =
    omega (
      arith,
      and_shl 3 ((used + 7) % 2 ^ 64) (2 ^ 61 - 1),
      and_mask 61 ((used + 7) % 2 ^ 64 / 2 ^ 3),
    )

-- A copy of `bs` stands in the buffer, aligned and behind all that was used, which stays.
pub record Stored (strbuf_ptr : ℕ) (bs : List ℕ) (buf : StrBuf) (span : ByteSpan) (buf' : StrBuf)
    : Type 0 where
  pub off : ℕ
  pub behind : buf.used ≤ off
  pub aligned : off % 8 ≡ 0
  pub used : buf'.used ≡ off + length bs
  pub within : buf'.used ≤ strbuf_size
  pub ptr : span.ptr ≡ strbuf_ptr + off
  pub len : span.len ≡ length bs
  pub copied : (i b : ℕ) → get_elem? bs i ≡ some b → buf'.bytes (off + i) ≡ b
  pub kept : (k : ℕ) → k < buf.used → buf'.bytes k ≡ buf.bytes k

-- What an allocation does: it stores the bytes, or has none or no room for them.
abbrev pub Placed : ℕ → List ℕ → StrBuf → ByteSpan × StrBuf → Type 0
Placed strbuf_ptr bs buf (span, buf') =
    Stored strbuf_ptr bs buf span buf'
    ⊎ ((span ≡ empty_span)
        × (buf' ≡ buf)
        × ((bs ≡ []) ⊎ (strbuf_size < next_offset buf.used + length bs)))

-- While at most the whole buffer is used, `strbuf_alloc_copy` stores the bytes behind all that was
-- stored before, which it keeps, and its span is where they are. Else it changes nothing.
pub strbuf_alloc_copy-Placed :
    (strbuf_ptr : ℕ) (bs : List ℕ) (buf : StrBuf)
    → buf.used ≤ strbuf_size
    → Placed strbuf_ptr bs buf (strbuf_alloc_copy strbuf_ptr bs buf)
unfolding strbuf_alloc_copy
strbuf_alloc_copy-Placed strbuf_ptr [] buf le = inr (refl, refl, inl refl)
strbuf_alloc_copy-Placed strbuf_ptr (b ∷ bs) buf le =
    let off_eq = next_offset_lem buf.used le in
    elim (Bool-cases (ltb strbuf_size (next_offset buf.used + length (b ∷ bs)))) [
      | inl full ↦ rw full (inr (refl, refl, inr (ground (arith, full))))
      | inr room ↦ rw room (
          inl (record {
            off = next_offset buf.used;
            behind = omega (arith, off_eq);
            aligned = omega (arith, off_eq);
            used = refl;
            within = ground (arith, room);
            ptr = refl;
            len = ground (arith, room);
            copied = copy-at buf.bytes (next_offset buf.used) (b ∷ bs);
            kept = λ k lt.
                copy-below buf.bytes (next_offset buf.used) (b ∷ bs) k (omega (arith, off_eq, lt));
          }))
    ]

-- The bytes of `a` and `b` with a space between them, when there are both.
abbrev pub joined : List ℕ → List ℕ → List ℕ
joined [] b = b
joined (x ∷ xs) [] = x ∷ xs
joined (x ∷ xs) (y ∷ ys) = (x ∷ xs) ++ (sep ++ (y ∷ ys))

-- `strbuf_alloc_join` does what a copy of the joined bytes does.
pub strbuf_alloc_join-copy :
    (strbuf_ptr : ℕ) (a b : List ℕ) (buf : StrBuf)
    → strbuf_alloc_join strbuf_ptr a b buf ≡ strbuf_alloc_copy strbuf_ptr (joined a b) buf
unfolding strbuf_alloc_join
strbuf_alloc_join-copy strbuf_ptr [] b buf = refl
strbuf_alloc_join-copy strbuf_ptr (x ∷ xs) [] buf = refl
strbuf_alloc_join-copy strbuf_ptr (x ∷ xs) (y ∷ ys) buf =
    let off = next_offset buf.used in
    let la = suc (length xs) in
    let lb = suc (length ys) in
    let need_eq : suc (length (xs ++ (sep ++ (y ∷ ys)))) ≡ la + 1 + lb =
      omega (arith, length-append xs (sep ++ (y ∷ ys))) in
    let used_eq : off + la + 1 + lb ≡ off + (la + 1 + lb) = omega arith in
    let bytes_eq : copy_from_slice
          (copy_from_slice (copy_from_slice buf.bytes off (x ∷ xs)) (off + la) sep) (off + la + 1)
          (y ∷ ys)
        ≡ copy_from_slice buf.bytes off ((x ∷ xs) ++ (sep ++ (y ∷ ys))) =
      copy-append (copy_from_slice buf.bytes off (x ∷ xs)) (off + la) (off + la + 1) sep (y ∷ ys)
        refl
      ∙ copy-append buf.bytes off (off + la) (x ∷ xs) (sep ++ (y ∷ ys)) refl in
    rw (need_eq, used_eq, bytes_eq) refl

module _ (strbuf_ptr : ℕ) (cs bs : List ℕ) (buf : StrBuf) (span : ByteSpan) (buf1 : StrBuf) where
  used_after : buf1.used ≤ strbuf_size → (strbuf_alloc_copy strbuf_ptr bs buf1).1.used ≤ strbuf_size
  used_after le = elim (strbuf_alloc_copy-Placed strbuf_ptr bs buf1 le) [
    | inl stored ↦ stored.within
    | inr (_, same, _) ↦ rw same le
  ]

  kept_after :
      buf1.used ≤ strbuf_size
      → (k : ℕ) → k < buf1.used
      → (strbuf_alloc_copy strbuf_ptr bs buf1).1.bytes k ≡ buf1.bytes k
  kept_after le k lt = elim (strbuf_alloc_copy-Placed strbuf_ptr bs buf1 le) [
    | inl stored ↦ stored.kept k lt
    | inr (_, same, _) ↦ rw same refl
  ]

  read_after :
      Stored strbuf_ptr cs buf span buf1
      → (i b : ℕ) → get_elem? cs i ≡ some b
      → (strbuf_alloc_copy strbuf_ptr bs buf1).1.bytes (span.ptr - strbuf_ptr + i) ≡ b
  read_after stored i b at =
      let place : span.ptr - strbuf_ptr + i ≡ stored.off + i = omega (arith, stored.ptr) in
      let lt : i < length cs = lt_of_get_elem? cs i at in
      rw place (
        kept_after stored.within (stored.off + i) (omega (arith, stored.used, lt))
        ∙ stored.copied i b at)

-- Of two strings that are copied one after the other, the second leaves the first as it stands.
pub copies-apart :
    (strbuf_ptr : ℕ) (cs bs : List ℕ) (buf : StrBuf)
    → buf.used ≤ strbuf_size
    → let first = strbuf_alloc_copy strbuf_ptr cs buf in
      let second = strbuf_alloc_copy strbuf_ptr bs first.1 in
      (second.1.used ≤ strbuf_size)
      × ((i b : ℕ)
          → first.0.ptr ≢ 0
          → get_elem? cs i ≡ some b
          → second.1.bytes (first.0.ptr - strbuf_ptr + i) ≡ b)
copies-apart strbuf_ptr cs bs buf le =
    let first = strbuf_alloc_copy strbuf_ptr cs buf in
    elim (strbuf_alloc_copy-Placed strbuf_ptr cs buf le) [
      | inl stored ↦ (
        used_after strbuf_ptr cs bs buf first.0 first.1 stored.within,
        λ i b _. read_after strbuf_ptr cs bs buf first.0 first.1 stored i b,
      )
      | inr (no_span, same, _) ↦ (
        used_after strbuf_ptr cs bs buf first.0 first.1 (rw same le),
        λ i b some_span. absurd (some_span (ap (λ x. x.ptr) no_span)),
      )
    ]

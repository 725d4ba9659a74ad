-- ===== src/Names/Laws.antt =====
-- `validate` against the description of a name.
use hyperplane_rs.Prelude.{
  ℕ, ◌+◌, ◌≤◌, ◌≡◌, ◌↔◌, refl, ap, Bool, true, false, ltb, List, [], ◌∷◌, ◌++◌, all, Bool-cases,
  inl, inr, arith, subst, ltb→lt,
}
use hyperplane_rs.Names.{
  invalid_char, ok, err, len_utf8, byte_len, is_allowed, is_start, validate_char, validate_chars,
  validate, and_then,
}

-- The first character may start a name.
abbrev pub starts_well : List ℕ → Bool
starts_well [] = false
starts_well (ch ∷ s) = is_start ch

chars-ok : (offset : ℕ) (s : List ℕ) → (validate_chars offset s ≡ ok) ↔ (all is_allowed s ≡ true)
unfolding validate_chars validate_char and_then
chars-ok offset [] = (λ h. refl, λ h. refl)
chars-ok offset (ch ∷ s) = elim (Bool-cases (is_allowed ch)) [
  | inl t ↦ rw t (chars-ok (offset + len_utf8 ch) s)
  | inr f ↦ rw f (λ h. cc, λ h. cc)
]

-- `validate` accepts a name exactly when it begins with an ASCII letter or an underscore, has at most
-- `max_len` bytes, and has no character but ASCII letters, digits, `_`, `-` and `.`.
pub validate-ok :
    (max_len : ℕ) (s : List ℕ)
    → (validate max_len s ≡ ok)
      ↔ ((starts_well s ≡ true) × (byte_len s ≤ max_len) × (all is_allowed s ≡ true))
unfolding validate
validate-ok max_len [] = (λ h. cc, λ h. cc)
validate-ok max_len (ch ∷ s) = elim (Bool-cases (ltb max_len (byte_len (ch ∷ s)))) [
  | inl t ↦ rw t (λ h. cc, λ h. absurd (omega (arith, ltb→lt max_len (byte_len (ch ∷ s)) t, h.1)))
  | inr f ↦ rw f (elim (Bool-cases (is_start ch)) [
    | inl t ↦
        rw t
          (λ h. (refl, ground arith, (chars-ok 0 (ch ∷ s)).0 h), λ h. (chars-ok 0 (ch ∷ s)).1 (h.2))
    | inr g ↦ rw g (λ h. cc, λ h. cc)
  ])
]

-- Where a loop over the characters stops: the character and its byte offset.
abbrev pub StopsAt : ℕ → List ℕ → ℕ → ℕ → Type 0
StopsAt offset s ch at =
    (before : List ℕ) × (after : List ℕ) × (s ≡ before ++ ch ∷ after)
    × (all is_allowed before ≡ true)
    × (is_allowed ch ≡ false)
    × (at ≡ offset + byte_len before)

invalid_char-inj :
    (a b c d : ℕ) → err (invalid_char a b) ≡ err (invalid_char c d) → (a ≡ c) × (b ≡ d)
invalid_char-inj a b c d h = (cc, cc)

chars-invalid :
    (offset : ℕ) (s : List ℕ) (ch at : ℕ)
    → validate_chars offset s ≡ err (invalid_char ch at)
    → StopsAt offset s ch at
unfolding validate_chars validate_char and_then byte_len
chars-invalid offset [] ch at h = cc
chars-invalid offset (c ∷ s) ch at h = elim (Bool-cases (is_allowed c)) [
  | inl t ↦
      let rest = chars-invalid (offset + len_utf8 c) s ch at (rw (t, validate_chars) at h) in
      (
        c ∷ rest.0,
        rest.1,
        ap (λ r. c ∷ r) rest.2,
        ground (arith, rest.3),
        rest.4,
        omega (arith, rest.5),
      )
  | inr f ↦
      let same = invalid_char-inj c offset ch at (rw (f, validate_chars) at h) in
      (
        [],
        s,
        ap (λ x. x ∷ s) (same.0),
        refl,
        subst (λ x. is_allowed x ≡ false) (same.0) f,
        omega (arith, same.1),
      )
]

-- When `validate` names an invalid character, the string has that character at the byte offset that
-- the error gives, it is outside the allowed class, and every character before it is allowed.
pub validate-invalid_char :
    (max_len : ℕ) (s : List ℕ) (ch at : ℕ)
    → validate max_len s ≡ err (invalid_char ch at)
    → StopsAt 0 s ch at
unfolding validate
validate-invalid_char max_len [] ch at h = cc
validate-invalid_char max_len (c ∷ s) ch at h = elim (Bool-cases (ltb max_len (byte_len (c ∷ s)))) [
  | inl t ↦ let g = rw t at h in cc
  | inr f ↦ elim (Bool-cases (is_start c)) [
    | inl t ↦ chars-invalid 0 (c ∷ s) ch at (rw (f, t) at h)
    | inr n ↦ let g = rw (f, n) at h in cc
  ]
]

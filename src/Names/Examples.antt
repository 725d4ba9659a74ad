-- ===== src/Names/Examples.antt =====
-- Tests and concrete instances for names.
use hyperplane_rs.Prelude.{ℕ, ◌≤◌, ◌≡◌, ◌↔◌, refl, true, List, [], ◌∷◌, all}
use hyperplane_rs.Names.{byte_len, is_allowed, validate, ok, err, invalid_char, bad_start}
use hyperplane_rs.Names.Laws.{StopsAt, starts_well, validate-ok, validate-invalid_char}

-- `api-1` and `a b`.
abbrev api_1 : List ℕ
api_1 = b'a' ∷ b'p' ∷ b'i' ∷ b'-' ∷ b'1' ∷ []

abbrev a_space_b : List ℕ
a_space_b = b'a' ∷ b' ' ∷ b'b' ∷ []

accepted : validate 64 api_1 ≡ ok
unfolding validate
accepted = refl

space_refused : validate 64 a_space_b ≡ err (invalid_char b' ' 1)
unfolding validate
space_refused = refl

digit_first : validate 64 (b'1' ∷ []) ≡ err (bad_start b'1')
unfolding validate
digit_first = refl

validate-ok_example :
    (validate 64 api_1 ≡ ok)
    ↔ ((starts_well api_1 ≡ true) × (byte_len api_1 ≤ 64) × (all is_allowed api_1 ≡ true))
validate-ok_example = validate-ok 64 api_1

validate-invalid_char_example : StopsAt 0 a_space_b b' ' 1
validate-invalid_char_example = validate-invalid_char 64 a_space_b b' ' 1 space_refused

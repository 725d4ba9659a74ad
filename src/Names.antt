-- ===== src/Names.antt =====
-- crates/paramodel-elements/src/names.rs: the validation of names. A string is the list of its
-- characters, each a code point; `max_len` is the kind's `MAX_LEN`.
mod Laws
mod Examples
use hyperplane_rs.Prelude.{
  ℕ, ◌+◌, Bool, true, false, ◌&&◌, ◌||◌, ◌==◌, ltb, leb, List, [], ◌∷◌, if◌then◌else◌,
}

pub data NameError : Type 0 where
  empty : NameError
  too_long : ℕ → ℕ → NameError
  invalid_char : ℕ → ℕ → NameError
  bad_start : ℕ → NameError

pub data Checked : Type 0 where
  ok : Checked
  err : NameError → Checked

-- The bytes of a character in UTF-8, and `str::len`.
unfoldable pub len_utf8 : ℕ → ℕ
len_utf8 ch = if ltb ch 128 then 1 else if ltb ch 2048 then 2 else if ltb ch 65536 then 3 else 4

unfoldable pub byte_len : List ℕ → ℕ
unfolding len_utf8
byte_len [] = 0
byte_len (ch ∷ s) = len_utf8 ch + byte_len s

unfoldable pub between : ℕ → ℕ → ℕ → Bool
between lo hi ch = leb lo ch && leb ch hi

unfoldable pub is_ascii_alphabetic : ℕ → Bool
unfolding between
is_ascii_alphabetic ch = between b'a' b'z' ch || between b'A' b'Z' ch

unfoldable pub is_ascii_alphanumeric : ℕ → Bool
unfolding is_ascii_alphabetic
is_ascii_alphanumeric ch = is_ascii_alphabetic ch || between b'0' b'9' ch

unfoldable pub is_allowed : ℕ → Bool
unfolding is_ascii_alphanumeric
is_allowed ch = is_ascii_alphanumeric ch || (ch == b'_') || (ch == b'-') || (ch == b'.')

unfoldable pub is_start : ℕ → Bool
unfolding is_ascii_alphabetic
is_start ch = is_ascii_alphabetic ch || (ch == b'_')

unfoldable pub validate_char : ℕ → ℕ → Checked
unfolding is_allowed
validate_char offset ch = if is_allowed ch then ok else err (invalid_char ch offset)

-- The `?` of the loop over `char_indices`.
unfoldable pub and_then : Checked → Checked → Checked
and_then ok next = next
and_then (err e) next = err e

unfoldable pub validate_chars : ℕ → List ℕ → Checked
unfolding validate_char and_then len_utf8
validate_chars offset [] = ok
validate_chars offset (ch ∷ s) =
    and_then (validate_char offset ch) (validate_chars (offset + len_utf8 ch) s)

unfoldable pub validate : ℕ → List ℕ → Checked
unfolding byte_len is_start validate_chars
validate max_len [] = err empty
validate max_len (first ∷ s) =
    if ltb max_len (byte_len (first ∷ s))
    then err (too_long (byte_len (first ∷ s)) max_len)
    else if is_start first
    then validate_chars 0 (first ∷ s)
    else err (bad_start first)

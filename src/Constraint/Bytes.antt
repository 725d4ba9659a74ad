-- ===== src/Constraint/Bytes.antt =====
-- The byte encodings at the top of crates/paramodel-elements/src/constraint.rs, and the order of
-- `Vec<u8>`. The code panics at a set, a string or a vector of 2^32 elements or more, which the
-- encodings here do not reach.
use hyperplane_rs.Prelude.{
  ℕ, zero, suc, ◌/◌, ◌%◌, Bool, true, false, List, [], ◌∷◌, ◌++◌, length, ltb, if◌then◌else◌,
}

-- `to_le_bytes` of an unsigned number of `width` bytes.
unfoldable pub le_bytes : ℕ → ℕ → List ℕ
le_bytes zero n = []
le_bytes (suc width) n = n % 256 ∷ le_bytes width (n / 256)

unfoldable pub write_u32_le : ℕ → List ℕ
unfolding le_bytes
write_u32_le v = le_bytes 4 v

unfoldable pub write_str_len_prefixed : List ℕ → List ℕ
unfolding write_u32_le
write_str_len_prefixed s = write_u32_le (length s) ++ s

unfoldable pub write_strings : List (List ℕ) → List ℕ
unfolding write_str_len_prefixed
write_strings [] = []
write_strings (v ∷ values) = write_str_len_prefixed v ++ write_strings values

unfoldable pub write_string_set : List (List ℕ) → List ℕ
unfolding write_strings write_u32_le
write_string_set values = write_u32_le (length values) ++ write_strings values

unfoldable pub leb_bytes : List ℕ → List ℕ → Bool
leb_bytes [] bs = true
leb_bytes (a ∷ cs) [] = false
leb_bytes (a ∷ cs) (b ∷ bs) =
    let rest = leb_bytes cs bs in if ltb a b then true else if ltb b a then false else rest

-- ===== src/Gen/Felt.antt =====
-- `Felt` of src/gen.rs: a field element as the hexadecimal text that the RPC specification asks for.
-- The pattern `^0x(0|[a-fA-F1-9]{1}[a-fA-F0-9]{0,62})$` is `is_match`, and `fix` repairs a text
-- before it is matched.
pub mod Laws
use beerus.Prelude.{
  ℕ, zero, suc, ◌+◌, ◌-◌, ◌≤◌, ◌≡◌, ◌≢◌, ◌⊎◌, inl, inr, refl, ap, ◌∙◌, sym, Bool, true, false, ◌&&◌,
  ◌||◌, Option, none, some, List, [], ◌∷◌, ◌++◌, arith, leb, ◌==◌, if◌then◌else◌, Bool-cases,
  length, all, replicate, Str, text, str_eq, str_eq→≡, str_eq_refl, strip_prefix,
  trim_start_matches, is_hex_digit, is_nonzero_hex_digit, Outcome, ok, err, panic, Error, ℤ, pos,
}

pub record Felt : Type 0 where
  pub value : Str

-- `[a-fA-F1-9]{1}[a-fA-F0-9]{0,max}$`
unfoldable pub nonzero_digits : ℕ → Str → Bool
nonzero_digits max [] = false
nonzero_digits max (c ∷ s) = is_nonzero_hex_digit c && (all is_hex_digit s && leb (length s) max)

-- What follows `0x` in a felt.
unfoldable pub felt_digits : Str → Bool
unfolding str_eq nonzero_digits
felt_digits s = str_eq s (text "0") || nonzero_digits 62 s

-- A text that starts with `0x`, and goes on as the test says.
unfoldable pub after_0x : (Str → Bool) → Str → Bool
unfolding strip_prefix
after_0x p s = elim (strip_prefix (text "0x") s) [ none ↦ false | some rest ↦ p rest ]

unfoldable pub is_match : Str → Bool
unfolding after_0x felt_digits
is_match = after_0x felt_digits

-- `starts_with("0")`
starts_with_zero : Str → Bool
starts_with_zero [] = false
starts_with_zero (c ∷ s) = c == b'0'

fix_unprefixed : Str → Str → Str
unfolding starts_with_zero str_eq trim_start_matches
fix_unprefixed value [] = text "0x0"
fix_unprefixed value (c ∷ s) =
    if str_eq (c ∷ s) (text "0")
    then value
    else if starts_with_zero (c ∷ s)
    then text "0x" ++ trim_start_matches b'0' (c ∷ s)
    else value

unprefixed : Str → Str
unfolding strip_prefix
unprefixed value = elim (strip_prefix (text "0x") value) [ none ↦ value | some rest ↦ rest ]

unfoldable pub fix : Str → Str
unfolding fix_unprefixed unprefixed
fix value = fix_unprefixed value (unprefixed value)

unfoldable pub not_a_felt : Str → Error
not_a_felt value = record {
  code = pos 1001;
  message = text "Felt value does not match regex: " ++ value;
}

unfoldable pub try_new : Str → Outcome Error Felt
unfolding fix is_match not_a_felt
try_new value =
    if is_match (fix value) then ok (record { value = fix value }) else err (not_a_felt (fix value))

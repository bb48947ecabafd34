-- ===== src/Gen/Keys/Laws.antt =====
-- What the pattern of a storage key in src/gen.rs lets through.
use beerus.Prelude.{ℕ, ◌∷◌, false, str_eq, ◌≡◌, refl, ◌++◌, Str, text, ok, strip_prefix}
use beerus.Gen.Felt.{after_0x, felt_digits, nonzero_digits, is_match}
use beerus.Gen.Keys.{try_storage_key, storage_key_digits}

-- Every text that starts with `0x0` and goes on is taken as a storage key, whatever follows, though
-- none of them has the pattern of a felt.
pub try_storage_key_of_zero :
    (c : ℕ) (rest : Str)
    → (try_storage_key (text "0x0" ++ (c ∷ rest))
        ≡ ok (record { value = text "0x0" ++ (c ∷ rest) }))
      × (is_match (text "0x0" ++ (c ∷ rest)) ≡ false)
unfolding try_storage_key after_0x storage_key_digits strip_prefix is_match felt_digits
    nonzero_digits str_eq
try_storage_key_of_zero c rest = (refl, refl)

-- ===== src/Tests/Felts.antt =====
-- Texts of field elements, as src/gen.rs takes them.
use beerus.Prelude.{◌≡◌, refl, true, ◌++◌, replicate, Str, text, ok, err}
use beerus.Gen.Felt.{Felt, felt_digits, not_a_felt, try_new}
use beerus.Gen.Felt.Laws.{IsFelt-try_new, try_new_idem, try_new-zeros}

abbrev padded : Str
padded = text "0x00a1f"

abbrev fixed : Felt
fixed = record { value = text "0xa1f" }

try_new-padded : try_new padded ≡ ok fixed
unfolding try_new
try_new-padded = refl

IsFelt-try_new_example : (s : Str) × (fixed.value ≡ text "0x" ++ s) × (felt_digits s ≡ true)
IsFelt-try_new_example = IsFelt-try_new padded try_new-padded

try_new_idem_example : try_new fixed.value ≡ ok fixed
try_new_idem_example = try_new_idem padded try_new-padded

try_new-zeros_example : try_new (text "0x" ++ replicate 4 b'0') ≡ err (not_a_felt (text "0x"))
try_new-zeros_example = try_new-zeros 2

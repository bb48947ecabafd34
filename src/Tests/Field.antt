-- ===== src/Tests/Field.antt =====
-- A field of two elements, for runs of the code that takes the field as a parameter.
use beerus.Prelude.{
  ℕ, ◌%◌, ◌≡◌, ◌↔◌, refl, Bool, true, false, Option, none, some, List, [], ◌∷◌, ◌++◌, ◌==◌,
  if◌then◌else◌, length, replicate, Str, text, str_eq,
}
use beerus.Gen.Felt.{felt_digits}
use beerus.Util.{StarkCrypto}
use beerus.Util.Laws.{FieldLaws}

abbrev pub xor : Bool → Bool → Bool
xor true true = false
xor true false = true
xor false b = b

abbrev pub equal : Bool → Bool → Bool
equal true b = b
equal false true = false
equal false false = true

abbrev pub two_from_hex : Str → Option Bool
unfolding str_eq
two_from_hex s =
    if str_eq s (text "0x0") then some false else if str_eq s (text "0x1") then some true else none

abbrev pub two_to_hex : Bool → Str
two_to_hex false = text "0"
two_to_hex true = text "1"

abbrev pub two_bytes : Bool → List ℕ
two_bytes false = replicate 32 0
two_bytes true = replicate 31 0 ++ (1 ∷ [])

abbrev pub sum : List Bool → Bool
sum [] = false
sum (b ∷ bs) = xor b (sum bs)

abbrev pub two : StarkCrypto Bool
two = record {
  from_hex = two_from_hex;
  to_hex = two_to_hex;
  to_bytes_be = two_bytes;
  from_bytes_be = λ bs. str_eq bs (two_bytes true);
  from_bytes_be_slice = λ bs. str_eq bs (two_bytes true);
  from_u64 = λ n. n % 2 == 1;
  field_add = xor;
  field_eq = equal;
  field_zero = false;
  pedersen_hash = λ a b. xor a b;
  poseidon_hash_many = sum;
}

two_eq_iff : (a b : Bool) → (equal a b ≡ true) ↔ (a ≡ b)
two_eq_iff true true = (λ h. refl, λ h. refl)
two_eq_iff true false = (λ h. absurd (cc), λ h. absurd (cc))
two_eq_iff false true = (λ h. absurd (cc), λ h. absurd (cc))
two_eq_iff false false = (λ h. refl, λ h. refl)

xor_cancel : (a b c : Bool) → xor a c ≡ xor b c → a ≡ b
xor_cancel true true c h = refl
xor_cancel false false c h = refl
xor_cancel true false true h = cc
xor_cancel true false false h = cc
xor_cancel false true true h = cc
xor_cancel false true false h = cc

length-two_bytes : (a : Bool) → length (two_bytes a) ≡ 32
length-two_bytes true = refl
length-two_bytes false = refl

two_digits : (a : Bool) → felt_digits (two_to_hex a) ≡ true
unfolding felt_digits
two_digits true = refl
two_digits false = refl

two_hex : (a : Bool) → two_from_hex (text "0x" ++ two_to_hex a) ≡ some a
unfolding str_eq
two_hex true = refl
two_hex false = refl

pub two_laws : FieldLaws two
unfolding str_eq
two_laws = record {
  field_eq_iff = two_eq_iff;
  length-to_bytes_be = length-two_bytes;
  to_hex_digits = two_digits;
  from_hex-to_hex = two_hex;
  field_add_cancel = xor_cancel;
}

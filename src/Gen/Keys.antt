-- ===== src/Gen/Keys.antt =====
-- The other texts of src/gen.rs that are checked against a pattern: storage keys, chain ids,
-- addresses, numbers in hexadecimal and compiled programs in base 64.
pub mod Laws
use beerus.Prelude.{
  ℕ, Bool, true, false, ◌&&◌, ◌||◌, [], ◌∷◌, ◌++◌, leb, ◌==◌, if◌then◌else◌, length, all, Str, text,
  str_eq, is_hex_digit, Outcome, ok, err, Error, pos,
}
use beerus.Gen.Felt.{nonzero_digits, after_0x}

pub record StorageKey : Type 0 where
  pub value : Str

pub record ChainId : Type 0 where
  pub value : Str

pub record NumAsHex : Type 0 where
  pub value : Str

pub record EthAddress : Type 0 where
  pub value : Str

pub record U128 : Type 0 where
  pub value : Str

pub record U64 : Type 0 where
  pub value : Str

pub record DeprecatedContractClassProgram : Type 0 where
  pub value : Str

no_match : Str → Str → Error
no_match name value = record {
  code = pos 1001;
  message = name ++ (text " value does not match regex: " ++ value);
}

-- `0|[0-7]{1}[a-fA-F0-9]{0,62}$`: the end of the text is asked for in the second alternative only.
storage_key_digits : Str → Bool
storage_key_digits [] = false
storage_key_digits (c ∷ s) =
    c == b'0' || leb b'0' c && leb c b'7' && (all is_hex_digit s && leb (length s) 62)

-- `^0x(0|[0-7]{1}[a-fA-F0-9]{0,62}$)`
unfoldable pub try_storage_key : Str → Outcome Error StorageKey
unfolding after_0x storage_key_digits no_match
try_storage_key value =
    if after_0x storage_key_digits value
    then ok (record { value = value })
    else err (no_match (text "StorageKey") value)

-- `[a-fA-F0-9]+$`
hex_digits : Str → Bool
hex_digits s = leb 1 (length s) && all is_hex_digit s

-- `^0x[a-fA-F0-9]+$`
unfoldable pub try_chain_id : Str → Outcome Error ChainId
unfolding after_0x hex_digits no_match
try_chain_id value =
    if after_0x hex_digits value
    then ok (record { value = value })
    else err (no_match (text "ChainId") value)

-- `^0x[a-fA-F0-9]+$`
unfoldable pub try_num_as_hex : Str → Outcome Error NumAsHex
unfolding after_0x hex_digits no_match
try_num_as_hex value =
    if after_0x hex_digits value
    then ok (record { value = value })
    else err (no_match (text "NumAsHex") value)

-- `[a-fA-F0-9]{40}$`
forty_digits : Str → Bool
forty_digits s = length s == 40 && all is_hex_digit s

-- `^0x[a-fA-F0-9]{40}$`
unfoldable pub try_eth_address : Str → Outcome Error EthAddress
unfolding after_0x forty_digits no_match
try_eth_address value =
    if after_0x forty_digits value
    then ok (record { value = value })
    else err (no_match (text "EthAddress") value)

-- `0|[a-fA-F1-9]{1}[a-fA-F0-9]{0,max}$`
short_digits : ℕ → Str → Bool
unfolding str_eq nonzero_digits
short_digits max s = str_eq s (text "0") || nonzero_digits max s

-- `^0x(0|[a-fA-F1-9]{1}[a-fA-F0-9]{0,31})$`
unfoldable pub try_u128 : Str → Outcome Error U128
unfolding after_0x short_digits no_match
try_u128 value =
    if after_0x (short_digits 31) value
    then ok (record { value = value })
    else err (no_match (text "U128") value)

-- `^0x(0|[a-fA-F1-9]{1}[a-fA-F0-9]{0,15})$`
unfoldable pub try_u64 : Str → Outcome Error U64
unfolding after_0x short_digits no_match
try_u64 value =
    if after_0x (short_digits 15) value
    then ok (record { value = value })
    else err (no_match (text "U64") value)

-- `[A-Za-z0-9+/]`
is_base64 : ℕ → Bool
is_base64 c =
    leb b'A' c && leb c b'Z'
    || (leb b'a' c && leb c b'z' || (leb b'0' c && leb c b'9' || (c == b'+' || c == b'/')))

-- `(?:[A-Za-z0-9+/]{4})*(?:[A-Za-z0-9+/]{3}=|[A-Za-z0-9+/]{2}==)?$`: a group of four at a time,
-- the last of which may be padded.
base64_groups : Str → Bool
unfolding is_base64
base64_groups [] = true
base64_groups (a ∷ b ∷ c ∷ d ∷ []) =
    is_base64 a
    && is_base64 b
    && (is_base64 c && (is_base64 d || d == b'=') || c == b'=' && d == b'=')
base64_groups (a ∷ b ∷ c ∷ d ∷ s) =
    is_base64 a && is_base64 b && (is_base64 c && is_base64 d) && base64_groups s
base64_groups _ = false

-- `^(?:[A-Za-z0-9+/]{4})*(?:[A-Za-z0-9+/]{3}=|[A-Za-z0-9+/]{2}==)?$`
unfoldable pub try_program : Str → Outcome Error DeprecatedContractClassProgram
unfolding base64_groups no_match
try_program value =
    if base64_groups value
    then ok (record { value = value })
    else err (no_match (text "DeprecatedContractClassProgram") value)

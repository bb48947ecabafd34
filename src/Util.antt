-- ===== src/Util.antt =====
-- src/util.rs: the 251 bits of a field element, most significant first, and back under a mask.
-- The field (`starknet_crypto`) and the bit views (`bitvec`) are parameters.
pub mod Laws
use beerus.Prelude.{
  ℕ, ◌+◌, ◌*◌, ◌≡◌, Bool, not, Option, none, some, List, ◌++◌, ltb, ◌==◌, if◌then◌else◌, length,
  take, drop, replicate, Str, text, Outcome, ok, err, ◌>>=◌,
}

-- `starknet_crypto::Felt` and the two hashes, as the program calls them. `to_hex` is `{:x}`.
pub record StarkCrypto (F : Type 0) : Type 0 where
  pub from_hex : Str → Option F
  pub to_hex : F → Str
  pub to_bytes_be : F → List ℕ
  pub from_bytes_be : List ℕ → F
  pub from_bytes_be_slice : List ℕ → F
  pub from_u64 : ℕ → F
  pub field_add : F → F → F
  pub field_eq : F → F → Bool
  pub field_zero : F
  pub pedersen_hash : F → F → F
  pub poseidon_hash_many : List F → F

-- `bitvec` with `Msb0`: the bits of a byte slice, and the slice after bits are written to it from
-- an offset on.
pub record BitView : Type 0 where
  pub view_bits : List ℕ → List Bool
  pub copy_bits : List ℕ → ℕ → List Bool → List ℕ

module _ (bits : BitView) where
  open bits use {view_bits, copy_bits}

  -- `felt.view_bits::<Msb0>()[5..]`
  unfoldable pub felt_to_bits : List ℕ → List Bool
  felt_to_bits felt = drop 5 (view_bits felt)

  mask_or_zero : Option ℕ → Outcome Str ℕ
  mask_or_zero none = ok 0
  mask_or_zero (some x) = if ltb 251 x then err (text "Mask cannot be bigger than 251") else ok x

  masked_bytes : List Bool → ℕ → List ℕ
  masked_bytes slice mask = copy_bits (replicate 32 0) (5 + mask) (drop mask slice)

  module _ {F : Type 0} (crypto : StarkCrypto F) where
    unfoldable pub felt_from_bits : List Bool → Option ℕ → Outcome Str F
    unfolding mask_or_zero masked_bytes
    felt_from_bits slice mask =
        if not (length slice == 251)
        then err (text "expecting 251 bits")
        else (do m ← mask_or_zero mask; ok (crypto.from_bytes_be (masked_bytes slice m)))

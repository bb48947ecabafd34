-- ===== src/Util/Laws.antt =====
-- src/util.rs: what is assumed of the field and of the bit views, and what the masks compute.
use beerus.Prelude.{
  ℕ, zero, suc, ◌+◌, ◌*◌, ◌≤◌, ◌≡◌, ◌≢◌, ◌↔◌, ◌⊎◌, inl, inr, refl, ap, ◌∙◌, Bool, true, false, some,
  List, ◌∷◌, ◌++◌, arith, Bool-cases, length, take, drop, replicate, length-drop, text, ok, panic,
  Option, none,
}
use beerus.Gen.Felt.{felt_digits}
use beerus.Util.{StarkCrypto, BitView, felt_to_bits, felt_from_bits, masked_bytes, mask_or_zero}

-- Documented of `starknet_crypto::Felt`: equality decides, a value has 32 bytes, `{:x}` writes the
-- shortest hexadecimal digits, which `from_hex` reads back, and addition can be undone.
pub record FieldLaws {F : Type 0} (crypto : StarkCrypto F) : Type 0 where
  pub field_eq_iff : (a b : F) → (crypto.field_eq a b ≡ true) ↔ (a ≡ b)
  pub length-to_bytes_be : (a : F) → length (crypto.to_bytes_be a) ≡ 32
  pub to_hex_digits : (a : F) → felt_digits (crypto.to_hex a) ≡ true
  pub from_hex-to_hex : (a : F) → crypto.from_hex (text "0x" ++ crypto.to_hex a) ≡ some a
  pub field_add_cancel : (a b c : F) → crypto.field_add a c ≡ crypto.field_add b c → a ≡ b

-- Documented of `bitvec`: a byte has eight bits, and a write replaces the bits from the offset on.
pub record BitLaws (bits : BitView) : Type 0 where
  pub length-view_bits : (bs : List ℕ) → length (bits.view_bits bs) ≡ 8 * length bs
  pub length-copy_bits :
      (bs : List ℕ) (n : ℕ) (xs : List Bool) → length (bits.copy_bits bs n xs) ≡ length bs
  pub view_bits-copy_bits :
      (bs : List ℕ) (n : ℕ) (xs : List Bool)
      → n + length xs ≡ 8 * length bs
      → bits.view_bits (bits.copy_bits bs n xs) ≡ take n (bits.view_bits bs) ++ xs
  pub view_bits-zeros : (n : ℕ) → bits.view_bits (replicate n 0) ≡ replicate (8 * n) false

-- Two inputs of `pedersen_hash` that differ and have one hash.
pub record Collision {F : Type 0} (crypto : StarkCrypto F) : Type 0 where
  pub a : F
  pub b : F
  pub c : F
  pub d : F
  pub same_hash : crypto.pedersen_hash a b ≡ crypto.pedersen_hash c d
  pub differ : (a ≢ c) ⊎ (b ≢ d)

module _ {F : Type 0} {crypto : StarkCrypto F} (laws : FieldLaws crypto) where
  pub eq-cases : (a b : F) → (a ≡ b) ⊎ (a ≢ b)
  eq-cases a b = elim (Bool-cases (crypto.field_eq a b)) [
    | inl same ↦ inl ((laws.field_eq_iff a b).0 same)
    | inr other ↦ inr (λ e. ground (arith, (laws.field_eq_iff a b).1 e))
  ]

  pub pedersen-cases :
      (a b c d : F)
      → crypto.pedersen_hash a b ≡ crypto.pedersen_hash c d
      → ((a ≡ c) × (b ≡ d)) ⊎ Collision crypto
  pedersen-cases a b c d h = elim (eq-cases a c) [
    | inr ne ↦ inr (record { a = a; b = b; c = c; d = d; same_hash = h; differ = inl ne })
    | inl p ↦ elim (eq-cases b d) [
      | inl q ↦ inl (p, q)
      | inr ne ↦ inr (record { a = a; b = b; c = c; d = d; same_hash = h; differ = inr ne })
    ]
  ]

drop_five :
    (m : ℕ) (ys : List Bool) → drop 5 (replicate (5 + m) false ++ ys) ≡ replicate m false ++ ys
drop_five m ys = let e : 5 + m ≡ suc (suc (suc (suc (suc m)))) = omega arith in rw e

module _ {bits : BitView} (laws : BitLaws bits) where
  -- A felt of 32 bytes has 251 bits.
  pub length-felt_to_bits : (bs : List ℕ) → length bs ≡ 32 → length (felt_to_bits bits bs) ≡ 251
  unfolding felt_to_bits
  length-felt_to_bits bs h =
      omega (arith, length-drop {0} 5 (bits.view_bits bs), laws.length-view_bits bs)

  take_zeros : (m n : ℕ) → m ≤ n → take m (replicate n false) ≡ replicate m false
  take_zeros zero n h = refl
  take_zeros (suc m) zero h = absurd (omega arith)
  take_zeros (suc m) (suc n) h = ap (◌∷◌ false) (take_zeros m n (omega arith))

  view-masked_bytes :
      (slice : List Bool) (m : ℕ)
      → length slice ≡ 251
      → m ≤ 251
      → bits.view_bits (masked_bytes bits slice m) ≡ replicate (5 + m) false ++ drop m slice
  unfolding masked_bytes
  view-masked_bytes slice m len below =
      rw
        (
          laws.view_bits-copy_bits (replicate 32 0) (5 + m) (drop m slice)
              (omega (arith, length-drop {0} m slice)),
          laws.view_bits-zeros 32,
          take_zeros (5 + m) 256 (omega arith),
        )
        refl

  -- Under a mask within the 251 bits the field element is read from 32 bytes whose first bits are
  -- zeros, up to the mask, and whose other bits are those of the slice.
  pub felt_from_bits-masked :
      {F : Type 0} (crypto : StarkCrypto F) (slice : List Bool) (m : ℕ)
      → length slice ≡ 251
      → m ≤ 251
      → (bs : List ℕ) × (felt_from_bits bits crypto slice (some m) ≡ ok (crypto.from_bytes_be bs))
        × (length bs ≡ 32)
        × (felt_to_bits bits bs ≡ replicate m false ++ drop m slice)
  unfolding felt_from_bits felt_to_bits
  felt_from_bits-masked crypto slice m len below = (
    masked_bytes bits slice m,
    ground arith,
    laws.length-copy_bits (replicate 32 0) (5 + m) (drop m slice),
    ap (drop 5) (view-masked_bytes slice m len below) ∙ drop_five m (drop m slice),
  )

-- A slice of bits is read, or refused.
pub felt_from_bits-returns :
    {F : Type 0} (bits : BitView) (crypto : StarkCrypto F) (slice : List Bool) (mask : Option ℕ)
    → felt_from_bits bits crypto slice mask ≢ panic
unfolding felt_from_bits mask_or_zero
felt_from_bits-returns bits crypto slice none h = ground arith
felt_from_bits-returns bits crypto slice (some x) h = ground arith

-- ===== src/Proof/OffKey.antt =====
-- src/proof.rs: proofs that are longer than the key, of nodes whose hashes are all right.
use beerus.Prelude.{
  ℕ, zero, suc, ◌+◌, ◌≤◌, ◌<◌, ◌≡◌, refl, Bool, Bool-cases, inl, inr, none, some, List, [], ◌∷◌,
  reverse, arith, ltb, length, get_elem?, Str, ok, panic,
}
use mathlib.Core.List.{reverse-reverse}
use beerus.Gen.Felt.{Felt}
use beerus.Gen.Types.{Node, binary_node}
use beerus.Util.{StarkCrypto, BitView, felt_to_bits}
use beerus.Util.Laws.{FieldLaws, BitLaws, length-felt_to_bits}
use beerus.Proof.{
  Walk, field_element, visit_binary, visit, climb, parse_proof, Direction, left, right, direction,
  expected_hash, from_251, add_i64,
}
use beerus.Proof.Steps.{felt_text}
use beerus.Proof.Returns.{get_elem?-some}

get_elem?-none : (key : List Bool) (n : ℕ) → length key ≤ n → get_elem? key n ≡ none
get_elem?-none [] n h = refl
get_elem?-none (b ∷ key) zero h = absurd (omega arith)
get_elem?-none (b ∷ key) (suc n) h = get_elem?-none key n (omega arith)

module _ {F : Type 0} (crypto : StarkCrypto F) where
  -- A binary node with one hash on both sides, and the nodes from the leaf up that are made so.
  abbrev pub twin : F → Node
  twin hash =
      binary_node
        (record { binary = record { left = felt_text crypto hash; right = felt_text crypto hash } })

  abbrev pub tower : F → ℕ → List Node
  tower hash zero = []
  tower hash (suc n) = twin hash ∷ tower (crypto.pedersen_hash hash hash) n

expected_hash-twin :
    {F : Type 0} (crypto : StarkCrypto F) (bits : BitView) (d : Direction) (hash : F)
    → expected_hash crypto bits d hash hash hash ≡ crypto.pedersen_hash hash hash
unfolding expected_hash
expected_hash-twin crypto bits left hash = refl
expected_hash-twin crypto bits right hash = refl

module _ {F : Type 0} {crypto : StarkCrypto F} (laws : FieldLaws crypto) (bits : BitView)
    (key : List Bool) (whole : length key ≡ 251) where
  -- On the key the node is right in either direction.
  visit-twin :
      (value : F) (i : ℕ) (w : Walk F)
      → w.path_len < 251
      → visit crypto bits key value i (twin crypto w.hold) w
        ≡ ok
            (some (record { hold = crypto.pedersen_hash w.hold w.hold; path_len = w.path_len + 1 }))
  unfolding visit visit_binary field_element
  visit-twin value i w below =
      let on : from_251 (add_i64 w.path_len 1) < 251 = omega arith in
      let next : add_i64 w.path_len 1 ≡ w.path_len + 1 = omega arith in
      let (b, g) = get_elem?-some key (from_251 (add_i64 w.path_len 1)) (omega arith) in
      let hash = crypto.pedersen_hash w.hold w.hold in
      let same = (laws.field_eq_iff hash hash).1 refl in
      let either = expected_hash-twin crypto bits (direction b) w.hold in
      rw (laws.from_hex-to_hex w.hold, g, either, same, next) refl

  visit-off_key :
      (value : F) (i : ℕ) (w : Walk F)
      → w.path_len ≡ 251
      → visit crypto bits key value i (twin crypto w.hold) w ≡ panic
  unfolding visit visit_binary field_element
  visit-off_key value i w end =
      let g = get_elem?-none key (from_251 (add_i64 w.path_len 1)) (omega arith) in
      rw (laws.from_hex-to_hex w.hold, g) refl

  climb-tower :
      (value : F) (i n : ℕ) (w : Walk F)
      → w.path_len ≤ 251
      → 252 ≤ w.path_len + n
      → climb crypto bits key value i (tower crypto w.hold n) w ≡ panic
  unfolding climb
  climb-tower value i zero w small long = absurd (omega arith)
  climb-tower value i (suc n) w small long = elim (Bool-cases (ltb w.path_len 251)) [
    | inl t ↦ rw (visit-twin value i w (ground arith)) (
        climb-tower value (suc i) n
          (record { hold = crypto.pedersen_hash w.hold w.hold; path_len = w.path_len + 1 })
          (ground arith) (omega arith))
    | inr t ↦ rw (visit-off_key value i w (ground arith)) refl
  ]

-- For every key and value that read as field elements, and for every number of nodes from 252 on, a
-- proof of that many binary nodes, each with the hash of the one below as both of its children, so
-- that no node is refused, makes `parse_proof` panic.
pub parse_proof-off_key :
    {F : Type 0} {crypto : StarkCrypto F} {bits : BitView} (laws : FieldLaws crypto)
    (bit_laws : BitLaws bits) (name : Str) (value : Felt) (n : ℕ) (k v : F)
    → crypto.from_hex name ≡ some k
    → crypto.from_hex value.value ≡ some v
    → 252 ≤ n
    → parse_proof crypto bits name value (reverse (tower crypto v n)) ≡ panic
unfolding parse_proof field_element
parse_proof-off_key {crypto = crypto} {bits = bits} laws bit_laws name value n k v ek ev long =
    let key = felt_to_bits bits (crypto.to_bytes_be k) in
    let whole : length key ≡ 251 =
      length-felt_to_bits bit_laws (crypto.to_bytes_be k) (laws.length-to_bytes_be k) in
    let start : Walk _ = record { hold = v; path_len = 0 } in
    let c = climb-tower laws bits key whole v 0 n start (omega arith) (omega arith) in
    let c' : climb crypto bits key v 0 (reverse (reverse (tower crypto v n))) start ≡ panic =
      rw reverse-reverse c in
    ground arith

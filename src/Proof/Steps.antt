-- ===== src/Proof/Steps.antt =====
-- src/proof.rs: what a run that ends in a root has seen, step by step.
use beerus.Prelude.{
  ℕ, suc, ◌≡◌, inl, inr, refl, ap, sym, ◌∙◌, Bool, Option, none, some, List, ◌∷◌, reverse, ◌++◌,
  arith, ◌==◌, Bool-cases, length, get_elem?, Option-cases, Str, text, Outcome, Outcome-cases, ok,
  err, panic, ◌>>=◌, Error,
}
use beerus.Gen.Felt.{Felt}
use beerus.Gen.Felt.Laws.{try_new_of_digits}
use beerus.Gen.Types.{EdgeNode, BinaryNode, Node, Proof}
use beerus.Util.{StarkCrypto, BitView, felt_to_bits, felt_from_bits}
use beerus.Util.Laws.{BitLaws, length-felt_to_bits, FieldLaws}
use beerus.Proof.{
  Walk, direction, field_element, hash_text, finish, visit_edge, expected_hash, visit_binary, visit,
  climb, parse_proof, from_251, add_i64,
}

-- A loop that goes on has not returned early.
pub step-inv {ℓ} :
    {A : Type ℓ} (m : Outcome Error (Option A)) (k : A → Outcome Error (Option A)) {b : A}
    → (m >>= λ o. elim o [ none ↦ ok none | some a ↦ k a ]) ≡ ok (some b)
    → (a : A) × (m ≡ ok (some a)) × (k a ≡ ok (some b))
step-inv (ok none) k h = cc
step-inv (ok (some a)) k h = (a, refl, h)
step-inv (err e) k h = cc
step-inv panic k h = cc

-- A field element as the RPC writes it.
abbrev pub felt_text : {F : Type 0} → StarkCrypto F → F → Felt
felt_text crypto a = record { value = text "0x" ++ crypto.to_hex a }

pub hash_text_lem :
    {F : Type 0} {crypto : StarkCrypto F} (laws : FieldLaws crypto) (a : F)
    → hash_text crypto a ≡ ok (felt_text crypto a)
unfolding hash_text
hash_text_lem {crypto = crypto} laws a = try_new_of_digits (crypto.to_hex a) (laws.to_hex_digits a)

-- The text of a root tells the hash.
pub hash_text-injective :
    {F : Type 0} {crypto : StarkCrypto F} (laws : FieldLaws crypto) (a b : F) {r : Felt}
    → hash_text crypto a ≡ ok r
    → hash_text crypto b ≡ ok r
    → a ≡ b
hash_text-injective {crypto = crypto} laws a b {r} p q =
    let pa : felt_text crypto a ≡ r = cc (hash_text_lem laws a) in
    let pb : felt_text crypto b ≡ r = cc (hash_text_lem laws b) in
    let read : crypto.from_hex (felt_text crypto a).value
        ≡ crypto.from_hex (felt_text crypto b).value =
      ap (λ (f : Felt). crypto.from_hex f.value) (pa ∙ sym pb) in
    cc (laws.from_hex-to_hex a, laws.from_hex-to_hex b)

module _ {F : Type 0} (crypto : StarkCrypto F) (bits : BitView) where
  pub parse_proof-inv :
      (name : Str) (value : Felt) (proof : Proof) {root : Felt}
      → parse_proof crypto bits name value proof ≡ ok (some root)
      → (k : F) × (v : F) × (u : Walk F) × (crypto.from_hex name ≡ some k)
        × (crypto.from_hex value.value ≡ some v)
        × (climb crypto bits
              (felt_to_bits bits (crypto.to_bytes_be k))
              v
              0
              (reverse proof)
              (record { hold = v; path_len = 0 })
            ≡ ok (some u))
        × (hash_text crypto u.hold ≡ ok root)
  unfolding parse_proof field_element finish
  parse_proof-inv name value proof h = elim (Option-cases (crypto.from_hex name)) [
    | inl e ↦ absurd (ground arith)
    | inr (k, ek) ↦ elim (Bool-cases (length (felt_to_bits bits (crypto.to_bytes_be k)) == 251)) [
      | inr e ↦ absurd (ground arith)
      | inl e ↦ elim (Option-cases (crypto.from_hex value.value)) [
        | inl e' ↦ absurd (ground arith)
        | inr (v, ev) ↦
            elim (Outcome-cases (
              climb crypto bits (felt_to_bits bits (crypto.to_bytes_be k)) v 0 (reverse proof)
                (record { hold = v; path_len = 0 }))) [
                  | inr (inl (e, ee)) ↦ absurd (ground arith)
                  | inr (inr e) ↦ absurd (ground arith)
                  | inl (none, ee) ↦ absurd (ground arith)
                  | inl (some u, ee) ↦ elim (Outcome-cases (hash_text crypto u.hold)) [
                    | inr (inl (e, er)) ↦ absurd (ground arith)
                    | inr (inr er) ↦ absurd (ground arith)
                    | inl (r, er) ↦ (k, v, u, ek, ev, ee, ground arith)
                  ]
                ]
      ]
    ]
  ]

module _ {F : Type 0} {crypto : StarkCrypto F} (laws : FieldLaws crypto) (bits : BitView)
    (key : List Bool) where
  -- What an accepted binary node has seen: its new hash is that of the old one and a sibling, on the
  -- side that the key tells.
  pub visit_binary-inv :
      (node : BinaryNode) (w u : Walk F)
      → visit_binary crypto bits key node w ≡ ok (some u)
      → (flag : Bool) × (l : F) × (r : F) × (get_elem? key (from_251 (add_i64 w.path_len 1))
          ≡ some flag)
        × (u.hold ≡ expected_hash crypto bits (direction flag) w.hold l r)
        × (u.path_len ≡ add_i64 w.path_len 1)
  unfolding visit_binary
  visit_binary-inv node w u h = elim (Option-cases (crypto.from_hex node.binary.left.value)) [
    | inl e ↦ absurd (ground arith)
    | inr (l, el) ↦ elim (Option-cases (crypto.from_hex node.binary.right.value)) [
      | inl e ↦ absurd (ground arith)
      | inr (r, er) ↦ elim (Option-cases (get_elem? key (from_251 (add_i64 w.path_len 1)))) [
        | inl e ↦ absurd (ground arith)
        | inr (flag, ef) ↦
            let expected = expected_hash crypto bits (direction flag) w.hold l r in
            (
              flag,
              l,
              r,
              ef,
              ground (arith, laws.field_eq_iff (crypto.pedersen_hash l r) expected),
              ground (arith, laws.field_eq_iff (crypto.pedersen_hash l r) expected),
            )
      ]
    ]
  ]

  pub climb-cons-inv :
      (value : F) (i : ℕ) (node : Node) (nodes : List Node) (w u : Walk F)
      → climb crypto bits key value i (node ∷ nodes) w ≡ ok (some u)
      → (m : Walk F) × (visit crypto bits key value i node w ≡ ok (some m))
        × (climb crypto bits key value (suc i) nodes m ≡ ok (some u))
  unfolding climb
  climb-cons-inv value i node nodes w u h =
      step-inv (visit crypto bits key value i node w) (climb crypto bits key value (suc i) nodes) h

  -- The edge node at the leaf has been compared with the hash of the value, under the key's mask.
  pub visit_edge-inv :
      (value : F) (edge : EdgeNode) (w u : Walk F)
      → visit_edge crypto bits key value 0 edge.edge w ≡ ok (some u)
      → (m : F) × (felt_from_bits bits crypto key (some (from_251 edge.edge.path.len)) ≡ ok m)
        × (u.hold
            ≡ crypto.field_add (crypto.pedersen_hash value m) (crypto.from_u64 edge.edge.path.len))
        × (u.path_len ≡ add_i64 w.path_len edge.edge.path.len)
  unfolding visit_edge
  visit_edge-inv value edge w u h = elim (Option-cases (crypto.from_hex edge.edge.child.value)) [
    | inl e ↦ absurd (ground arith)
    | inr (c, ec) ↦ elim (Option-cases (crypto.from_hex edge.edge.path.value.value)) [
      | inl e ↦ absurd (ground arith)
      | inr (p, ep) ↦
          elim (Outcome-cases
            (felt_from_bits bits crypto key (some (from_251 edge.edge.path.len)))) [
              | inr (inl (e, ee)) ↦ absurd (ground arith)
              | inr (inr e) ↦ absurd (ground arith)
              | inl (m, em) ↦ (
                m,
                em,
                ground (
                  arith,
                  laws.field_eq_iff
                      (crypto.field_add (crypto.pedersen_hash c p)
                        (crypto.from_u64 edge.edge.path.len))
                      (crypto.field_add (crypto.pedersen_hash value m)
                        (crypto.from_u64 edge.edge.path.len)),
                ),
                ground arith,
              )
            ]
    ]
  ]

pub climb-cons :
    {F : Type 0} (crypto : StarkCrypto F) (bits : BitView) (key : List Bool) (v : F) (i : ℕ)
    (node : Node) (nodes : List Node) (w m u : Walk F)
    → visit crypto bits key v i node w ≡ ok (some m)
    → climb crypto bits key v (suc i) nodes m ≡ ok (some u)
    → climb crypto bits key v i (node ∷ nodes) w ≡ ok (some u)
unfolding climb
climb-cons crypto bits key v i node nodes w m u s c = rw s c

module _ {F : Type 0} {crypto : StarkCrypto F} {bits : BitView} (laws : FieldLaws crypto)
    (bit_laws : BitLaws bits) where
  pub parse_proof-of_climb :
      (name : Str) (value : Felt) (proof : Proof) (k f : F) (u : Walk F) {root : Felt}
      → crypto.from_hex name ≡ some k
      → crypto.from_hex value.value ≡ some f
      → climb crypto bits
          (felt_to_bits bits (crypto.to_bytes_be k))
          f
          0
          (reverse proof)
          (record { hold = f; path_len = 0 })
        ≡ ok (some u)
      → hash_text crypto u.hold ≡ ok root
      → parse_proof crypto bits name value proof ≡ ok (some root)
  unfolding parse_proof field_element finish
  parse_proof-of_climb name value proof k f u ek ef c r =
      ground (arith, length-felt_to_bits bit_laws (crypto.to_bytes_be k), laws.length-to_bytes_be k)

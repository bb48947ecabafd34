-- ===== src/Tests/Proofs.antt =====
-- src/proof.rs on small tries over the field of two elements.
use beerus.Prelude.{
  ℕ, ◌≤◌, ◌≡◌, ◌↔◌, refl, sym, Bool, true, false, some, List, [], ◌∷◌, ◌++◌, reverse, arith, drop,
  replicate, length, Str, text, str_eq, ok,
}
use mathlib.Core.List.{append-nil}
use beerus.Gen.Felt.{Felt}
use beerus.Gen.Keys.{StorageKey}
use beerus.Gen.Types.{Address, EdgeNode, Node, binary_node, edge_node, Proof, GetProofResult}
use beerus.Util.{felt_to_bits, felt_from_bits}
use beerus.Util.Laws.{felt_from_bits-masked}
use beerus.Proof.{parse_proof, field_element, climb, visit, finish}
use beerus.Proof.Steps.{felt_text}
use beerus.Proof.Forge.{walked, parse_proof-forged}
use beerus.Proof.Trie.{Trie, leaf, edge, Opens, here, along, trie_hash, path_felt, prove, path_node}
use beerus.Proof.Complete.{parse_proof-prove}
use beerus.Proof.Verify.{verify}
use beerus.Proof.Accepted.{Accepted, verify_iff}
use beerus.Proof.Honest.{Contract, contract_state, state_root, honest_result, verify-honest}
use beerus.Tests.Bits.{msb0, msb0_laws}
use beerus.Tests.Field.{two, two_laws}

abbrev pub zero_text : Str
zero_text = text "0x0"

abbrev pub key_bits : List Bool
key_bits = felt_to_bits msb0 (two.to_bytes_be false)

abbrev pub one_edge : Bool → Trie Bool
one_edge v = edge key_bits (leaf v)

abbrev pub opening : (v : Bool) → Opens v (one_edge v) key_bits
opening v = along key_bits (sym (append-nil key_bits)) here

parse_proof-prove_example :
    parse_proof two msb0 zero_text (felt_text two true) (prove two msb0 (opening true))
    ≡ ok (some (felt_text two (trie_hash two msb0 (one_edge true))))
unfolding str_eq
parse_proof-prove_example =
    parse_proof-prove two_laws msb0_laws zero_text false true (one_edge true) (opening true) refl

felt_from_bits-masked_example :
    (bs : List ℕ) × (felt_from_bits msb0 two key_bits (some 7) ≡ ok (two.from_bytes_be bs))
    × (length bs ≡ 32)
    × (felt_to_bits msb0 bs ≡ replicate 7 false ++ drop 7 key_bits)
unfolding felt_to_bits
felt_from_bits-masked_example = felt_from_bits-masked msb0_laws two key_bits 7 refl (omega arith)

-- Two proofs of one node for different values: the hash of the field of two elements collides.
abbrev pair_proof : Bool → Bool → Proof
pair_proof l r =
    binary_node (record { binary = record { left = felt_text two l; right = felt_text two r } })
    ∷ []

pair_accepted :
    (parse_proof two msb0 zero_text (felt_text two true) (pair_proof true false)
      ≡ ok (some (felt_text two true)))
    × (parse_proof two msb0 zero_text (felt_text two false) (pair_proof false true)
        ≡ ok (some (felt_text two true)))
unfolding parse_proof felt_to_bits str_eq field_element climb visit finish
pair_accepted = (refl, refl)

-- A trie with two edges in a row, and the proof of its one value.
abbrev low_bits : List Bool
low_bits = drop 1 key_bits

abbrev two_edges : Trie Bool
two_edges = edge (false ∷ []) (edge low_bits (leaf true))

first_bit : key_bits ≡ (false ∷ []) ++ low_bits
unfolding felt_to_bits
first_bit = refl

abbrev opening_edges : Opens true two_edges key_bits
opening_edges = along (false ∷ []) first_bit (along low_bits (sym (append-nil low_bits)) here)

abbrev inner_edge : Node
inner_edge = path_node two msb0 low_bits (leaf true)

abbrev outer_edge : EdgeNode
outer_edge = record {
  edge = record {
    child = felt_text two (trie_hash two msb0 (edge low_bits (leaf true)));
    path = record { len = 1; value = felt_text two (path_felt two msb0 (false ∷ [])) };
  };
}

edges_shape :
    reverse (prove two msb0 opening_edges) ≡ inner_edge ∷ ([] ++ (edge_node outer_edge ∷ []))
unfolding prove path_node
edges_shape = refl

edges_short : walked 0 (inner_edge ∷ []) ≤ 251
unfolding path_node felt_to_bits
edges_short = omega arith

parse_proof-forged_example :
    (leaf : EdgeNode) × (parse_proof two msb0 zero_text
        (felt_text two false)
        (reverse (edge_node leaf ∷ (edge_node outer_edge ∷ [])))
      ≡ ok (some (felt_text two (trie_hash two msb0 two_edges))))
unfolding str_eq
parse_proof-forged_example =
    parse_proof-forged two_laws msb0_laws zero_text (felt_text two true) (felt_text two false)
      (prove two msb0 opening_edges) inner_edge [] outer_edge []
      (felt_text two (trie_hash two msb0 two_edges)) false edges_shape edges_short
      (parse_proof-prove two_laws msb0_laws zero_text false true two_edges opening_edges refl) refl

abbrev pub contract : Contract Bool
contract = record { class_hash = true; nonce = false; storage = one_edge true }

abbrev pub contracts : Trie Bool
contracts = one_edge (contract_state two msb0 contract)

abbrev pub zero_address : Address
zero_address = record { felt = record { value = zero_text } }

abbrev pub zero_key : StorageKey
zero_key = record { value = zero_text }

abbrev pub honest : GetProofResult
honest =
    honest_result two msb0 contract (felt_text two false) contracts true
      (prove two msb0 (opening true)) (prove two msb0 (opening (contract_state two msb0 contract)))

abbrev pub honest_root : Felt
honest_root = felt_text two (state_root two msb0 contracts true)

verify-honest_example :
    verify two msb0 honest honest_root zero_address zero_key (felt_text two true) ≡ ok tt
unfolding str_eq
verify-honest_example =
    verify-honest two_laws msb0_laws contract (felt_text two false) contracts true true false false
      zero_address zero_key (opening true) (opening (contract_state two msb0 contract)) refl refl

verify_iff_example :
    (verify two msb0 honest honest_root zero_address zero_key (felt_text two true) ≡ ok tt)
    ↔ Accepted two msb0 honest honest_root zero_address zero_key (felt_text two true)
verify_iff_example =
    verify_iff two msb0 honest honest_root zero_address zero_key (felt_text two true)

pub honest_accepted :
    verify two msb0 honest honest_root zero_address zero_key (record { value = text "0x1" }) ≡ ok tt
unfolding str_eq
honest_accepted =
    verify-honest two_laws msb0_laws contract (felt_text two false) contracts true true false false
      zero_address zero_key (opening true) (opening (contract_state two msb0 contract)) refl refl

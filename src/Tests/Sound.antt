-- ===== src/Tests/Sound.antt =====
-- src/proof.rs: the soundness of the check on an honest result, and a result without nodes.
use beerus.Prelude.{◌≡◌, ◌⊎◌, refl, true, false, some, [], arith, text, str_eq, ok}
use beerus.Gen.Keys.{StorageKey}
use beerus.Gen.Types.{ContractData}
use beerus.Util.{felt_to_bits}
use beerus.Proof.Steps.{felt_text}
use beerus.Proof.Trie.{trie_hash, prove}
use beerus.Proof.Complete.{parse_proof-prove}
use beerus.Proof.Verify.{verify}
use beerus.Proof.Honest.{contract_state, honest_result, honest_data}
use beerus.Proof.Nodes.{NodeCollision}
use beerus.Proof.Sound.{parse_proof_sound}
use beerus.Proof.Forged.{StateForged}
use beerus.Proof.Genuine.{verify_sound}
use beerus.Proof.Truncated.{without_nodes, verify-truncated}
use beerus.Proof.Whole.{prove-IsWhole}
use beerus.Tests.Bits.{msb0, msb0_laws}
use beerus.Tests.Field.{two, two_laws}
use beerus.Tests.Proofs.{
  zero_text, one_edge, opening, contract, contracts, zero_address, zero_key, honest, honest_root,
  honest_accepted,
}

parse_proof_sound_example :
    (two.from_hex (felt_text two true).value ≡ some true) ⊎ NodeCollision two msb0 (one_edge true)
unfolding str_eq felt_to_bits
parse_proof_sound_example =
    parse_proof_sound two_laws msb0_laws zero_text (felt_text two true)
      (felt_text two (trie_hash two msb0 (one_edge true))) (prove two msb0 (opening true)) false
      true (one_edge true) (opening true) (omega arith, tt) refl
      (two_laws.from_hex-to_hex (trie_hash two msb0 (one_edge true)))
      (prove-IsWhole two_laws msb0 (opening true) (omega arith, tt) refl)
      (parse_proof-prove two_laws msb0_laws zero_text false true (one_edge true) (opening true)
        refl)

abbrev honest_sent : ContractData
honest_sent = honest_data two msb0 contract (felt_text two false) (prove two msb0 (opening true))

verify_sound_example :
    (two.from_hex (text "0x1") ≡ some true) ⊎ StateForged two msb0 contract contracts true
unfolding str_eq felt_to_bits honest_result honest_data
verify_sound_example =
    verify_sound two_laws msb0_laws contract contracts true zero_address false false true honest
      honest_sent (prove two msb0 (opening true)) [] zero_key (record { value = text "0x1" })
      (opening true) (opening (contract_state two msb0 contract)) (omega arith, tt)
      (omega arith, tt) refl refl refl refl
      (prove-IsWhole two_laws msb0 (opening true) (omega arith, tt) refl)
      (prove-IsWhole two_laws msb0 (opening (contract_state two msb0 contract)) (omega arith, tt)
        refl)
      honest_accepted

abbrev one_key : StorageKey
one_key = record { value = text "0x1" }

verify-truncated_example :
    verify two msb0
      (without_nodes honest honest_sent)
      honest_root
      zero_address
      one_key
      honest_sent.root
    ≡ ok tt
unfolding str_eq honest_result
verify-truncated_example =
    verify-truncated two_laws msb0_laws honest honest_root zero_address zero_key one_key
      (record { value = text "0x1" }) honest_sent true honest_accepted refl refl

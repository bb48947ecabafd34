-- ===== src/Tests/Panics.antt =====
-- src/proof.rs on the proof of an honest node, and on results that make it panic.
use beerus.Prelude.{◌≡◌, ◌↔◌, refl, ap, none, some, [], reverse, arith, false, true, panic, str_eq}
use beerus.Gen.Types.{ContractData, GetProofResult}
use beerus.Proof.{parse_proof}
use beerus.Proof.OffKey.{tower, parse_proof-off_key}
use beerus.Proof.Steps.{felt_text}
use beerus.Proof.Panics.{verify-panic_iff}
use beerus.Proof.Verify.{verify}
use beerus.Tests.Bits.{msb0, msb0_laws}
use beerus.Tests.Field.{two, two_laws}
use beerus.Tests.Proofs.{zero_text, honest_root, zero_address, zero_key}

abbrev no_proofs_data : ContractData
no_proofs_data = record {
  class_hash = felt_text two true;
  contract_state_hash_version = felt_text two false;
  nonce = felt_text two false;
  root = felt_text two true;
  storage_proofs = some [];
}

abbrev no_proofs : GetProofResult
no_proofs = record {
  class_commitment = none;
  contract_data = some no_proofs_data;
  contract_proof = [];
  state_commitment = none;
}

verify-panic_iff_example :
    (verify two msb0 no_proofs honest_root zero_address zero_key (felt_text two true) ≡ panic) ↔ (
      (data_sent : ContractData) × (no_proofs.contract_data ≡ some data_sent)
      × (data_sent.storage_proofs ≡ some []))
verify-panic_iff_example =
    verify-panic_iff two msb0 no_proofs honest_root zero_address zero_key (felt_text two true)
      (λ data_sent first more e e'.
        let same : no_proofs_data ≡ data_sent = cc in
        let sent = ap (λ (d : ContractData). d.storage_proofs) same in absurd (cc))
      (omega arith)

parse_proof-off_key_example :
    parse_proof two msb0 zero_text (felt_text two true) (reverse (tower two true 252)) ≡ panic
unfolding str_eq
parse_proof-off_key_example =
    parse_proof-off_key two_laws msb0_laws zero_text (felt_text two true) 252 false true refl refl
      (omega arith)

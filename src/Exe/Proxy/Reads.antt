-- ===== src/Exe/Proxy/Reads.antt =====
-- src/exe/mod.rs: which storage values reach the virtual machine.
use beerus.Prelude.{
  ◌≡◌, refl, ap, sym, [], ◌∷◌, if◌then◌else◌, Bool-cases, Str, text, str_eq, str_eq→≡, Outcome, ok,
  Error, map_err, map_err-inv, ◌⊎◌, inl, inr,
}
use beerus.Prelude.Effects.{Io, then_do-inv, ok-pair}
use beerus.Gen.Felt.{Felt}
use beerus.Gen.Keys.{StorageKey, try_storage_key}
use beerus.Gen.Types.{Address, GetProofResult}
use beerus.Gen.Client.{Serde, Request, Response}
use beerus.Gen.Blocking.Chain.{get_proof, get_storage_at}
use beerus.Util.{StarkCrypto, BitView}
use beerus.Proof.Verify.{verify}
use beerus.Proof.Accepted.{Accepted, verify_iff}
use beerus.Exe.Map.{StateError, Texts, VmFelt, felt_to_vm}
use beerus.Exe.Proxy.{
  StateProxy, Vm, from_client, address_of, block_of, not_verified, with_proof, proxy_get_storage_at,
}

module _ {V K W F : Type 0} (serde : Serde V) (post : Str → Request V → Io W (Response V))
    (crypto : StarkCrypto F) (bits : BitView) (texts : Texts) (vm_felt : VmFelt F)
    (vm : Vm K F) where
  -- How a value was read: the text that the node sent, and, unless it is the zero, its proof.
  pub record Read (proxy : StateProxy) (contract_address storage_key value : F) (w w' : W)
      : Type 0 where
    pub address : Address
    pub key : StorageKey
    pub sent : Felt
    pub after_value : W
    pub value_sent :
        get_storage_at serde post proxy.url address key (block_of proxy) w ≡ (ok sent, after_value)
    pub converted : value ≡ felt_to_vm vm_felt sent
    pub zero_or_proved :
        (sent.value ≡ text "0x0")
        ⊎ ((proof : GetProofResult) × Accepted crypto bits proof proxy.state.root address key sent)

  abbrev refused : Error → StateError F
  refused = not_verified serde post crypto bits texts vm_felt vm

  with_proof-inv :
      (proxy : StateProxy) (address : Address) (key : StorageKey) (sent : Felt) (w w' : W)
      {value : F}
      → with_proof serde post crypto bits texts vm_felt vm proxy address key sent w ≡ (ok value, w')
      → (proof : GetProofResult) × Accepted crypto bits proof proxy.state.root address key sent
        × (value ≡ felt_to_vm vm_felt sent)
  unfolding with_proof from_client
  with_proof-inv proxy address key sent w w' h =
      let proofs = get_proof serde post proxy.url (block_of proxy) address (key ∷ []) w in
      let (proof, _, h₁) = then_do-inv (from_client {F = F} texts proofs.0, proofs.1) _ h in
      let checked = verify crypto bits proof proxy.state.root address key sent in
      let (u, e, h₂) = then_do-inv (map_err refused checked, proofs.1) _ h₁ in
      let accepted : checked ≡ ok u =
        map_err-inv refused checked (ap (λ (o : Outcome (StateError F) (Unit {0}) × W). o.0) e) in
      (
        proof,
        (verify_iff crypto bits proof proxy.state.root address key sent).0 accepted,
        sym (ok-pair h₂).0,
      )

  -- What is done with the text that the node sent.
  read_of_text :
      (proxy : StateProxy) (address : Address) (key : StorageKey) (sent : Felt) (w w' : W)
      {value : F}
      → (if str_eq sent.value (text "0x0")
            then (λ (w₁ : W). (ok (felt_to_vm vm_felt sent), w₁))
            else with_proof serde post crypto bits texts vm_felt vm proxy address key sent)
          w
        ≡ (ok value, w')
      → (value ≡ felt_to_vm vm_felt sent)
        × ((sent.value ≡ text "0x0")
            ⊎ ((proof : GetProofResult) × Accepted crypto bits proof proxy.state.root address key
                  sent))
  read_of_text proxy address key sent w w' h = elim (Bool-cases (str_eq sent.value (text "0x0"))) [
    | inl zero ↦ (sym (ok-pair (rw zero at h)).0, inl (str_eq→≡ sent.value (text "0x0") zero))
    | inr other ↦
        let (proof, accepted, v) = with_proof-inv proxy address key sent w w' (rw other at h) in
        (v, inr (proof, accepted))
  ]

  -- A storage value reaches the virtual machine only as the node sent it, and with an accepted proof
  -- against the trusted root, unless its text is the zero `0x0`.
  pub proxy_get_storage_at-Read :
      (proxy : StateProxy) (contract_address storage_key : F) (w w' : W) {value : F}
      → proxy_get_storage_at serde post crypto bits texts vm_felt vm proxy contract_address
          storage_key w
        ≡ (ok value, w')
      → Read proxy contract_address storage_key value w w'
  unfolding proxy_get_storage_at from_client
  proxy_get_storage_at-Read proxy contract_address storage_key w w' {value} h =
      let (address, _, h₁) = then_do-inv (address_of texts vm_felt contract_address, w) _ h in
      let (key, _, h₂) =
        then_do-inv (from_client {F = F} texts (try_storage_key (vm.key_text storage_key)), w) _
          h₁ in
      let asked = get_storage_at serde post proxy.url address key (block_of proxy) w in
      let (sent, e, h₃) = then_do-inv (from_client {F = F} texts asked.0, asked.1) _ h₂ in
      let got : asked.0 ≡ ok sent =
        map_err-inv _ asked.0 (ap (λ (o : Outcome (StateError F) Felt × W). o.0) e) in
      let (v, how) = read_of_text proxy address key sent asked.1 w' h₃ in
      record {
        address = address;
        key = key;
        sent = sent;
        after_value = asked.1;
        value_sent = ap (λ (o : Outcome Error Felt). (o, asked.1)) got;
        converted = v;
        zero_or_proved = how;
      }

  -- The zero is taken from the node without a proof: whatever else the node would send, and whatever
  -- the trie of the trusted root holds there.
  pub proxy_get_storage_at_zero :
      (proxy : StateProxy) (contract_address storage_key : F) (address : Address) (key : StorageKey)
      (sent : Felt) (w w' : W)
      → address_of texts vm_felt contract_address ≡ ok address
      → try_storage_key (vm.key_text storage_key) ≡ ok key
      → get_storage_at serde post proxy.url address key (block_of proxy) w ≡ (ok sent, w')
      → sent.value ≡ text "0x0"
      → proxy_get_storage_at serde post crypto bits texts vm_felt vm proxy contract_address
          storage_key w
        ≡ (ok (felt_to_vm vm_felt sent), w')
  unfolding proxy_get_storage_at from_client
  proxy_get_storage_at_zero proxy contract_address storage_key address key sent w w' e₁ e₂ e₃ e₄ =
      rw (e₁, e₂, e₃, e₄) (unfold str_eq in refl)

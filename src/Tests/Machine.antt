-- ===== src/Tests/Machine.antt =====
-- Reads of src/exe/mod.rs and src/exe/cache.rs against the small node.
use beerus.Prelude.{
  ℕ, ◌≡◌, inl, inr, refl, sym, Bool, true, false, ◌&&◌, Option, none, some, List, [], ◌∷◌, ◌==◌,
  text, str_eq, ok, panic, arith, if◌then◌else◌, Bool-cases,
}
use beerus.Prelude.Effects.{Run}
use beerus.Gen.Keys.{try_storage_key}
use beerus.Gen.Blocking.Bodies.{blocking_call}
use beerus.Gen.Blocking.Chain.{get_storage_at, get_proof}
use beerus.Exe.Map.{Texts, VmFelt, felt_to_vm, felt_from_vm, StateError}
use beerus.Exe.Proxy.{
  StateProxy, Vm, block_of, from_client, address_of, with_proof, proxy_get_storage_at,
}
use beerus.Exe.Cache.{
  Lru, Words, StateReader, Caches, storage_key, block_word, cached_get_storage_at, cached, answer,
  remember, cache_get, cache_set, below,
}
use beerus.Exe.Cache.Coherent.{LruLaws, Coherent, Answered, Answer, cached_get_storage_at-Answered}
use beerus.Tests.Bits.{msb0}
use beerus.Tests.Field.{two, two_bytes}
use beerus.Tests.Proofs.{zero_address, zero_key, honest_accepted}
use beerus.Tests.Node.{json, node, one_felt, zero_felt, trusted_state}

abbrev pub texts : Texts
texts = record { debug = λ e. []; display = λ e. []; debug_rpc = λ e. [] }

abbrev pub vm_felt : VmFelt Bool
unfolding str_eq
vm_felt = record {
  hex_encode = λ bs. if str_eq bs (two_bytes true) then text "01" else text "00";
  vm_bytes_be = two_bytes;
  from_hex_unchecked = λ s. str_eq s (text "0x1");
}

abbrev pub vm : Vm (Unit {0}) Bool
vm = record { key_text = λ b. if b then text "0x1" else text "0x0"; compile = λ c. ok tt }

abbrev pub proxy : StateProxy
proxy = record { url = []; state = trusted_state }

pub key_found : try_storage_key (vm.key_text false) ≡ ok zero_key
unfolding try_storage_key
key_found = refl

pub address_found : address_of texts vm_felt false ≡ ok zero_address
unfolding address_of felt_from_vm
address_found = refl

one_sent :
    get_storage_at json (node one_felt) [] zero_address zero_key (block_of proxy) 0
    ≡ (ok one_felt, 1)
unfolding get_storage_at blocking_call node str_eq
one_sent = refl

zero_sent :
    get_storage_at json (node zero_felt) [] zero_address zero_key (block_of proxy) 0
    ≡ (ok zero_felt, 1)
unfolding get_storage_at blocking_call node str_eq
zero_sent = refl

pub one_read :
    proxy_get_storage_at json (node one_felt) two msb0 texts vm_felt vm proxy false false 0
    ≡ (ok true, 2)
unfolding proxy_get_storage_at with_proof from_client get_proof blocking_call node str_eq felt_to_vm
one_read = rw (address_found, key_found, one_sent, honest_accepted)

-- A cache that keeps every entry, the last one first.
abbrev pub Entry : Type 0
Entry = ℕ × ℕ × ℕ

same : Entry → Entry → Bool
same (a, b, c) (d, e, f) = a == d && (b == e && c == f)

pub find : List (Entry × Bool) → Entry → Option Bool
find [] k = none
find ((j, v) ∷ l) k = if same j k then some v else find l k

pub find_nothing : (k : Entry) → find [] k ≡ none
unfolding find
find_nothing k = refl

abbrev pub keeping : Lru (List (Entry × Bool)) Entry Bool
keeping = record { get = λ l k. (find l k, l); put = λ l k v. (find l k, (k, v) ∷ l) }

same_refl : (k : Entry) → same k k ≡ true
unfolding same
same_refl (a, b, c) = ground arith

same→≡ : (j k : Entry) → same j k ≡ true → j ≡ k
unfolding same
same→≡ (a, b, c) (d, e, f) h = ground arith

pub keeping_laws : LruLaws keeping
unfolding find
keeping_laws = record {
  get-get = λ l j k. refl;
  get-put_self = λ l k v. rw (same_refl k);
  get-put = λ l j k u v h. elim (Bool-cases (same k j)) [
    | inl e ↦ inl (sym (same→≡ k j e), ground arith)
    | inr e ↦ inr (ground arith)
  ];
}

abbrev pub words : Words ℕ Bool
unfolding str_eq
words = record {
  parse = λ s. if str_eq s (text "0x1") then some 1 else none;
  from_felt = λ b. if b then 1 else 0;
}

abbrev unused : {A : Type 0} → Run (StateError Bool) ℕ A
unused w = (panic, w)

abbrev inner : StateReader (StateError Bool) ℕ Bool (Unit {0})
inner = record {
  get_block_hash = one_felt;
  get_storage_at = proxy_get_storage_at json (node one_felt) two msb0 texts vm_felt vm proxy;
  get_nonce_at = λ a. unused;
  get_class_hash_at = λ a. unused;
  get_compiled_contract_class = λ h. unused;
  get_compiled_class_hash = λ h. unused;
}

abbrev pub class_hashes : Lru (Unit {0}) (ℕ × ℕ) Bool
class_hashes = record { get = λ l k. (none, l); put = λ l k v. (none, l) }

abbrev pub classes : Lru (Unit {0}) (ℕ × ℕ) (Unit {0})
classes = record { get = λ l k. (none, l); put = λ l k v. (none, l) }

abbrev pub empty_caches : Caches (List (Entry × Bool)) (Unit {0}) (Unit {0}) ℕ
empty_caches = record { storage = []; class_hash = tt; contract_class = tt; world = 0 }

entry_found :
    storage_key {E = StateError Bool} words inner.get_block_hash false false ≡ ok (1, 0, 0)
unfolding storage_key block_word str_eq
entry_found = refl

empty_Coherent : Coherent keeping (Answer words keeping_laws inner) []
unfolding find
empty_Coherent = λ k v h. absurd (cc)

cached_get_storage_at-Answered_example :
    Answered keeping
      (λ c. c.storage)
      (Answer words keeping_laws inner)
      (1, 0, 0)
      (cached_get_storage_at words keeping class_hashes classes inner false false empty_caches)
cached_get_storage_at-Answered_example =
    cached_get_storage_at-Answered words keeping_laws inner class_hashes classes false false
      (1, 0, 0) empty_caches entry_found empty_Coherent

first_read :
    cached_get_storage_at words keeping class_hashes classes inner false false empty_caches
    ≡ (ok true, record empty_caches { storage = ((1, 0, 0), true) ∷ []; world = 2 })
unfolding cached_get_storage_at cached answer remember cache_get cache_set below find storage_key
    block_word str_eq
first_read = rw one_read

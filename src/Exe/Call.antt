-- ===== src/Exe/Call.antt =====
-- `exe::call` of src/exe/mod.rs: a call is executed over a cached state that reads from the node.
-- The virtual machine (`blockifier`) is a parameter, as a tree of what it asks the state and does with
-- the answers.
pub mod Run
pub mod Fed
pub mod Writes
use beerus.Prelude.{ℕ, Bool, true, false, Option, none, List, [], ◌∷◌, ◌^◌, ◌-◌, Outcome}
use beerus.Exe.Map.{ExeError, StateError}
use beerus.Exe.Proxy.{Write}

-- The reads of `StateReader`, and what each finds.
pub data Query (F : Type 0) : Type 0 where
  storage_at : F → F → Query F
  nonce_at : F → Query F
  class_hash_at : F → Query F
  compiled_contract_class : F → Query F
  compiled_class_hash : F → Query F

abbrev pub Found : (K : Type 0) {F : Type 0} → Query F → Type 0
Found K (compiled_contract_class h) = K
Found K {F} (storage_at a k) = F
Found K {F} (nonce_at a) = F
Found K {F} (class_hash_at a) = F
Found K {F} (compiled_class_hash h) = F

-- What a machine does with its state until it returns an `R`. A read or a write that panics unwinds
-- through the machine, so that it only continues after a result or an error.
pub data Program (F K R : Type 0) : Type 0 where
  finished : Outcome ExeError R → Program F K R
  asking : (q : Query F) → (Outcome (StateError F) (Found K q) → Program F K R) → Program F K R
  telling : Write K F → (Outcome (StateError F) (Unit {0}) → Program F K R) → Program F K R

pub record GasPrices : Type 0 where
  pub eth_l1_gas_price : ℕ
  pub strk_l1_gas_price : ℕ
  pub eth_l1_data_gas_price : ℕ
  pub strk_l1_data_gas_price : ℕ

pub record BlockInfo (F : Type 0) : Type 0 where
  pub block_number : ℕ
  pub block_timestamp : ℕ
  pub sequencer_address : F
  pub gas_prices : GasPrices
  pub use_kzg_da : Bool

-- The one chain of `starknet_api` that the program names.
pub data BlockifierChainId : Type 0 where
  mainnet : BlockifierChainId

pub record ChainInfo (F : Type 0) : Type 0 where
  pub chain_id : BlockifierChainId
  pub strk_fee_token_address : F
  pub eth_fee_token_address : F

-- A `DeprecatedTransactionInfo` with its common fields.
pub record TransactionInfo (F : Type 0) : Type 0 where
  pub transaction_hash : F
  pub version : F
  pub signature : List F
  pub nonce : F
  pub sender_address : F
  pub only_query : Bool
  pub max_fee : ℕ

-- The versioned constants and the bouncer's configuration are those of `blockifier` and left to it.
pub record TransactionContext (F : Type 0) : Type 0 where
  pub block_info : BlockInfo F
  pub chain_info : ChainInfo F
  pub tx_info : TransactionInfo F

pub data EntryPointType : Type 0 where
  external : EntryPointType

pub data CallType : Type 0 where
  call : CallType

pub record CallEntryPoint (F : Type 0) : Type 0 where
  pub class_hash : Option F
  pub code_address : Option F
  pub entry_point_type : EntryPointType
  pub entry_point_selector : F
  pub calldata : List F
  pub storage_address : F
  pub caller_address : F
  pub call_type : CallType
  pub initial_gas : ℕ

-- `blockifier` and `starknet_api`: the zero and the one, the default of an address and a hash, the
-- range of a contract address, a context without a limit of steps by resources, and the machine; a
-- `CallInfo` is an `R`, with its return data.
pub record Blockifier (F K R C : Type 0) : Type 0 where
  pub zero : F
  pub one : F
  pub default_address : F
  pub default_hash : F
  pub new_context : TransactionContext F → Outcome ExeError C
  pub contract_address : F → Outcome ExeError F
  pub execute : CallEntryPoint F → C → Program F K R
  pub retdata : R → List F

module _ {F K R C : Type 0} (blockifier : Blockifier F K R C) where
  unfoldable pub tx_context : TransactionContext F
  tx_context = record {
    block_info = record {
      block_number = 0;
      block_timestamp = 0;
      sequencer_address = blockifier.default_address;
      gas_prices = record {
        eth_l1_gas_price = 1;
        strk_l1_gas_price = 1;
        eth_l1_data_gas_price = 1;
        strk_l1_data_gas_price = 1;
      };
      use_kzg_da = false;
    };
    chain_info = record {
      chain_id = mainnet;
      strk_fee_token_address = blockifier.default_address;
      eth_fee_token_address = blockifier.default_address;
    };
    tx_info = record {
      transaction_hash = blockifier.default_hash;
      version = blockifier.one;
      signature = blockifier.zero ∷ blockifier.zero ∷ [];
      nonce = blockifier.zero;
      sender_address = blockifier.default_address;
      only_query = true;
      max_fee = 0;
    };
  }

  unfoldable pub call_entry_point : F → List F → F → CallEntryPoint F
  call_entry_point entry_point_selector calldata storage_address = record {
    class_hash = none;
    code_address = none;
    entry_point_type = external;
    entry_point_selector = entry_point_selector;
    calldata = calldata;
    storage_address = storage_address;
    caller_address = blockifier.default_address;
    call_type = CallType.call;
    initial_gas = 2 ^ 64 - 1;
  }

-- ===== src/Client.antt =====
-- src/client.rs: the state of the chain that the client trusts.
use beerus.Prelude.{ℕ, Bool, ◌&&◌, ◌==◌, str_eq}
use beerus.Gen.Felt.{Felt}

pub record State : Type 0 where
  pub block_number : ℕ
  pub block_hash : Felt
  pub root : Felt

-- `PartialEq` of states: the number, then the texts of the root and of the hash.
unfoldable pub state_eq : State → State → Bool
state_eq a b =
    a.block_number == b.block_number
    && (str_eq a.root.value b.root.value && str_eq a.block_hash.value b.block_hash.value)

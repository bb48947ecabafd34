-- ===== src/Execute.antt =====
-- `Client::execute` of src/client.rs: the result of a call, as the RPC writes field elements.
-- The execution itself and `hex::encode` are parameters.
pub mod Agree
pub mod Same
use Prim.Native.String.{String}
use beerus.Prelude.{ℕ, List, [], ◌∷◌, ◌++◌, Str, text, trim_start_matches, Outcome, ok, err, panic}
use beerus.Prelude.Effects.{Run, ◌>>=◌, lift}
use beerus.Gen.Felt.{Felt}
use beerus.Gen.Types.{FunctionCall}
use beerus.Client.{State}
use beerus.Exe.Map.{VmFelt}
use beerus.Feeder.{Report, felt_or_report}

module _ {F : Type 0} (vm : VmFelt F) where
  unfoldable pub as_felt : List ℕ → Outcome Report Felt
  unfolding felt_or_report trim_start_matches
  as_felt bytes = felt_or_report (text "0x" ++ trim_start_matches b'0' (vm.hex_encode bytes))

  -- `map` and `collect`: the first error ends it.
  unfoldable pub felts_of : List F → Outcome Report (List Felt)
  unfolding as_felt
  felts_of [] = ok []
  felts_of (felt ∷ felts) =
      let rest = felts_of felts in
      elim (as_felt (vm.vm_bytes_be felt)) [
        | err e ↦ err e
        | panic ↦ panic
        | ok f ↦ elim rest [ err e ↦ err e | panic ↦ panic | ok fs ↦ ok (f ∷ fs) ]
      ]

  -- `call` is `exe::call` on the client's node: the data that the call returns.
  unfoldable pub execute :
      {W : Type 0}
      → (FunctionCall → State → Run Report W (List F))
      → FunctionCall
      → State
      → Run Report W (List Felt)
  unfolding felts_of
  execute call request state = do retdata ← call request state; lift (felts_of retdata)

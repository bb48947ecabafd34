-- ===== src/Gen/Server/Keeps.antt =====
-- `gen::handle` of src/gen.rs touches the world by the methods alone.
use beerus.Prelude.{Option, none, some, Outcome-cases, inl, inr}
use beerus.Prelude.Keeps.{Keeps}
use beerus.Gen.Api.{Method, Args, Rpc}
use beerus.Gen.Api.Names.{plain_args}
use beerus.Gen.Client.{Serde, Request}
use beerus.Gen.Server.{read_args, handle_method, handle_plain}
use beerus.Gen.Server.Dispatch.{handle}
use beerus.Gen.Server.Reach.{handler_for, handle-reaches}

module _ {V W : Type 0} (serde : Serde V) (rpc : Rpc W) (P : W → Type 0)
    (rpc-Keeps : (m : Method) (args : Args m) → Keeps P (rpc m args)) where
  handle_method-Keeps : (m : Method) (params : V) → Keeps P (handle_method serde rpc m params)
  unfolding handle_method
  handle_method-Keeps m params w p = elim (Outcome-cases (read_args serde rpc m params)) [
    | inl (args, e) ↦ rw (handle_method, e) (rpc-Keeps m args w p)
    | inr (inl (x, e)) ↦ rw (handle_method, e) p
    | inr (inr e) ↦ rw (handle_method, e) p
  ]

  handler-Keeps :
      (m : Method) (plain : Option (Args m)) (params : V)
      → Keeps P (handler_for serde rpc m plain params)
  unfolding handle_plain
  handler-Keeps m none params w p = handle_method-Keeps m params w p
  handler-Keeps m (some args) params w p = rpc-Keeps m args w p

  pub handle-Keeps : (req : Request V) → Keeps P (handle serde rpc req)
  handle-Keeps req w p = elim (handle-reaches serde rpc req w) [
    | inl (m, named, f) ↦ rw f (handler-Keeps m (plain_args m) req.params w p)
    | inr (other, f) ↦ rw f p
  ]

-- ===== src/Tests/Executor.antt =====
-- A machine that reads, writes and reads again, over the small node.
use beerus.Prelude.{◌≡◌, ◌↔◌, [], ◌∷◌, Bool, true, false, ok, err, panic}
use beerus.Gen.Types.{FunctionCall}
use beerus.Client.{State}
use beerus.Feeder.{said}
use beerus.Execute.{execute}
use beerus.Execute.Same.{reported, execute_iff}
use beerus.Exe.Proxy.{Write}
use beerus.Exe.Cache.Coherent.{Coherent}
use beerus.Exe.Call.{Query, Program, finished, asking, telling, Blockifier}
use beerus.Exe.Call.Run.{run_over}
use beerus.Exe.Call.Fed.{Fed}
use beerus.Exe.Call.Writes.{without_writes, run_over-without_writes}
use beerus.Rpc.Context.{context_call}
use beerus.Tests.Bits.{msb0}
use beerus.Tests.Field.{two}
use beerus.Tests.Machine.{
  texts, vm_felt, vm, proxy, keeping, words, class_hashes, classes, empty_caches,
}
use beerus.Tests.Node.{json, node, one_felt, zero_felt, trusted_state}
use beerus.Tests.Reads.{number_three, executor}

abbrev reading_twice : Bool → Program Bool (Unit {0}) Bool
reading_twice address = asking (Query.storage_at address false) (λ found.
    telling (Write.set_storage_at address false false) (λ done.
      asking (Query.storage_at address false)
        (λ again. finished (elim again [ ok v ↦ ok v | err e ↦ ok false | panic ↦ panic ]))))

abbrev pub small_machine : Blockifier Bool (Unit {0}) Bool (Unit {0})
small_machine = record {
  zero = false;
  one = true;
  default_address = false;
  default_hash = false;
  new_context = λ context. ok tt;
  contract_address = λ address. ok address;
  execute = λ entry context. reading_twice entry.storage_address;
  retdata = λ value. value ∷ [];
}

abbrev Told : State → Type 0
Told state = state ≡ trusted_state

run_over-without_writes_example :
    run_over json
      (node one_felt)
      two
      msb0
      texts
      vm_felt
      vm
      words
      keeping
      class_hashes
      classes
      proxy
      (reading_twice false)
      empty_caches
    ≡ run_over json
        (node one_felt)
        two
        msb0
        texts
        vm_felt
        vm
        words
        keeping
        class_hashes
        classes
        proxy
        (without_writes (reading_twice false))
        empty_caches
run_over-without_writes_example =
    run_over-without_writes words keeping class_hashes classes json (node one_felt) two msb0 texts
      vm_felt vm proxy (reading_twice false) empty_caches

abbrev pub small_call : FunctionCall
small_call = record {
  calldata = [];
  contract_address = record { felt = zero_felt };
  entry_point_selector = one_felt;
}

execute_iff_example :
    (execute vm_felt (reported texts vm_felt (λ e. said []) executor) small_call trusted_state 0
      ≡ (ok [], 0))
    ↔ (context_call texts vm_felt executor trusted_state small_call number_three 0 ≡ (ok [], 0))
execute_iff_example =
    execute_iff texts vm_felt (λ e. said []) executor small_call trusted_state number_three 0 0 []

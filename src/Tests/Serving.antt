-- ===== src/Tests/Serving.antt =====
-- A server that starts on the block of a small gateway, answers a request and is told the block again.
use beerus.Prelude.{ℕ, Bool, List, []}
use beerus.Exe.Cache.{Caches}
use beerus.Feeder.{read_state}
use beerus.Gen.Felt
use beerus.Gen.Server.Dispatch.{handle}
use beerus.Poll.{Polling, poll_start, poll_step}
use beerus.Rpc.Local.{local_server}
use beerus.Rpc.Serving.{Serving}
use beerus.Tests.Bits.{msb0}
use beerus.Tests.Field.{two}
use beerus.Tests.Machine.{
  texts, vm_felt, vm, Entry, keeping, words, class_hashes, classes, empty_caches,
}
use beerus.Tests.Executor.{small_machine}
use beerus.Tests.Node.{json, node, one_felt}
use beerus.Tests.Reads.{storage_request}
use beerus.Tests.Start.{value_view, latest, latest_state}

abbrev polled_once : Polling
polled_once = poll_step (read_state value_view latest) (poll_start latest_state)

abbrev after_request : Caches (List (Entry × Bool)) (Unit {0}) (Unit {0}) ℕ
after_request =
    (handle json
      (local_server words keeping class_hashes classes json (node one_felt) [] two msb0 texts
        vm_felt vm small_machine [] latest_state)
      storage_request empty_caches).1

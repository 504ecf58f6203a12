-- ===== src/Tests/Rescan.antt =====
-- Two passes of the dispatcher over the same records.
use mrmfactorytest.Prelude.{[], ◌∷◌, lookup, insert, length, ◌<◌, ◌≡◌, refl, arith}
use mrmfactorytest.Errors.{ok}
use mrmfactorytest.Etcd.Memory.{memory, read, write}
use mrmfactorytest.Store.Decimal.{pos, show, atoi, increment}
use mrmfactorytest.Store.Models.{as_string}
use mrmfactorytest.Store.Keys.{batch_counter_key}
use mrmfactorytest.Store.Operations.{increment_batch_counter}
use mrmfactorytest.Runner.Cycle.{index_tasks}
use mrmfactorytest.Runner.Scan.{
  status_map, finished_count, decide, check_deps, scan_tasks, dispatch_pass,
}
use mrmfactorytest.Runner.Scan.Dispatch.{tagged, ready_tasks_of, dispatch_pass-twice}
use mrmfactorytest.Tests.Data.{job, action, stop_app, half_done}
use mrmfactorytest.Tests.Engine.{dispatcher}

half_done-unfinished : finished_count half_done < length action
unfolding finished_count
half_done-unfinished = omega arith

stop_app-ready : ready_tasks_of memory job action half_done ≡ stop_app ∷ []
unfolding scan_tasks index_tasks status_map decide check_deps lookup insert
stop_app-ready = refl

first_counted : (increment_batch_counter memory job dispatcher.server).0 ≡ ok (pos 42)
unfolding increment_batch_counter batch_counter_key read write lookup insert as_string show atoi
    increment
first_counted = refl

second_counted :
    (increment_batch_counter memory job
      (dispatch_pass memory job action half_done dispatcher).1.server).0
    ≡ ok (pos 43)
unfolding dispatch_pass increment_batch_counter batch_counter_key read write lookup insert as_string
    show atoi increment scan_tasks index_tasks status_map decide check_deps finished_count
second_counted = refl

dispatch_pass-twice_example :
    (dispatch_pass memory job action half_done
      (dispatch_pass memory job action half_done dispatcher).1).1.queue
    ≡ tagged (pos 42) stop_app ∷ tagged (pos 43) stop_app ∷ []
dispatch_pass-twice_example =
    dispatch_pass-twice memory job action half_done dispatcher stop_app [] (pos 42) (pos 43)
      half_done-unfinished stop_app-ready first_counted second_counted (omega arith)

-- ===== src/Tests/Store.antt =====
-- The store's operations over a cluster in memory.
use mrmfactorytest.Prelude.{some, [], lookup, insert, true, false, ◌≡◌, ◌≢◌, ◌⊎◌, refl, arith}
use mrmfactorytest.Value.{unencodable}
use mrmfactorytest.Errors.{Error, ok, err}
use mrmfactorytest.Etcd.Memory.{memory, memory-IsEtcd, read, write}
use mrmfactorytest.Etcd.Laws.{OthersKept}
use mrmfactorytest.Store.Models.{
  completed, plain, TaskDetail, is_encodable, details_encodable, decode_details,
}
use mrmfactorytest.Store.Decimal.{pos, show, atoi, atoi-show}
use mrmfactorytest.Store.Keys.{execution_details_key, execution_header_key, batch_counter_key}
use mrmfactorytest.Store.Operations.{
  get_task, get_all_tasks, update_task, update_task_in_details, get_header, update_header,
  increment_batch_counter,
}
use mrmfactorytest.Store.Details.{
  Holds, Unchanged, AnswersOrFails, UpdateOutcome, or_not_found, get_task-lookup,
  update_task-insert, update_task-unencodable,
}
use mrmfactorytest.Store.Records.{Keyed}
use mrmfactorytest.Store.Execution.{get_header-update_header, increment_batch_counter-next}
use mrmfactorytest.Tests.Data.{job, half_done_map, detail, started_header, up, flaky}

pub up-Holds : Holds memory job up half_done_map
unfolding lookup execution_details_key
up-Holds = refl

flaky-Holds : Holds memory job flaky half_done_map
unfolding lookup execution_details_key
flaky-Holds = refl

pub half_done_map-Keyed : Keyed half_done_map
half_done_map-Keyed = (refl, (refl, (refl, tt)))

get_task-lookup_example :
    AnswersOrFails
      (or_not_found "stop_app" (lookup "stop_app" half_done_map))
      (get_task memory job "stop_app" up).0
      (memory.get (execution_details_key job) up).0
    × Unchanged memory up (get_task memory job "stop_app" up).1
get_task-lookup_example =
    get_task-lookup memory memory-IsEtcd job up half_done_map up-Holds "stop_app"
      half_done_map-Keyed

abbrev finished_stop : TaskDetail
finished_stop = detail "stop_app" completed

finished_stop-fits : details_encodable (insert "stop_app" finished_stop half_done_map) ≡ true
unfolding insert details_encodable is_encodable
finished_stop-fits = refl

-- The read succeeds and the write fails.
update_task-insert_example :
    UpdateOutcome memory job half_done_map
      (insert "stop_app" finished_stop half_done_map)
      (update_task memory job finished_stop flaky)
    × OthersKept memory
        (execution_details_key job)
        flaky
        (update_task memory job finished_stop flaky).1
update_task-insert_example =
    update_task-insert memory memory-IsEtcd job flaky half_done_map flaky-Holds finished_stop
      finished_stop-fits

abbrev bad_output : TaskDetail
bad_output = record (detail "stop_app" completed) { result = unencodable 1 }

bad_output-refused : is_encodable bad_output.result ≡ false
unfolding is_encodable
bad_output-refused = refl

bad_output-written : (update_task memory job bad_output up).0 ≡ ok tt
unfolding update_task update_task_in_details lookup execution_details_key read write decode_details
bad_output-written = refl

update_task-unencodable_example :
    (get_all_tasks memory job (update_task memory job bad_output up).1).0 ≢ ok []
update_task-unencodable_example =
    update_task-unencodable memory memory-IsEtcd job up half_done_map up-Holds bad_output []
      bad_output-refused bad_output-written

header_written : (update_header memory job started_header up).0 ≡ ok tt
unfolding update_header write
header_written = refl

header_read_back :
    AnswersOrFails
      (ok started_header)
      (get_header memory job (update_header memory job started_header up).1).0
      (memory.get (execution_header_key job) (update_header memory job started_header up).1).0
header_read_back =
    get_header-update_header memory memory-IsEtcd job up started_header header_written

counter_held : memory.content flaky (batch_counter_key job) ≡ some (plain (show (pos 41)))
unfolding lookup batch_counter_key show
counter_held = refl

counter_incremented :
    let r = increment_batch_counter memory job flaky in
    ((r.0 ≡ ok (pos 42))
      × (memory.content r.1 (batch_counter_key job) ≡ some (plain (show (pos 42)))))
    ⊎ ((e : Error) × (r.0 ≡ err e)
        × ((memory.content r.1 (batch_counter_key job) ≡ some (plain (show (pos 41))))
            ⊎ (memory.content r.1 (batch_counter_key job) ≡ some (plain (show (pos 42))))))
counter_incremented =
    increment_batch_counter-next memory memory-IsEtcd job flaky 41 (omega arith) counter_held

counter_read_back : atoi (show (pos 907)) ≡ pos 907
counter_read_back = atoi-show 907 (omega arith)

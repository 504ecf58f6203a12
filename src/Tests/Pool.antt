-- ===== src/Tests/Pool.antt =====
-- Runs of the pool on the small action.
use mrmfactorytest.Prelude.{
  keys, none, some, true, false, List, [], ◌∷◌, ◌++◌, lookup, insert, values, length, leb, ◌≤◌, ◌≡◌,
  ◌≢◌, refl,
}
use mrmfactorytest.Value.{null}
use mrmfactorytest.Errors.{ok}
use mrmfactorytest.Etcd.Memory.{memory, memory-IsEtcd, read, write}
use mrmfactorytest.Store.Decimal.{pos, show, atoi, increment}
use mrmfactorytest.Store.Models.{as_string, decode_details, is_encodable, details_encodable}
use mrmfactorytest.Store.Keys.{batch_counter_key, execution_details_key}
use mrmfactorytest.Store.Operations.{increment_batch_counter, get_all_tasks}
use mrmfactorytest.Runner.Cycle.{index_tasks}
use mrmfactorytest.Runner.Scan.{status_map, finished_count, decide, check_deps, scan_tasks}
use mrmfactorytest.Runner.Worker.{PluginResult}
use mrmfactorytest.Runner.Moves.{
  waiting, stopped, WorkerPhase, gone, signalling, idle, Pool, initial_pool, begin_pass,
}
use mrmfactorytest.Runner.Pool.{
  Reaches, here, later, first_pass, gives_up, on_signal, on_tick, decides, sends, batch_ends,
  dispatcher_stops, cancel, close, begins, ends, signals, leaves, update,
}
use mrmfactorytest.Runner.Pool.Bounds.{InBounds, pool-InBounds}
use mrmfactorytest.Runner.Pool.Panic.{initial_pool-Panics}
use mrmfactorytest.Runner.Pool.Draining.{steps, steps-steps_left}
use mrmfactorytest.Runner.Pool.Records.{Recorded, Apart}
use mrmfactorytest.Runner.Pool.Records.Runs.{pool-Recorded}
use mrmfactorytest.Runner.Pool.Ending.{gone_workers, IsStuck, stuck-Drained}
use mrmfactorytest.Tests.Store.{up-Holds, half_done_map-Keyed}
use mrmfactorytest.Tests.Data.{half_done_map, job, action, stop_app, half_done, up}

abbrev succeeding : PluginResult
succeeding = record { output = null; error = none }

abbrev Run : Pool memory → Pool memory → Type 0
Run = Reaches (λ s. some s) (λ e. "failed") (λ t entries. succeeding) memory job action

abbrev started : Pool memory
started = initial_pool memory 2 action up

abbrev passing_run : Run started (begin_pass memory job started)
passing_run = later here refl (first_pass refl)

pool-InBounds_example : InBounds action 2 (begin_pass memory job started)
pool-InBounds_example =
    pool-InBounds (λ s. some s) (λ e. "failed") (λ t entries. succeeding) memory job 2 action up
      passing_run

abbrev selecting : Pool memory
selecting = record started { phase = waiting }

half_done_read : (get_all_tasks memory job up).0 ≡ ok half_done
unfolding get_all_tasks execution_details_key read lookup decode_details values
half_done_read = refl

unfinished : leb (length action) (finished_count half_done) ≡ false
unfolding finished_count
unfinished = refl

stop_app-ready :
    (scan_tasks (index_tasks action []) (status_map half_done []) half_done).ready_tasks
    ≡ stop_app ∷ []
unfolding scan_tasks index_tasks status_map decide check_deps lookup insert
stop_app-ready = refl

counted : (increment_batch_counter memory job (get_all_tasks memory job up).1).0 ≡ ok (pos 42)
unfolding get_all_tasks execution_details_key increment_batch_counter batch_counter_key read write
    lookup insert as_string show atoi increment decode_details
counted = refl

initial_pool-Panics_example : (q : Pool memory) × Run started q × (q.panicked ≡ true)
initial_pool-Panics_example =
    initial_pool-Panics (λ s. some s) (λ e. "failed") (λ t entries. succeeding) memory job action 2
      up half_done (pos 42) stop_app [] half_done_read unfinished stop_app-ready counted

-- After the cancellation: a worker at its signal, one that has returned.
abbrev ending : Pool memory
ending = record started { phase = stopped; workers = signalling ∷ gone ∷ []; cancelled = true }

abbrev ending_run : Run ending (record ending { workers = idle ∷ gone ∷ [] })
ending_run = later here refl (gives_up [] (gone ∷ []) refl refl)

steps-steps_left_example : steps ending_run ≤ 3
steps-steps_left_example = steps-steps_left ending_run refl

abbrev ended : Pool memory
ended = record ending { workers = gone ∷ []; closed = true }

gone_alone :
    (front back : List WorkerPhase) (w : WorkerPhase) → w ≢ gone → gone ∷ [] ≢ front ++ w ∷ back
gone_alone [] back w differ e = let same : w ≡ gone = cc in differ same
gone_alone (x ∷ []) back w differ e = cc
gone_alone (x ∷ y ∷ front) back w differ e = cc

ended-IsStuck :
    IsStuck (λ s. some s) (λ e. "failed") (λ t entries. succeeding) memory job action ended
ended-IsStuck q (first_pass e) = cc
ended-IsStuck q (on_signal k e f) = cc
ended-IsStuck q (on_tick e) = cc
ended-IsStuck q (decides details e) = cc
ended-IsStuck q (sends k t ts e) = cc
ended-IsStuck q (batch_ends k e) = cc
ended-IsStuck q (dispatcher_stops e f) = cc
ended-IsStuck q (cancel e) = cc
ended-IsStuck q (close e f) = cc
ended-IsStuck q (begins now d rest front back e f) = gone_alone front back idle (λ x. cc) e
ended-IsStuck q (ends at t d front back e) = gone_alone front back _ (λ x. cc) e
ended-IsStuck q (signals front back e f) = gone_alone front back signalling (λ x. cc) e
ended-IsStuck q (gives_up front back e f) = gone_alone front back signalling (λ x. cc) e
ended-IsStuck q (leaves front back e f) = gone_alone front back idle (λ x. cc) e
ended-IsStuck q (update d [] back e) = cc
ended-IsStuck q (update d (x ∷ front) back e) = cc

stuck-Drained_example :
    (stopped ≡ stopped)
    × (true ≡ true)
    × (gone ∷ [] ≡ gone_workers 1)
    × (ended.dispatcher.spawned ≡ [])
stuck-Drained_example =
    stuck-Drained (λ s. some s) (λ e. "failed") (λ t entries. succeeding) memory job action ended
      ended-IsStuck refl

pool-Recorded_example :
    Recorded memory job (keys half_done_map) (begin_pass memory job started).dispatcher.server
    × Apart memory job up (begin_pass memory job started).dispatcher.server
unfolding is_encodable details_encodable
pool-Recorded_example =
    pool-Recorded (λ s. some s) (λ e. "failed") (λ t entries. succeeding) memory memory-IsEtcd job
      action (λ t entries. refl) 2 up half_done_map up-Holds half_done_map-Keyed refl passing_run

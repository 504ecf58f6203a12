-- ===== src/Runner/Scan/Dispatch.antt =====
-- What one pass of the dispatcher puts on the channel, and what a second one does.
use mrmfactorytest.Prelude.{
  ℕ, ◌+◌, ◌≤◌, ◌<◌, List, [], ◌∷◌, ◌++◌, append_assoc, append-nil, map, length, length-append,
  length-map, true, false, ltb, leb, ◌≡◌, refl, sym, ap, ◌∙◌, arith,
}
use mrmfactorytest.Config.{Task}
use mrmfactorytest.Errors.{ok}
use mrmfactorytest.Etcd.{Client}
use mrmfactorytest.Store.Decimal.{ℤ}
use mrmfactorytest.Store.Models.{TaskDetail}
use mrmfactorytest.Store.Keys.{ExecutionStore}
use mrmfactorytest.Store.Operations.{increment_batch_counter}
use mrmfactorytest.Runner.Cycle.{index_tasks}
use mrmfactorytest.Runner.Scan.{
  DispatchableTask, Dispatcher, send_all, status_map, finished_count, scan_tasks, dispatch_batch,
  dispatch_pass,
}

abbrev pub tagged : ℤ → Task → DispatchableTask
tagged n t = record { config = t; iteration = n }

-- Where the channel has room, every task is sent, in order, with the number of the batch.
pub send_all-append :
    (capacity : ℕ) (n : ℤ) (ts : List Task) (queue : List DispatchableTask)
    → length queue + length ts ≤ capacity
    → send_all capacity n ts queue ≡ queue ++ map (tagged n) ts
unfolding send_all
send_all-append capacity n [] queue room = sym (append-nil queue)
send_all-append capacity n (t ∷ ts) queue room =
    let free : ltb (length queue) capacity ≡ true = ground arith in
    rw free (
      send_all-append capacity n ts (queue ++ tagged n t ∷ [])
        (omega (arith, length-append queue (tagged n t ∷ [])))
      ∙ append_assoc queue (tagged n t ∷ []) (map (tagged n) ts))

-- The channel never holds more than its capacity.
pub send_all-bounded :
    (capacity : ℕ) (n : ℤ) (ts : List Task) (queue : List DispatchableTask)
    → length queue ≤ capacity
    → length (send_all capacity n ts queue) ≤ capacity
unfolding send_all
send_all-bounded capacity n [] queue h = h
send_all-bounded capacity n (t ∷ ts) queue h =
    send_all-bounded capacity n ts _ (ground (arith, length-append queue (tagged n t ∷ [])))

module _ (c : Client) (st : ExecutionStore) (all_tasks : List Task)
    (details : List TaskDetail) where
  abbrev pub ready_tasks_of : List Task
  ready_tasks_of =
      (scan_tasks (index_tasks all_tasks []) (status_map details []) details).ready_tasks

  sent :
      (w : Dispatcher c) (t : Task) (ts : List Task) (n : ℤ)
      → finished_count details < length all_tasks
      → ready_tasks_of ≡ t ∷ ts
      → (increment_batch_counter c st w.server).0 ≡ ok n
      → length w.queue + length (t ∷ ts) ≤ w.capacity
      → ((dispatch_pass c st all_tasks details w).1.queue ≡ w.queue ++ map (tagged n) (t ∷ ts))
        × ((dispatch_pass c st all_tasks details w).1.capacity ≡ w.capacity)
  unfolding dispatch_pass
  sent w t ts n unfinished found counted room =
      let open_ : leb (length all_tasks) (finished_count details) ≡ false = ground arith in
      rw (open_, found, counted, dispatch_pass, dispatch_batch)
        (send_all-append w.capacity n (t ∷ ts) w.queue room, refl)

  -- A second pass that sees the records of the first one, in which a task that waits on the channel
  -- is still pending, sends every ready task once more, where the channel has room and the counter
  -- can be incremented.
  pub dispatch_pass-twice :
      (w : Dispatcher c) (t : Task) (ts : List Task) (n n' : ℤ)
      → finished_count details < length all_tasks
      → ready_tasks_of ≡ t ∷ ts
      → (increment_batch_counter c st w.server).0 ≡ ok n
      → (increment_batch_counter c st (dispatch_pass c st all_tasks details w).1.server).0 ≡ ok n'
      → length w.queue + length (t ∷ ts) + length (t ∷ ts) ≤ w.capacity
      → (dispatch_pass c st all_tasks details (dispatch_pass c st all_tasks details w).1).1.queue
        ≡ (w.queue ++ map (tagged n) (t ∷ ts)) ++ map (tagged n') (t ∷ ts)
  dispatch_pass-twice w t ts n n' unfinished found counted counted' room =
      let first = sent w t ts n unfinished found counted (omega (arith, room)) in
      let room' : length (dispatch_pass c st all_tasks details w).1.queue + length (t ∷ ts)
          ≤ (dispatch_pass c st all_tasks details w).1.capacity =
        rw (first.0, first.1)
          (omega (
            arith,
            room,
            length-append w.queue (map (tagged n) (t ∷ ts)),
            length-map (tagged n) (t ∷ ts),
          )) in
      (sent (dispatch_pass c st all_tasks details w).1 t ts n' unfinished found counted' room').0
      ∙ ap (λ (q : List DispatchableTask). q ++ map (tagged n') (t ∷ ts)) first.0

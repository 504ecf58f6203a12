-- ===== src/Runner/Pool/Bounds.antt =====
-- _archive/taskrunner/runner.go: what holds in every state of a run, whatever the order of its steps.
use mrmfactorytest.Prelude.{
  ℕ, zero, suc, ◌≤◌, ◌<◌, String, Option, List, [], ◌∷◌, ◌++◌, length, length-append, Bool, true,
  false, leb, ltb, ◌≡◌, ◌⊎◌, ◌≢◌, inl, inr, refl, sym, ap, ◌∙◌, arith, Bool-cases, subst,
}
use mrmfactorytest.Value.{Entries}
use mrmfactorytest.Config.{Task}
use mrmfactorytest.Errors.{Error}
use mrmfactorytest.Etcd.{Client}
use mrmfactorytest.Store.Decimal.{ℤ}
use mrmfactorytest.Store.Models.{TaskDetail}
use mrmfactorytest.Store.Keys.{ExecutionStore}
use mrmfactorytest.Runner.Scan.{DispatchableTask, finished_count}
use mrmfactorytest.Runner.Worker.{PluginResult}
use mrmfactorytest.Runner.Moves.{
  Phase, stopped, passing, sending, WorkerPhase, idle, signalling, busy, gone, Pool, initial_pool,
  idle_workers, begin_pass, begin_batch, decide_pass, offer, send_next, worker_begins, worker_ends,
  update_runs,
}
use mrmfactorytest.Runner.Pool.{
  Step, Reaches, here, later, first_pass, on_signal, on_tick, decides, sends, batch_ends,
  dispatcher_stops, cancel, close, begins, ends, signals, gives_up, leaves, update,
}

length-offer :
    (capacity : ℕ) (d : DispatchableTask) (queue : List DispatchableTask)
    → length queue ≤ capacity
    → length (offer capacity d queue) ≤ capacity
length-offer capacity d queue h = elim (Bool-cases (ltb (length queue) capacity)) [
  | inl room ↦
      let below : length queue < capacity = ground arith in
      rw room (omega (arith, length-append queue (d ∷ []), below))
  | inr full ↦ rw full h
]

abbrev Inv : {c : Client} → List Task → ℕ → Pool c → Type 0
Inv tasks n p =
    (p.dispatcher.capacity ≡ length tasks)
    × (length p.dispatcher.queue ≤ p.dispatcher.capacity)
    × (p.signals ≤ p.dispatcher.capacity)
    × (length p.workers ≡ n)
    × ((p.dispatcher.all_finished ≡ false) ⊎ (p.phase ≡ stopped))
    × ((p.closed ≡ false) ⊎ ((p.dispatcher.all_finished ≡ true) ⊎ (p.cancelled ≡ true)))
    × ((p.panicked ≡ false) ⊎ (p.cancelled ≡ true))

length-idle_workers : (n : ℕ) → length (idle_workers n) ≡ n
length-idle_workers zero = refl
length-idle_workers (suc n) = ap suc (length-idle_workers n)

-- One worker of the list in another phase.
length-moved :
    (front back : List WorkerPhase) (w w' : WorkerPhase)
    → length (front ++ w' ∷ back) ≡ length (front ++ w ∷ back)
length-moved front back w w' =
    omega (arith, length-append front (w ∷ back), length-append front (w' ∷ back))

crew :
    (n : ℕ) (front back : List WorkerPhase) (w w' : WorkerPhase) (workers : List WorkerPhase)
    → workers ≡ front ++ w ∷ back
    → length workers ≡ n
    → length (front ++ w' ∷ back) ≡ n
crew n front back w w' workers e h = length-moved front back w w' ∙ sym (ap length e) ∙ h

-- Before the dispatcher has returned, it has not signalled the end.
unfinished :
    {b : Bool} {phase x : Phase}
    → (b ≡ false) ⊎ (phase ≡ stopped)
    → phase ≡ x
    → x ≢ stopped
    → b ≡ false
unfinished (inl no_end) e differ = no_end
unfinished (inr returned) e differ = absurd (differ (sym e ∙ returned))

-- A channel that is closed without the end's signal has been closed after the cancellation.
closed-cancelled :
    {closed finished cancelled : Bool}
    → (closed ≡ false) ⊎ ((finished ≡ true) ⊎ (cancelled ≡ true))
    → finished ≡ false
    → closed ≡ true
    → cancelled ≡ true
closed-cancelled (inl open_end) f e = cc
closed-cancelled (inr (inl ended)) f e = cc
closed-cancelled (inr (inr ended_early)) f e = ended_early

-- The end's signal adds to what has closed the channel.
still_shut :
    {closed finished cancelled : Bool}
    → (closed ≡ false) ⊎ ((finished ≡ true) ⊎ (cancelled ≡ true))
    → (closed ≡ false) ⊎ ((true ≡ true) ⊎ (cancelled ≡ true))
still_shut (inl not_closed) = inl not_closed
still_shut (inr ended) = inr (inl refl)

begin_pass-Inv :
    (c : Client) (st : ExecutionStore) (tasks : List Task) (n : ℕ) (p : Pool c)
    → p.dispatcher.all_finished ≡ false
    → Inv tasks n p
    → Inv tasks n (begin_pass c st p)
unfolding begin_pass
begin_pass-Inv c st tasks n p going (fits, room, sig, cr, fin, shut, safe) =
    (fits, room, sig, cr, inl going, shut, safe)

send_next-Inv :
    {c : Client} (tasks : List Task) (workers : ℕ) (n : ℤ) (t : Task) (ts : List Task) (p : Pool c)
    → p.phase ≡ sending n (t ∷ ts)
    → Inv tasks workers p
    → Inv tasks workers (send_next n t ts p)
unfolding send_next
send_next-Inv tasks workers n t ts p e (fits, room, sig, cr, fin, shut, safe) =
    let going = unfinished fin e (λ x. cc) in
    elim (Bool-cases p.closed) [
      | inl ended ↦
          let gone_on = closed-cancelled shut going ended in
          rw ended (fits, room, sig, cr, fin, inr (inr gone_on), inr gone_on)
      | inr fine ↦ rw fine (
        fits,
        length-offer p.dispatcher.capacity _ p.dispatcher.queue room,
        sig,
        cr,
        inl going,
        inl refl,
        safe,
      )
    ]

module _ (c : Client) (st : ExecutionStore) (tasks : List Task) (n : ℕ) where
  begin_batch-Inv :
      (ready : List Task) (p : Pool c)
      → p.dispatcher.all_finished ≡ false
      → Inv tasks n p
      → Inv tasks n (begin_batch c st ready p)
  unfolding begin_batch
  begin_batch-Inv [] p going (fits, room, sig, cr, fin, shut, safe) =
      (fits, room, sig, cr, inl going, shut, safe)
  begin_batch-Inv (t ∷ ts) p going (fits, room, sig, cr, fin, shut, safe) =
      (fits, room, sig, cr, inl going, shut, safe)

  decide_pass-Inv :
      (details : List TaskDetail) (p : Pool c)
      → p.phase ≡ passing details
      → Inv tasks n p
      → Inv tasks n (decide_pass c st tasks details p)
  unfolding decide_pass
  decide_pass-Inv details p e inv =
      let (fits, room, sig, cr, fin, shut, safe) = inv in
      let going = unfinished fin e (λ x. cc) in
      elim (Bool-cases (leb (length tasks) (finished_count details))) [
        | inl finished ↦ rw finished (fits, room, sig, cr, inr refl, still_shut shut, safe)
        | inr more ↦ rw more (begin_batch-Inv _ _ going inv)
      ]

  worker_begins-Inv :
      (now : ℕ) (d : DispatchableTask) (rest : List DispatchableTask)
      (front back : List WorkerPhase) (p : Pool c)
      → p.workers ≡ front ++ idle ∷ back
      → p.dispatcher.queue ≡ d ∷ rest
      → Inv tasks n p
      → Inv tasks n (worker_begins c st now d rest front back p)
  unfolding worker_begins
  worker_begins-Inv now d rest front back p e f (fits, room, sig, cr, fin, shut, safe) =
      let longer : suc (length rest) ≤ p.dispatcher.capacity =
        subst (λ (q : List DispatchableTask). length q ≤ p.dispatcher.capacity) f room in
      (fits, omega (arith, longer), sig, crew n front back idle _ p.workers e cr, fin, shut, safe)

module _ {decrypt : String → Option String} {describe : Error → String}
    {run_plugin : Task → Entries → PluginResult} {c : Client} {st : ExecutionStore}
    {tasks : List Task} (n : ℕ) where
  Step-Inv :
      {p q : Pool c}
      → Step decrypt describe run_plugin c st tasks p q
      → Inv tasks n p
      → Inv tasks n q
  unfolding worker_ends update_runs
  Step-Inv {p} (first_pass e) inv =
      begin_pass-Inv c st tasks n p (unfinished (inv.4) e (λ x. cc)) inv
  Step-Inv {p} (on_tick e) inv = begin_pass-Inv c st tasks n p (unfinished (inv.4) e (λ x. cc)) inv
  Step-Inv {p} (on_signal k e f) (fits, room, sig, cr, fin, shut, safe) =
      let left : k ≤ p.dispatcher.capacity = omega arith in
      begin_pass-Inv c st tasks n (record p { signals = k }) (unfinished fin e (λ x. cc))
        (fits, room, left, cr, fin, shut, safe)
  Step-Inv {p} (decides details e) inv = decide_pass-Inv c st tasks n details p e inv
  Step-Inv {p} (sends k t ts e) inv = send_next-Inv tasks n k t ts p e inv
  Step-Inv {p} (batch_ends k e) (fits, room, sig, cr, fin, shut, safe) =
      (fits, room, sig, cr, inl (unfinished fin e (λ x. cc)), shut, safe)
  Step-Inv {p} (dispatcher_stops e f) (fits, room, sig, cr, fin, shut, safe) =
      (fits, room, sig, cr, inr refl, shut, safe)
  Step-Inv (cancel e) (fits, room, sig, cr, fin, shut, safe) =
      (fits, room, sig, cr, fin, inr (inr refl), inr refl)
  Step-Inv (close e f) (fits, room, sig, cr, fin, shut, safe) =
      (fits, room, sig, cr, fin, inr f, safe)
  Step-Inv {p} (begins now d rest front back e f) inv =
      worker_begins-Inv c st tasks n now d rest front back p e f inv
  Step-Inv {p} (ends at task detail front back e) (fits, room, sig, cr, fin, shut, safe) = (
    fits,
    room,
    sig,
    crew n front back (busy task detail) signalling p.workers e cr,
    fin,
    shut,
    safe,
  )
  Step-Inv {p} (signals front back e f) (fits, room, sig, cr, fin, shut, safe) =
      (fits, room, omega arith, crew n front back signalling idle p.workers e cr, fin, shut, safe)
  Step-Inv {p} (gives_up front back e f) (fits, room, sig, cr, fin, shut, safe) =
      (fits, room, sig, crew n front back signalling idle p.workers e cr, fin, shut, safe)
  Step-Inv {p} (leaves front back e f) (fits, room, sig, cr, fin, shut, safe) =
      (fits, room, sig, crew n front back idle gone p.workers e cr, fin, shut, safe)
  Step-Inv {p} (update detail front back e) inv = inv

  Reaches-Inv :
      {p q : Pool c}
      → Reaches decrypt describe run_plugin c st tasks p q
      → Inv tasks n p
      → Inv tasks n q
  Reaches-Inv here inv = inv
  Reaches-Inv (later run e step) inv = Step-Inv step (Reaches-Inv run inv)

initial_pool-Inv :
    (c : Client) (n : ℕ) (tasks : List Task) (s : c.Server) → Inv tasks n (initial_pool c n tasks s)
initial_pool-Inv c n tasks s =
    (refl, omega arith, omega arith, length-idle_workers n, inl refl, inl refl, inl refl)

unpanicked :
    {panicked cancelled : Bool}
    → (panicked ≡ false) ⊎ (cancelled ≡ true)
    → cancelled ≡ false
    → panicked ≡ false
unpanicked (inl fine) e = fine
unpanicked (inr ended_early) e = cc

-- What a careful reader of the code expects of every moment of a run.
abbrev pub InBounds : {c : Client} → List Task → ℕ → Pool c → Type 0
InBounds tasks n p =
    (length p.dispatcher.queue ≤ length tasks)
    × (p.signals ≤ length tasks)
    × (length p.workers ≡ n)
    × ((p.cancelled ≡ false) → (p.panicked ≡ false))

module _ (decrypt : String → Option String) (describe : Error → String)
    (run_plugin : Task → Entries → PluginResult) (c : Client) (st : ExecutionStore) where
  -- In every state that a run of n workers reaches, whatever the order of its steps: tasksToRunChan and
  -- workerDoneSignal hold no more than there are tasks, there are still n workers, and as long as the
  -- context is not cancelled nothing has been sent on a closed channel.
  pub pool-InBounds :
      (n : ℕ) (tasks : List Task) (s : c.Server) {q : Pool c}
      → Reaches decrypt describe run_plugin c st tasks (initial_pool c n tasks s) q
      → InBounds tasks n q
  pool-InBounds n tasks s {q} run =
      let (fits, room, sig, cr, _, _, safe) = Reaches-Inv n run (initial_pool-Inv c n tasks s) in
      (omega (arith, fits, room), omega (arith, fits, sig), cr, unpanicked safe)

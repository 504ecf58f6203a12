-- ===== src/Runner/Pool/Ending.antt =====
-- _archive/taskrunner/runner.go: what is left where a cancelled run can do no more.
use mrmfactorytest.Prelude.{
  ℕ, zero, suc, String, Option, List, [], ◌∷◌, ◌++◌, length, true, ◌≡◌, ◌≢◌, ◌⊎◌, inl, inr, refl,
  ap, Bool-cases,
}
use mrmfactorytest.Value.{Entries}
use mrmfactorytest.Config.{Task}
use mrmfactorytest.Errors.{Error}
use mrmfactorytest.Etcd.{Client}
use mrmfactorytest.Store.Models.{TaskDetail}
use mrmfactorytest.Store.Keys.{ExecutionStore}
use mrmfactorytest.Runner.Worker.{PluginResult}
use mrmfactorytest.Runner.Moves.{
  Phase, starting, waiting, stopped, passing, sending, WorkerPhase, idle, signalling, busy, gone,
  Pool,
}
use mrmfactorytest.Runner.Pool.{
  Step, first_pass, decides, sends, batch_ends, dispatcher_stops, close, ends, gives_up, leaves,
  update,
}

abbrev pub gone_workers : ℕ → List WorkerPhase
gone_workers zero = []
gone_workers (suc n) = gone ∷ gone_workers n

-- A worker that has not returned stands somewhere in the list.
abbrev Unreturned : List WorkerPhase → Type 0
Unreturned ws =
    (front : List WorkerPhase) × (w : WorkerPhase) × (back : List WorkerPhase) × (ws
      ≡ front ++ w ∷ back)
    × (w ≢ gone)

one_more : (v : WorkerPhase) (ws : List WorkerPhase) → Unreturned ws → Unreturned (v ∷ ws)
one_more v ws (front, w, back, e, h) = (v ∷ front, w, back, ap (◌∷◌ v) e, h)

all_or_some : (ws : List WorkerPhase) → (ws ≡ gone_workers (length ws)) ⊎ Unreturned ws
all_or_some [] = inl refl
all_or_some (idle ∷ ws) = inr ([], idle, ws, refl, λ e. cc)
all_or_some (signalling ∷ ws) = inr ([], signalling, ws, refl, λ e. cc)
all_or_some (busy t d ∷ ws) = inr ([], busy t d, ws, refl, λ e. cc)
all_or_some (gone ∷ ws) = elim (all_or_some ws) [
  | inl e ↦ inl (ap (◌∷◌ gone) e)
  | inr h ↦ inr (one_more gone ws h)
]

module _ (decrypt : String → Option String) (describe : Error → String)
    (run_plugin : Task → Entries → PluginResult) (c : Client) (st : ExecutionStore)
    (tasks : List Task) where
  -- No step of any party is possible.
  abbrev pub IsStuck : Pool c → Type 0
  IsStuck p = (q : Pool c) → ¬ (Step decrypt describe run_plugin c st tasks p q)

  stuck-stopped :
      (p : Pool c) (phase : Phase)
      → p.phase ≡ phase
      → IsStuck p
      → p.cancelled ≡ true
      → phase ≡ stopped
  stuck-stopped p starting e stuck h = absurd (stuck _ (first_pass e))
  stuck-stopped p waiting e stuck h = absurd (stuck _ (dispatcher_stops e h))
  stuck-stopped p stopped e stuck h = refl
  stuck-stopped p (passing details) e stuck h = absurd (stuck _ (decides details e))
  stuck-stopped p (sending n []) e stuck h = absurd (stuck _ (batch_ends n e))
  stuck-stopped p (sending n (t ∷ ts)) e stuck h = absurd (stuck _ (sends n t ts e))

  stuck-closed : (p : Pool c) → IsStuck p → p.cancelled ≡ true → p.closed ≡ true
  stuck-closed p stuck h = elim (Bool-cases p.closed) [
    | inl e ↦ e
    | inr e ↦ absurd (stuck _ (close e (inr h)))
  ]

  stuck-updated :
      (p : Pool c) (updates : List TaskDetail)
      → p.dispatcher.spawned ≡ updates
      → IsStuck p
      → updates ≡ []
  stuck-updated p [] e stuck = refl
  stuck-updated p (d ∷ ds) e stuck = absurd (stuck _ (update d [] ds e))

  worker_moves :
      (p : Pool c) (front : List WorkerPhase) (w : WorkerPhase) (back : List WorkerPhase)
      → p.workers ≡ front ++ w ∷ back
      → w ≢ gone
      → p.cancelled ≡ true
      → ¬ (IsStuck p)
  worker_moves p front idle back e differ h stuck = stuck _ (leaves front back e (inr h))
  worker_moves p front signalling back e differ h stuck = stuck _ (gives_up front back e h)
  worker_moves p front (busy t d) back e differ h stuck = stuck _ (ends 0 t d front back e)
  worker_moves p front gone back e differ h stuck = differ refl

  -- Where the context is cancelled and no step is possible, the dispatcher has returned, tasksToRunChan is
  -- closed, every worker has returned, and every update that `go` started has run.
  pub stuck-Drained :
      (p : Pool c)
      → IsStuck p
      → p.cancelled ≡ true
      → (p.phase ≡ stopped)
        × (p.closed ≡ true)
        × (p.workers ≡ gone_workers (length p.workers))
        × (p.dispatcher.spawned ≡ [])
  stuck-Drained p stuck h =
      let returned : p.workers ≡ gone_workers (length p.workers) = elim (all_or_some p.workers) [
        | inl e ↦ e
        | inr (front, w, back, e, differ) ↦ absurd (worker_moves p front w back e differ h stuck)
      ] in
      (
        stuck-stopped p p.phase refl stuck h,
        stuck-closed p stuck h,
        returned,
        stuck-updated p p.dispatcher.spawned refl stuck,
      )

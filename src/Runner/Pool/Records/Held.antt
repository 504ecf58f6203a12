-- ===== src/Runner/Pool/Records/Held.antt =====
-- _archive/taskrunner/runner.go: the details that the dispatcher and the workers hold are those of the
-- tasks.
use mrmfactorytest.Prelude.{String, List, [], ◌∷◌, ◌++◌, All, All-append, ◌≡◌, subst}
use mrmfactorytest.Store.Models.{TaskDetail}
use mrmfactorytest.Runner.Cycle.{TaskMap}
use mrmfactorytest.Runner.Scan.{
  Statuses, Decision, Pass, record_decision, ignore, wait, block, ready, decide, scan_tasks,
  spawn_all,
}
use mrmfactorytest.Runner.Moves.{
  Phase, starting, waiting, stopped, passing, sending, WorkerPhase, idle, signalling, busy, gone,
}
use mrmfactorytest.Runner.Pool.Records.{Known}

-- What a worker and the dispatcher hold are details of the tasks.
abbrev pub WorkerKnown : List String → WorkerPhase → Type 0
WorkerKnown ids idle = Unit
WorkerKnown ids signalling = Unit
WorkerKnown ids gone = Unit
WorkerKnown ids (busy t d) = Known ids d

abbrev pub PhaseKnown : List String → Phase → Type 0
PhaseKnown ids starting = Unit
PhaseKnown ids waiting = Unit
PhaseKnown ids stopped = Unit
PhaseKnown ids (sending n ts) = Unit
PhaseKnown ids (passing ds) = All (Known ids) ds

pub All-at :
    {A : Type 0} (P : A → Type 0) (front back : List A) (w : A) (ws : List A)
    → ws ≡ front ++ w ∷ back
    → All P ws
    → All P front × P w × All P back
All-at P front back w ws e h = split front (subst (λ (l : List _). All P l) e h)
  where
    split : (front : List _) → All P (front ++ w ∷ back) → All P front × P w × All P back
    split [] h = (tt, h.0, h.1)
    split (x ∷ front) h = let rest = split front h.1 in ((h.0, rest.0), rest.1, rest.2)

record_decision-Known :
    (ids : List String) (x : Decision) (d : TaskDetail) (p : Pass)
    → Known ids d
    → All (Known ids) p.blocked_details
    → All (Known ids) (record_decision x d p).blocked_details
record_decision-Known ids ignore d p known h = h
record_decision-Known ids wait d p known h = h
record_decision-Known ids block d p known h = (known, h)
record_decision-Known ids (ready t) d p known h = h

pub scan_tasks-Known :
    (ids : List String) (configs : TaskMap) (m : Statuses) (ds : List TaskDetail)
    → All (Known ids) ds
    → All (Known ids) (scan_tasks configs m ds).blocked_details
unfolding scan_tasks
scan_tasks-Known ids configs m [] h = tt
scan_tasks-Known ids configs m (d ∷ ds) h =
    record_decision-Known ids (decide configs m d) d (scan_tasks configs m ds) h.0
      (scan_tasks-Known ids configs m ds h.1)

pub spawn_all-Known :
    (ids : List String) (ds spawned : List TaskDetail)
    → All (Known ids) ds
    → All (Known ids) spawned
    → All (Known ids) (spawn_all ds spawned)
unfolding spawn_all
spawn_all-Known ids [] spawned h first = first
spawn_all-Known ids (d ∷ ds) spawned h first =
    spawn_all-Known ids ds (spawned ++ d ∷ d ∷ []) h.1
      (All-append (Known ids) spawned (d ∷ d ∷ []) first (h.0, (h.0, tt)))

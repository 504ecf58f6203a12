-- ===== src/Runner/Scan/Progress.antt =====
-- A pass over the details never stalls: with the dependency check passed and no task running, some
-- pending task can be dispatched or blocked.
use mrmfactorytest.Prelude.{
  ◌<◌, String, none, some, List, [], ◌∷◌, map, lookup, insert, lookup-insert, Bool, true, false,
  ◌≡◌, ◌≢◌, ◌⊎◌, inl, inr, refl, arith, eq_refl, All, In, filter_by, filter_by-ne-nil, length,
  Bool-cases, Option-cases, mem, String-cases,
}
use mrmfactorytest.Config.{Task, deps}
use mrmfactorytest.Store.Models.{
  ExecutionStatus, pending, in_progress, completed, failed, skipped, blocked, TaskDetail,
}
use mrmfactorytest.Runner.Cycle.{TaskMap, returns, index_tasks, detect_dependency_cycle}
use mrmfactorytest.Runner.Cycle.Graph.{Grounded, grounded}
use mrmfactorytest.Runner.Cycle.Keys.{task_id}
use mrmfactorytest.Runner.Cycle.Verdict.{
  Grounded-of_mem, mem_of_Grounded, detect_dependency_cycle-succeeds_iff,
}
use mrmfactorytest.Runner.Scan.{
  Statuses, is_met, is_pending, is_terminal, status_map, finished_count, scan_tasks,
}
use mrmfactorytest.Runner.Scan.Deps.{
  all_met, any_broken, can_run, must_block, task_of, scan_tasks-filter,
}

-- A detail of that id and status stands in the list.
abbrev Recorded : List TaskDetail → String → ExecutionStatus → Type 0
Recorded ds k s = (d : TaskDetail) × In d ds × (d.task_id ≡ k) × (d.status ≡ s)

status_map-origin :
    (k : String) (s : ExecutionStatus) (ds : List TaskDetail) (m : Statuses)
    → lookup k (status_map ds m) ≡ some s
    → Recorded ds k s ⊎ (lookup k m ≡ some s)
unfolding status_map
status_map-origin k s [] m h = inr h
status_map-origin k s (d ∷ ds) m h =
    elim (status_map-origin k s ds (insert d.task_id d.status m) h) [
      | inl (x, place, same, st) ↦ inl (x, inr place, same, st)
      | inr older ↦ elim (String-cases d.task_id k) [
        | inl same ↦ inl (d, inl refl, same.0, ground (arith, lookup-insert d.task_id k d.status m))
        | inr differ ↦ inr (ground (arith, lookup-insert d.task_id k d.status m))
      ]
    ]

-- Of the dependencies, one is pending, or one runs, or one is broken, or all are met.
data Survey (m : Statuses) (ds : List String) : Type 0 where
  one_pending : (k : String) → mem k ds ≡ true → lookup k m ≡ some pending → Survey m ds
  one_running : (k : String) → mem k ds ≡ true → lookup k m ≡ some in_progress → Survey m ds
  one_broken : any_broken m ds ≡ true → Survey m ds
  none_open : all_met m ds ≡ true → Survey m ds

module _ (m : Statuses) where
  later :
      (d : String) (ds : List String) → Survey m ds → is_met (lookup d m) ≡ true → Survey m (d ∷ ds)
  later d ds (one_pending k listed e) met = one_pending k (ground arith) e
  later d ds (one_running k listed e) met = one_running k (ground arith) e
  later d ds (one_broken b) met = one_broken (ground arith)
  later d ds (none_open a) met = none_open (ground arith)

  first :
      (d : String) (ds : List String) (s : ExecutionStatus)
      → lookup d m ≡ some s
      → Survey m ds
      → Survey m (d ∷ ds)
  first d ds pending e r = one_pending d (rw eq_refl) e
  first d ds in_progress e r = one_running d (rw eq_refl) e
  first d ds completed e r = later d ds r (rw e)
  first d ds skipped e r = later d ds r (rw e)
  first d ds failed e r = one_broken (rw e)
  first d ds blocked e r = one_broken (rw e)

  survey : (ds : List String) → All (λ k. lookup k m ≢ none) ds → Survey m ds
  survey [] h = none_open refl
  survey (d ∷ ds) h = elim (Option-cases (lookup d m)) [
    | inl missing ↦ absurd (h.0 missing)
    | inr (s, found) ↦ first d ds s found (survey ds h.1)
  ]

-- The details are those of the tasks: each task has one, each stands for a task, and none runs.
pub record Tracks (ts : List Task) (details : List TaskDetail) : Type 0 where
  pub complete :
      (k : String) → mem k (map task_id ts) ≡ true → lookup k (status_map details []) ≢ none
  pub known : (d : TaskDetail) → In d details → mem d.task_id (map task_id ts) ≡ true
  pub idle : (d : TaskDetail) → In d details → d.status ≢ in_progress

All-of_mem :
    (P : String → Type 0) (ds : List String) → ((k : String) → mem k ds ≡ true → P k) → All P ds
All-of_mem P [] h = tt
All-of_mem P (d ∷ ds) h =
    (h d (rw eq_refl), All-of_mem P ds (λ k listed. h k (ground (arith, listed))))

-- An unfinished list with no running task has a pending one.
pending_of_unfinished :
    (ds : List TaskDetail)
    → ((d : TaskDetail) → In d ds → d.status ≢ in_progress)
    → finished_count ds < length ds
    → (d : TaskDetail) × In d ds × (is_pending d.status ≡ true)
unfolding finished_count
pending_of_unfinished [] idle h = absurd (omega arith)
pending_of_unfinished (d ∷ ds) idle h = elim (Bool-cases (is_pending d.status)) [
  | inl started ↦ (d, inl refl, started)
  | inr other ↦
      let (x, place, e) =
        pending_of_unfinished ds (λ x place. idle x (inr place))
          (ground (arith, h, is_terminal_of d.status other (idle d (inl refl)))) in
      (x, inr place, e)
]
  where
    is_terminal_of :
        (s : ExecutionStatus) → is_pending s ≡ false → s ≢ in_progress → is_terminal s ≡ true
    is_terminal_of s p q = ground arith

filter_by-map-ne-nil :
    {A B : Type 0} (f : A → B) (p : A → Bool) (a : A) (xs : List A)
    → In a xs
    → p a ≡ true
    → map f (filter_by p xs) ≢ []
filter_by-map-ne-nil {A = A} f p a xs place holds e =
    kept (filter_by p xs) (filter_by-ne-nil p a xs place holds) e
  where
    kept : (ys : List A) → ys ≢ [] → map f ys ≢ []
    kept [] h e = h refl
    kept (y ∷ ys) h e = cc

module _ (ts : List Task) (details : List TaskDetail) (tracks : Tracks ts details) where
  abbrev configs : TaskMap
  configs = index_tasks ts []

  abbrev statuses : Statuses
  statuses = status_map details []

  -- Some detail that the pass acts on.
  abbrev Actionable : Type 0
  Actionable =
      (d : TaskDetail) × In d details
      × ((can_run configs statuses d ≡ true) ⊎ (must_block configs statuses d ≡ true))

  task_of-found :
      (d : TaskDetail) (t : Task) (id : String)
      → d.task_id ≡ id
      → lookup id configs ≡ some t
      → task_of configs d ≡ t
  task_of-found d t id same found = rw (same, found)

  recorded : (k : String) (s : ExecutionStatus) → lookup k statuses ≡ some s → Recorded details k s
  unfolding lookup
  recorded k s e = elim (status_map-origin k s details [] e) [ inl r ↦ r | inr old ↦ cc ]

  actionable_below :
      {id : String}
      → Grounded configs id
      → (d : TaskDetail) → In d details
      → d.task_id ≡ id
      → is_pending d.status ≡ true
      → Actionable
  actionable_below (grounded id t found below) d place same started =
      elim (survey statuses (deps t) (
        All-of_mem (λ k. lookup k statuses ≢ none) (deps t)
          (λ k listed. tracks.complete k (mem_of_Grounded ts k (below k listed))))) [
            | one_pending k listed e ↦
                let (d', place', same', open_) = recorded k pending e in
                actionable_below (below k listed) d' place' same' (rw open_)
            | one_running k listed e ↦
                let (d', place', same', open_) = recorded k in_progress e in
                absurd (tracks.idle d' place' open_)
            | one_broken broken ↦
                (d, place, inr (rw (started, task_of-found d t id same found, broken)))
            | none_open met ↦ (d, place, inl (rw (started, task_of-found d t id same found, met)))
          ]

-- Where the dependency check of the tasks succeeds, the details track the tasks, none is running
-- and not all are finished, a pass of the dispatcher finds a task to dispatch or one to block: the
-- run cannot stall.
pub scan_tasks-progress :
    (ts : List Task) (details : List TaskDetail)
    → detect_dependency_cycle ts ≡ returns tt
    → Tracks ts details
    → finished_count details < length details
    → let pass = scan_tasks (index_tasks ts []) (status_map details []) details in
      (pass.ready_tasks ≢ []) ⊎ (pass.blocked_details ≢ [])
scan_tasks-progress ts details checked tracks unfinished =
    let (d, place, started) = pending_of_unfinished details tracks.idle unfinished in
    let g =
      Grounded-of_mem (index_tasks ts []) ts d.task_id
        ((detect_dependency_cycle-succeeds_iff ts).0 checked) (tracks.known d place) in
    let (x, there, acts) = actionable_below ts details tracks g d place refl started in
    rw (scan_tasks-filter (index_tasks ts []) (status_map details []) details) (elim acts [
      | inl runs ↦ inl (
          filter_by-map-ne-nil _ (can_run (index_tasks ts []) (status_map details [])) x details
            there runs)
      | inr blocks ↦ inr (
          filter_by-map-ne-nil _ (must_block (index_tasks ts []) (status_map details [])) x details
            there blocks)
    ])

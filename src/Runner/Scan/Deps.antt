-- ===== src/Runner/Scan/Deps.antt =====
-- What the two flags of the dependency loop mean, and what a decision rests on.
use mrmfactorytest.Prelude.{
  String, List, [], ◌∷◌, lookup, Bool, true, false, ◌&&◌, ◌||◌, ◌≡◌, inl, inr, refl, map, filter_by,
  arith, Bool-cases, if◌then◌else◌,
}
use mrmfactorytest.Config.{Task, deps}
use mrmfactorytest.Store.Models.{TaskDetail}
use mrmfactorytest.Runner.Cycle.{TaskMap}
use mrmfactorytest.Runner.Scan.{
  Statuses, is_met, is_broken, is_pending, check_deps, ignore, block, wait, ready, config_or_zero,
  decide, scan_tasks, blocked_detail,
}

abbrev pub all_met : Statuses → List String → Bool
all_met m [] = true
all_met m (d ∷ ds) = is_met (lookup d m) && all_met m ds

abbrev pub any_broken : Statuses → List String → Bool
any_broken m [] = false
any_broken m (d ∷ ds) = is_broken (lookup d m) || any_broken m ds

-- The loop finds a broken dependency wherever one stands; where none does, its first flag says
-- whether all are met.
pub check_deps-flags :
    (m : Statuses) (ds : List String) (met : Bool)
    → ((check_deps m ds met).1 ≡ any_broken m ds)
      × (any_broken m ds ≡ false → (check_deps m ds met).0 ≡ (met && all_met m ds))
unfolding check_deps
check_deps-flags m [] met = ground arith
check_deps-flags m (d ∷ ds) met =
    let ih = check_deps-flags m ds (met && is_met (lookup d m)) in ground (arith, ih)

abbrev pub task_of : TaskMap → TaskDetail → Task
task_of configs d = config_or_zero (lookup d.task_id configs)

-- Pending, with every dependency completed or skipped.
abbrev pub can_run : TaskMap → Statuses → TaskDetail → Bool
can_run configs m d = is_pending d.status && all_met m (deps (task_of configs d))

-- Pending, with a dependency that failed or is blocked.
abbrev pub must_block : TaskMap → Statuses → TaskDetail → Bool
must_block configs m d = is_pending d.status && any_broken m (deps (task_of configs d))

-- A dependency that is met is not broken.
pub any_broken-all_met :
    (m : Statuses) (ds : List String) → all_met m ds ≡ true → any_broken m ds ≡ false
any_broken-all_met m [] h = refl
any_broken-all_met m (d ∷ ds) h = ground (arith, any_broken-all_met m ds)

module _ (configs : TaskMap) (m : Statuses) where
  decide-flags :
      (d : TaskDetail)
      → decide configs m d ≡ (
          if is_pending d.status
          then (if any_broken m (deps (task_of configs d))
              then block
              else if all_met m (deps (task_of configs d))
              then ready (task_of configs d)
              else wait)
          else ignore)
  unfolding decide
  decide-flags d =
      let (failed_flag, met_flag) = check_deps-flags m (deps (task_of configs d)) true in
      elim (Bool-cases (any_broken m (deps (task_of configs d)))) [
        | inl broken ↦ rw (failed_flag, broken)
        | inr whole ↦ rw (failed_flag, whole, met_flag whole)
      ]

  not_met :
      (d : TaskDetail)
      → any_broken m (deps (task_of configs d)) ≡ true
      → all_met m (deps (task_of configs d)) ≡ false
  not_met d broken = elim (Bool-cases (all_met m (deps (task_of configs d)))) [
    | inl met ↦ let whole = any_broken-all_met m (deps (task_of configs d)) met in cc
    | inr unmet ↦ unmet
  ]

  pub scan_tasks-filter :
      (ds : List TaskDetail)
      → scan_tasks configs m ds ≡ record {
        ready_tasks = map (task_of configs) (filter_by (can_run configs m) ds);
        blocked_details = map blocked_detail (filter_by (must_block configs m) ds);
      }
  unfolding scan_tasks
  scan_tasks-filter [] = refl
  scan_tasks-filter (d ∷ ds) =
      rw (scan_tasks-filter ds, decide-flags d)
        (elim (Bool-cases (is_pending d.status)) [
          | inl started ↦ elim (Bool-cases (any_broken m (deps (task_of configs d)))) [
            | inl broken ↦ rw (started, broken, not_met d broken)
            | inr whole ↦ elim (Bool-cases (all_met m (deps (task_of configs d)))) [
              | inl met ↦ rw (started, whole, met)
              | inr unmet ↦ rw (started, whole, unmet)
            ]
          ]
          | inr other ↦ rw other
        ])

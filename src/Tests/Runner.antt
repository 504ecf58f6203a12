-- ===== src/Tests/Runner.antt =====
-- The dependency check and the dispatcher's pass on a small action.
use mrmfactorytest.Prelude.{
  [], ◌∷◌, map, true, ◌≡◌, ◌≢◌, ◌↔◌, ◌⊎◌, refl, arith, lookup, insert, mem, All-In, eq_iff,
}
use mrmfactorytest.Store.Models.{in_progress, TaskDetail}
use mrmfactorytest.Runner.Cycle.{
  returns, fails, cycle, undefined_dependency, index_tasks, detect_dependency_cycle, find_cycle_dfs,
  search_all, visit_deps, visit_task, unmark_tasks,
}
use mrmfactorytest.Runner.Cycle.Keys.{task_id}
use mrmfactorytest.Runner.Cycle.Verdict.{
  AllGrounded, Verdict, detect_dependency_cycle-Verdict, detect_dependency_cycle-succeeds_iff,
}
use mrmfactorytest.Runner.Scan.{status_map, scan_tasks, finished_count, decide, check_deps}
use mrmfactorytest.Runner.Scan.Progress.{Tracks, scan_tasks-progress}
use mrmfactorytest.Tests.Data.{action, knot, task, stop_app, half_done}

pub action_checked : detect_dependency_cycle action ≡ returns tt
unfolding detect_dependency_cycle find_cycle_dfs search_all visit_deps visit_task unmark_tasks
    index_tasks lookup insert
action_checked = refl

knot_refused : detect_dependency_cycle knot ≡ fails (cycle ("left" ∷ "right" ∷ []) "left")
unfolding detect_dependency_cycle find_cycle_dfs search_all visit_deps visit_task unmark_tasks
    index_tasks lookup insert
knot_refused = refl

missing_refused :
    detect_dependency_cycle (task "a" ("b" ∷ []) ∷ []) ≡ fails (undefined_dependency "a" "b")
unfolding detect_dependency_cycle find_cycle_dfs search_all visit_deps visit_task unmark_tasks
    index_tasks lookup insert
missing_refused = refl

detect_dependency_cycle-Verdict_example :
    Verdict (index_tasks knot []) knot (detect_dependency_cycle knot)
detect_dependency_cycle-Verdict_example = detect_dependency_cycle-Verdict knot

detect_dependency_cycle-succeeds_iff_example :
    (detect_dependency_cycle action ≡ returns tt) ↔ AllGrounded (index_tasks action []) action
detect_dependency_cycle-succeeds_iff_example = detect_dependency_cycle-succeeds_iff action

pass_runs :
    scan_tasks (index_tasks action []) (status_map half_done []) half_done
    ≡ record { ready_tasks = stop_app ∷ []; blocked_details = [] }
unfolding scan_tasks index_tasks status_map decide check_deps lookup insert
pass_runs = refl

half_done-Tracks : Tracks action half_done
unfolding status_map lookup insert
half_done-Tracks = record {
  complete =
      λ k listed. ground (arith, eq_iff "drop_subs" k, eq_iff "stop_app" k, eq_iff "switch_dns" k);
  known = λ d place.
      All-In (λ (d : TaskDetail). mem d.task_id (map task_id action) ≡ true) d half_done
        (refl, (refl, (refl, tt))) place;
  idle = λ d place.
      All-In (λ (d : TaskDetail). d.status ≢ in_progress) d half_done
        ((λ e. cc), ((λ e. cc), ((λ e. cc), tt))) place;
}

scan_tasks-progress_example :
    let pass = scan_tasks (index_tasks action []) (status_map half_done []) half_done in
    (pass.ready_tasks ≢ []) ⊎ (pass.blocked_details ≢ [])
unfolding finished_count
scan_tasks-progress_example =
    scan_tasks-progress action half_done action_checked half_done-Tracks (omega arith)

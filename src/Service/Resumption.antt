-- ===== src/Service/Resumption.antt =====
-- The restart of an execution as a whole: what it resets before the tasks run again.
use mrmfactorytest.Prelude.{
  ℕ, String, Option, some, List, [], map, Map, values, true, ◌≡◌, ◌⊎◌, inl, inr, refl, ◌∙◌, ap,
}
use mrmfactorytest.Config.{Config}
use mrmfactorytest.Errors.{Error, Result, ok, err, continue, Result-cases}
use mrmfactorytest.Etcd.{Client, IsEtcd}
use mrmfactorytest.Etcd.Laws.{get_outcome}
use mrmfactorytest.Store.Models.{ExecutionHeader, TaskDetail, header_json, decode_header}
use mrmfactorytest.Store.Keys.{
  ExecutionStore, execution_header_key, config-ne-header, config-ne-details,
}
use mrmfactorytest.Store.Operations.{get_header}
use mrmfactorytest.Store.Details.{Holds}
use mrmfactorytest.Runner.Execute.Conclusion.{get_header-Unchanged}
use mrmfactorytest.Service.{
  is_completed, reset_detail, restarted_header, Restart, RestartEnd, no_config, no_header, no_tasks,
  header_not_written, already_completed, task_not_written, bootstrap_fsm_config, resume,
  restart_found, restart_configured, restart_fsm,
}
use mrmfactorytest.Service.Bootstrap.{bootstrap_fsm_config-Bootstrapped}
use mrmfactorytest.Service.Reset.{store_all}

-- A restart that an error stopped before the tasks run again.
abbrev pub Stopped : RestartEnd → Type 0
Stopped (no_config e) = Unit
Stopped (no_header e) = Unit
Stopped (no_tasks e) = Unit
Stopped (header_not_written e) = Unit
Stopped (task_not_written id e) = Unit
Stopped _ = ⊥

module _ (unmarshal : String → Option Config) (read_file : String → Result String) (c : Client)
    (law : IsEtcd c) (st : ExecutionStore) (work : List TaskDetail → c.Server → c.Server)
    (now later : ℕ) (h : ExecutionHeader) (m : Map TaskDetail) where
  -- The header and the records of the tasks in the cluster.
  abbrev pub Recorded : c.Server → ExecutionHeader → Map TaskDetail → Type 0
  Recorded s head details =
      (c.content s (execution_header_key st) ≡ some (header_json head)) × Holds c st s details

  -- The restart goes on from a cluster with the header restarted and every task reset.
  abbrev pub Resumes : Restart c → Type 0
  Resumes r =
      (cfg : Config) × (s : c.Server) × Recorded s (restarted_header now h)
        (store_all (map reset_detail (values m)) m)
      × (r
          ≡ resume unmarshal read_file c st work now later cfg (restarted_header now h)
              (map reset_detail (values m)) s)

  abbrev ResumesOrStops : Restart c → Type 0
  ResumesOrStops r = Resumes r ⊎ Stopped r.ending

  read_header :
      (s : c.Server)
      → c.content s (execution_header_key st) ≡ some (header_json h)
      → ((get_header c st s).0 ≡ ok h) ⊎ ((e : Error) × ((get_header c st s).0 ≡ err e))
  unfolding get_header decode_header
  read_header s held = elim (get_outcome law (execution_header_key st) s) [
    | inl e ↦ inl (rw (e ∙ ap ok held, continue) refl)
    | inr (x, e) ↦ inr (x, rw (e, continue) refl)
  ]

  abbrev bootstrapped : c.Server → Result Config × c.Server
  bootstrapped s = bootstrap_fsm_config unmarshal read_file c st "fsm-config.yaml" s

  kept_by_bootstrap : (s : c.Server) → Recorded s h m → Recorded (bootstrapped s).1 h m
  kept_by_bootstrap s held =
      let kept =
        (bootstrap_fsm_config-Bootstrapped unmarshal c law st read_file "fsm-config.yaml" s).1 in
      (kept _ (config-ne-header st) ∙ held.0, kept _ (config-ne-details st) ∙ held.1)

  -- A restart of a completed execution changes neither its header nor the records of its tasks,
  -- and starts nothing.
  pub restart_fsm-completed :
      (s : c.Server)
      → c.content s (execution_header_key st) ≡ some (header_json h)
      → Holds c st s m
      → is_completed h.status ≡ true
      → let r = restart_fsm unmarshal read_file c st work now later s in
        Recorded r.server h m
        × (r.spawned ≡ [])
        × ((r.ending ≡ already_completed) ⊎ Stopped r.ending)
  unfolding restart_fsm restart_configured restart_found
  restart_fsm-completed s head details finished =
      let kept = kept_by_bootstrap s (head, details) in
      elim (Result-cases (bootstrapped s).0) [
        | inr (x, e) ↦ rw (e, restart_fsm) (kept, refl, inr tt)
        | inl (cfg, e) ↦
            let same = get_header-Unchanged c law st (bootstrapped s).1 in
            let kept' : Recorded (get_header c st (bootstrapped s).1).1 h m =
              (same _ ∙ kept.0, same _ ∙ kept.1) in
            elim (read_header (bootstrapped s).1 kept.0) [
              | inr (x, f) ↦ rw (e, f, restart_fsm, restart_configured) (kept', refl, inr tt)
              | inl f ↦
                  rw (e, f, restart_fsm, restart_configured, restart_found, finished)
                    (kept', refl, inl refl)
            ]
      ]

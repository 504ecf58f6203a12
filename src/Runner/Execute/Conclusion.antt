-- ===== src/Runner/Execute/Conclusion.antt =====
-- What `ExecuteActions` answers and writes, on every branch.
use mrmfactorytest.Prelude.{
  ℕ, none, some, List, [], ◌∷◌, Map, values, Bool, true, false, ◌≡◌, ◌⊎◌, inl, inr, refl, ◌∙◌, All,
  In, Bool-cases,
}
use mrmfactorytest.Config.{Task}
use mrmfactorytest.Errors.{Error, Result, ok, err, continue, Result-cases, dependency}
use mrmfactorytest.Etcd.{Client, IsEtcd}
use mrmfactorytest.Etcd.Laws.{OthersKept, put_outcome, put_others}
use mrmfactorytest.Store.Models.{TaskDetail, ExecutionHeader, header_json}
use mrmfactorytest.Store.Keys.{ExecutionStore, execution_header_key}
use mrmfactorytest.Store.Operations.{get_header, update_header}
use mrmfactorytest.Store.Details.{Unchanged}
use mrmfactorytest.Runner.Cycle.{fails, CycleError, detect_dependency_cycle}
use mrmfactorytest.Runner.Execute.{
  is_bad, final_success, final_header, close_header, execute_actions,
}

-- A verdict on the tasks: none failed or is blocked, or one did or is.
abbrev pub Judged : Bool → List TaskDetail → Type 0
Judged true ts = All (λ (d : TaskDetail). is_bad d.status ≡ false) ts
Judged false ts = (d : TaskDetail) × In d ts × (is_bad d.status ≡ true)

later_bad : (t : TaskDetail) (ts : List TaskDetail) → Judged false ts → Judged false (t ∷ ts)
later_bad t ts (d, place, bad) = (d, inr place, bad)

-- The loop over the details judges them rightly.
pub final_success-Judged : (ts : List TaskDetail) → Judged (final_success ts) ts
unfolding final_success
final_success-Judged [] = tt
final_success-Judged (t ∷ ts) = elim (Bool-cases (is_bad t.status)) [
  | inl bad ↦ rw bad (t, inl refl, bad)
  | inr good ↦ rw good (step (final_success ts) good (final_success-Judged ts))
]
  where
    step : (b : Bool) → is_bad t.status ≡ false → Judged b ts → Judged b (t ∷ ts)
    step true good h = (good, h)
    step false good h = later_bad t ts h

module _ (c : Client) (st : ExecutionStore) where
  -- The last write: the header could not be read, and nothing is written; or its final version is
  -- written, or is not because the write failed.
  abbrev pub CloseOutcome : Bool → ℕ → c.Server → c.Server → Type 0
  CloseOutcome b now s s' =
      ((e : Error) × ((get_header c st s).0 ≡ err e) × Unchanged c s s')
      ⊎ ((h : ExecutionHeader) × ((get_header c st s).0 ≡ ok h)
          × ((c.content s' (execution_header_key st) ≡ some (header_json (final_header b now h)))
              ⊎ ((e : Error) × ((update_header c st (final_header b now h) (get_header c st s).1).0
                    ≡ err e)
                  × (c.content s' (execution_header_key st)
                      ≡ c.content s (execution_header_key st)))))

  -- How a run of valid tasks ends, where the records are `m` once the workers are done in `s`.
  abbrev pub Concluded : Map TaskDetail → ℕ → c.Server → Result Bool × c.Server → Type 0
  Concluded m now s r =
      ((b : Bool) × (r.0 ≡ ok b)
        × Judged b (values m)
        × ((s' : c.Server) × Unchanged c s s' × CloseOutcome b now s' r.1)
        × OthersKept c (execution_header_key st) s r.1)
      ⊎ ((e : Error) × (r.0 ≡ err e) × Unchanged c s r.1)

module _ (c : Client) (law : IsEtcd c) (st : ExecutionStore) where
  pub get_header-Unchanged : (s : c.Server) → Unchanged c s (get_header c st s).1
  unfolding get_header
  get_header-Unchanged s j = elim (Result-cases (c.get (execution_header_key st) s).0) [
    | inl (none, e) ↦ rw (e, continue) (law.get_content (execution_header_key st) s j)
    | inl (some doc, e) ↦ rw (e, continue) (law.get_content (execution_header_key st) s j)
    | inr (x, e) ↦ rw (e, continue) (law.get_content (execution_header_key st) s j)
  ]

  pub close_header-CloseOutcome :
      (b : Bool) (now : ℕ) (s : c.Server)
      → CloseOutcome c st b now s (close_header c st b now s)
        × OthersKept c (execution_header_key st) s (close_header c st b now s)
  unfolding close_header update_header
  close_header-CloseOutcome b now s = elim (Result-cases (get_header c st s).0) [
    | inr (x, e) ↦
        rw (e, close_header)
          (inl (x, refl, get_header-Unchanged s), λ j ne. get_header-Unchanged s j)
    | inl (h, e) ↦
        rw (e, close_header)
          (
            inr (
              h,
              refl,
              elim (put_outcome law (execution_header_key st) (header_json (final_header b now h))
                  (get_header c st s).1) [
                    | inl written ↦ inl written.1
                    | inr (x, f, inl same) ↦
                        inr (x, f, same ∙ get_header-Unchanged s (execution_header_key st))
                    | inr (x, f, inr made) ↦ inl made
                  ],
            ),
            λ j ne. put_others law (execution_header_key st) _ _ j ne ∙ get_header-Unchanged s j,
          )
  ]

  -- Tasks whose dependency check fails are refused with its error, and no worker starts: the
  -- cluster stays as it is.
  pub execute_actions-refused :
      (ts : List Task) (work : c.Server → c.Server) (now : ℕ) (s : c.Server) (e : CycleError)
      → detect_dependency_cycle ts ≡ fails e
      → execute_actions c st ts work now s ≡ (err (dependency e), s)
  unfolding execute_actions
  execute_actions-refused ts work now s e bad = rw (bad, execute_actions)

-- ===== src/Store/Details.antt =====
-- The task records of an execution refine a map from task ids to details: `GetTask` is a lookup,
-- `UpdateTask` an insertion, on every branch of the client's answers.
use mrmfactorytest.Prelude.{
  String, Option, none, some, List, [], ◌∷◌, Map, lookup, insert, values, true, false, ◌≡◌, ◌≢◌,
  ◌⊎◌, eq_refl, inl, inr, refl, ◌∙◌, ap, String-cases,
}
use mrmfactorytest.Errors.{
  Error, Result, ok, err, continue, task_not_found, bad_json, details_unreadable,
}
use mrmfactorytest.Etcd.{Client, IsEtcd}
use mrmfactorytest.Etcd.Laws.{OthersKept, get_outcome, put_outcome, put_others}
use mrmfactorytest.Store.Models.{
  TaskDetail, plain, is_encodable, details_json, details_encodable, encode_details, decode_details,
}
use mrmfactorytest.Store.Records.{Keyed, details_encodable-insert-false}
use mrmfactorytest.Store.Keys.{ExecutionStore, execution_details_key}
use mrmfactorytest.Store.Operations.{
  find_task, get_all_tasks, get_task, update_task, update_task_in_details,
}

abbrev pub or_not_found : String → Option TaskDetail → Result TaskDetail
or_not_found id none = err (task_not_found id)
or_not_found id (some d) = ok d

-- The search of `GetTask` through the details, in whatever order, is a lookup of the id.
pub find_task-lookup :
    (id : String) (m : Map TaskDetail)
    → Keyed m
    → find_task id (values m) ≡ or_not_found id (lookup id m)
unfolding find_task lookup values
find_task-lookup id [] h = refl
find_task-lookup id ((k, d) ∷ m) h = rw h.0 (elim (String-cases k id) [
  | inl same ↦ rw same.1
  | inr differ ↦ rw differ.1 (find_task-lookup id m h.1)
])

-- The details in the cluster are the map `m`.
abbrev pub Holds : (c : Client) → ExecutionStore → c.Server → Map TaskDetail → Type 0
Holds c st s m = c.content s (execution_details_key st) ≡ some (details_json m)

-- Every key of the cluster holds what it held.
abbrev pub Unchanged : (c : Client) → c.Server → c.Server → Type 0
Unchanged c s s' = (j : String) → c.content s' j ≡ c.content s j

-- The answer is as expected, or the client's own error.
abbrev pub AnswersOrFails {ℓ} : {A : Type ℓ} {B : Type 0} → Result A → Result A → Result B → Type ℓ
AnswersOrFails expected actual call =
    (actual ≡ expected) ⊎ ((e : Error) × (actual ≡ err e) × (call ≡ err e))

-- An update of the record from `m` to `m'` succeeded, or failed with an error after which the
-- record is one of the two.
abbrev pub UpdateOutcome :
    (c : Client)
    → ExecutionStore
    → Map TaskDetail
    → Map TaskDetail
    → Result (Unit {0}) × c.Server
    → Type 0
UpdateOutcome c st m m' r =
    ((r.0 ≡ ok tt) × Holds c st r.1 m')
    ⊎ ((e : Error) × (r.0 ≡ err e) × (Holds c st r.1 m ⊎ Holds c st r.1 m'))

module _ (c : Client) (law : IsEtcd c) (st : ExecutionStore) (s : c.Server) where
  module _ (m : Map TaskDetail) (held : Holds c st s m) where
    get-details :
        ((c.get (execution_details_key st) s).0 ≡ ok (some (details_json m)))
        ⊎ ((e : Error) × ((c.get (execution_details_key st) s).0 ≡ err e))
    get-details = elim (get_outcome law (execution_details_key st) s) [
      | inl e ↦ inl (e ∙ ap ok held)
      | inr failure ↦ inr failure
    ]

    -- Where the cluster holds the records `m`, each under its own id, `GetTask` answers with
    -- the map's entry of that id, or "not found" where there is none, or with the client's
    -- error; and the cluster holds what it held.
    pub get_task-lookup :
        (id : String)
        → Keyed m
        → AnswersOrFails
            (or_not_found id (lookup id m))
            (get_task c st id s).0
            (c.get (execution_details_key st) s).0
          × Unchanged c s (get_task c st id s).1
    unfolding get_task get_all_tasks decode_details
    get_task-lookup id keyed = elim get-details [
      | inl e ↦ (
        inl (rw (e, continue) (find_task-lookup id m keyed)),
        λ j. rw (e, continue) (law.get_content (execution_details_key st) s j),
      )
      | inr (x, e) ↦ (
        inr (x, rw (e, continue), e),
        λ j. rw (e, continue) (law.get_content (execution_details_key st) s j),
      )
    ]

    pub get_all_tasks-values :
        AnswersOrFails
          (ok (values m))
          (get_all_tasks c st s).0
          (c.get (execution_details_key st) s).0
        × Unchanged c s (get_all_tasks c st s).1
    unfolding get_all_tasks decode_details
    get_all_tasks-values = elim get-details [
      | inl e ↦ (
        inl (rw (e, continue)),
        λ j. rw (e, continue) (law.get_content (execution_details_key st) s j),
      )
      | inr (x, e) ↦ (
        inr (x, rw (e, continue), e),
        λ j. rw (e, continue) (law.get_content (execution_details_key st) s j),
      )
    ]

    module _ (d : TaskDetail) where
      update_task-put :
          (c.get (execution_details_key st) s).0 ≡ ok (some (details_json m))
          → update_task c st d s
            ≡ c.put
                (execution_details_key st)
                (encode_details (insert d.task_id d m))
                (c.get (execution_details_key st) s).1
      unfolding update_task update_task_in_details decode_details
      update_task-put e = rw (e, continue)

      update_task-get_failed :
          (x : Error)
          → (c.get (execution_details_key st) s).0 ≡ err x
          → update_task c st d s
            ≡ (err (details_unreadable x), (c.get (execution_details_key st) s).1)
      unfolding update_task update_task_in_details
      update_task-get_failed x e = rw (e, continue)

      update_task-others : OthersKept c (execution_details_key st) s (update_task c st d s).1
      update_task-others = elim get-details [
        | inl e ↦ rw (update_task-put e) (λ j ne.
            put_others law (execution_details_key st) _ _ j ne
            ∙ law.get_content (execution_details_key st) s j)
        | inr (x, e) ↦
            rw (update_task-get_failed x e) (λ j ne. law.get_content (execution_details_key st) s j)
      ]

      -- Where the cluster holds the records `m`, `UpdateTask` stores the detail under its id
      -- and keeps the others, or fails and leaves the record as it was or as it should be; no
      -- other key changes. The details can be encoded.
      pub update_task-insert :
          details_encodable (insert d.task_id d m) ≡ true
          → UpdateOutcome c st m (insert d.task_id d m) (update_task c st d s)
            × OthersKept c (execution_details_key st) s (update_task c st d s).1
      unfolding encode_details
      update_task-insert fits = (outcome, update_task-others)
        where
          outcome : UpdateOutcome c st m (insert d.task_id d m) (update_task c st d s)
          outcome = elim get-details [
            | inl e ↦
                rw (update_task-put e, fits)
                  (elim (put_outcome law (execution_details_key st)
                    (details_json (insert d.task_id d m)) (c.get (execution_details_key st) s).1) [
                      | inl written ↦ inl written
                      | inr (x, f, inl same) ↦ inr (
                        x,
                        f,
                        inl (
                            same
                            ∙ law.get_content (execution_details_key st) s
                                (execution_details_key st)
                            ∙ held),
                      )
                      | inr (x, f, inr made) ↦ inr (x, f, inr made)
                    ])
            | inr (x, e) ↦ rw (update_task-get_failed x e) (
                inr (
                  details_unreadable x,
                  refl,
                  inl (
                      law.get_content (execution_details_key st) s (execution_details_key st)
                      ∙ held),
                ))
          ]

      spoiled :
          details_encodable (insert d.task_id d m) ≡ false
          → (update_task c st d s).0 ≡ ok tt
          → c.content (update_task c st d s).1 (execution_details_key st) ≡ some (plain "")
      unfolding encode_details
      spoiled bad done = elim get-details [
        | inl e ↦
            let done' = rw (update_task-put e) at done in
            rw (update_task-put e) (
              rw (
                law.put_content (execution_details_key st) _ (c.get (execution_details_key st) s).1
                    done' (execution_details_key st),
                eq_refl,
                bad,
              ))
        | inr (x, e) ↦ absurd (refused x (rw (update_task-get_failed x e) at done))
      ]
        where
          refused :
              (x : Error) → ◌≡◌ {A = Result (Unit {0})} (err (details_unreadable x)) (ok tt) → ⊥
          refused x f = cc

      -- A result that `json.Marshal` refuses replaces the record of the whole execution by an empty
      -- text, although the update reports success: no read of the tasks succeeds after it.
      pub update_task-unencodable :
          (ts : List TaskDetail)
          → is_encodable d.result ≡ false
          → (update_task c st d s).0 ≡ ok tt
          → (get_all_tasks c st (update_task c st d s).1).0 ≢ ok ts
      unfolding get_all_tasks decode_details
      update_task-unencodable ts bad done read =
          elim (get_outcome law (execution_details_key st) (update_task c st d s).1) [
            | inl e ↦
                let found =
                  e ∙ ap ok (spoiled (details_encodable-insert-false d.task_id d m bad) done) in
                let read' : err bad_json ≡ ok ts = rw (found, continue) at read in cc
            | inr (x, e) ↦ let read' : err x ≡ ok ts = rw (e, continue) at read in cc
          ]

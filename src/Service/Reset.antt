-- ===== src/Service/Reset.antt =====
-- What the loops of a restart do to the records of the tasks.
use mrmfactorytest.Prelude.{
  String, Option, none, some, List, [], ◌∷◌, ◌++◌, map, append-nil, append_assoc, All, Map, lookup,
  insert, values, lookup-insert, true, ◌≡◌, ◌⊎◌, inl, inr, refl, sym, ◌∙◌, ap, arith, String-cases,
  Bool-cases, Option-cases,
}
use mrmfactorytest.Errors.{Error}
use mrmfactorytest.Etcd.{Client, IsEtcd}
use mrmfactorytest.Etcd.Laws.{OthersKept}
use mrmfactorytest.Store.Models.{TaskDetail, is_encodable, details_encodable}
use mrmfactorytest.Store.Keys.{ExecutionStore, execution_details_key}
use mrmfactorytest.Store.Operations.{update_task}
use mrmfactorytest.Store.Details.{Holds, update_task-insert}
use mrmfactorytest.Store.Records.{Keyed, details_encodable-insert}
use mrmfactorytest.Service.{is_completed, reset_detail, Updated, update_all}

-- The records once each detail has been stored under its id.
unfoldable pub store_all : List TaskDetail → Map TaskDetail → Map TaskDetail
store_all [] m = m
store_all (d ∷ ds) m = store_all ds (insert d.task_id d m)

-- No id stands twice, as in a Go map.
abbrev pub Unshadowed : Map TaskDetail → Type 0
Unshadowed [] = Unit
Unshadowed ((k, d) ∷ m) = (lookup k m ≡ none) × Unshadowed m

abbrev reset_found : Option TaskDetail → Option TaskDetail → Option TaskDetail
reset_found none old = old
reset_found (some d) old = some (reset_detail d)

abbrev pub reset_entry : Option TaskDetail → Option TaskDetail
reset_entry none = none
reset_entry (some d) = some (reset_detail d)

reset_detail-task_id : (d : TaskDetail) → (reset_detail d).task_id ≡ d.task_id
unfolding reset_detail
reset_detail-task_id d = elim (Bool-cases (is_completed d.status)) [
  | inl e ↦ rw (e, reset_detail) refl
  | inr e ↦ rw (e, reset_detail) refl
]

lookup-store_all :
    (k : String) (m acc : Map TaskDetail)
    → Keyed m
    → Unshadowed m
    → lookup k (store_all (map reset_detail (values m)) acc)
      ≡ reset_found (lookup k m) (lookup k acc)
unfolding lookup values store_all reset_detail
lookup-store_all k [] acc keyed alone = refl
lookup-store_all k ((j, d) ∷ m) acc keyed alone =
    let step =
      lookup-store_all k m (insert (reset_detail d).task_id (reset_detail d) acc) keyed.1 alone.1 in
    let id = reset_detail-task_id d ∙ keyed.0 in
    elim (String-cases j k) [
      | inl same ↦
          step
          ∙ rw (lookup-insert, id, same.1, ap (λ (x : String). lookup x m) (sym same.0) ∙ alone.0)
              refl
      | inr differ ↦ step ∙ rw (lookup-insert, id, differ.1) refl
    ]

-- With each record under its own id, and no id twice, the records after the reset's updates are
-- those before it, each reset, under the same ids.
pub lookup-reset :
    (k : String) (m : Map TaskDetail)
    → Keyed m
    → Unshadowed m
    → lookup k (store_all (map reset_detail (values m)) m) ≡ reset_entry (lookup k m)
lookup-reset k m keyed alone =
    lookup-store_all k m m keyed alone
    ∙ elim (Option-cases (lookup k m)) [ inl e ↦ rw e refl | inr (d, e) ↦ rw e refl ]

abbrev Encodable : TaskDetail → Type 0
Encodable d = is_encodable d.result ≡ true

pub reset-Encodable :
    (m : Map TaskDetail) → details_encodable m ≡ true → All Encodable (map reset_detail (values m))
unfolding values details_encodable reset_detail is_encodable
reset-Encodable [] h = tt
reset-Encodable ((k, d) ∷ m) h = (
  elim (Bool-cases (is_completed d.status)) [
    | inl e ↦ rw (e, reset_detail) both.0
    | inr e ↦ rw (e, reset_detail) refl
  ],
  reset-Encodable m both.1,
)
  where
    both : (is_encodable d.result ≡ true) × (details_encodable m ≡ true)
    both = ground (arith, h)

module _ (c : Client) (law : IsEtcd c) (st : ExecutionStore) where
  -- The loop of updates stored all details, and started an update of each; or it stopped at one.
  abbrev pub AllUpdated :
      List TaskDetail → List TaskDetail → Map TaskDetail → c.Server → Updated c → Type 0
  AllUpdated ts spawned m s u =
      ((u.failure ≡ none)
        × Holds c st u.server (store_all ts m)
        × (u.spawned ≡ spawned ++ ts)
        × OthersKept c (execution_details_key st) s u.server)
      ⊎ ((failed : String × Error) × (u.failure ≡ some failed))

  pub update_all-AllUpdated :
      (ts spawned : List TaskDetail) (m : Map TaskDetail) (s : c.Server)
      → All Encodable ts
      → details_encodable m ≡ true
      → Holds c st s m
      → AllUpdated ts spawned m s (update_all c st ts spawned s)
  unfolding update_all store_all
  update_all-AllUpdated [] spawned m s all fits held =
      inl (refl, held, sym (append-nil spawned), λ j ne. refl)
  update_all-AllUpdated (t ∷ ts) spawned m s all fits held =
      let fits' = details_encodable-insert t.task_id t m all.0 fits in
      let step = update_task-insert c law st s m held t fits' in
      elim step.0 [
        | inr (x, e, _) ↦ rw (e, update_all) (inr ((t.task_id, x), refl))
        | inl (e, made) ↦
            rw (e, update_all)
              (elim (update_all-AllUpdated ts (spawned ++ t ∷ []) (insert t.task_id t m)
                (update_task c st t s).1 all.1 fits' made) [
                  | inl (good, new, started, kept) ↦ inl (
                    good,
                    new,
                    started ∙ append_assoc spawned (t ∷ []) ts,
                    λ j ne. kept j ne ∙ step.1 j ne,
                  )
                  | inr bad ↦ inr bad
                ])
      ]

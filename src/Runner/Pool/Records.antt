-- ===== src/Runner/Pool/Records.antt =====
-- _archive/taskrunner/runner.go: the records of an execution while the dispatcher, the workers and the
-- updates that `go` started work on them at once.
pub mod Held
pub mod Kept
pub mod Runs
use mrmfactorytest.Prelude.{
  ℕ, String, Option, none, some, List, [], ◌∷◌, ◌++◌, Map, lookup, insert, keys, values, mem, All,
  All-append, All-mono, mem-All, mem-keys-insert, mem-keys_of_lookup, Bool, true, false, ◌==◌, ◌≡◌,
  ◌⊎◌, inl, inr, refl, sym, subst, ◌∙◌, ap, arith, String-cases, eq_refl,
}
use mrmfactorytest.Errors.{Error, Result, ok, err, continue, Result-cases}
use mrmfactorytest.Etcd.{Client, IsEtcd}
use mrmfactorytest.Etcd.Laws.{OthersKept, put_others}
use mrmfactorytest.Store.Decimal.{show, increment}
use mrmfactorytest.Store.Models.{TaskDetail, plain, is_encodable, details_encodable}
use mrmfactorytest.Store.Records.{
  Keyed, Keyed-insert, Keyed-task_id, details_encodable-insert, lookup-encodable,
}
use mrmfactorytest.Store.Keys.{
  ExecutionStore, execution_details_key, batch_counter_key, batch-ne-details,
}
use mrmfactorytest.Store.Operations.{
  get_task, get_all_tasks, update_task, increment_batch_counter, counter_of,
}
use mrmfactorytest.Store.Details.{
  Unchanged, UpdateOutcome, or_not_found, Holds, get_task-lookup, get_all_tasks-values,
  update_task-insert,
}

-- A detail of one of the tasks, whose result can be encoded.
abbrev pub Known : List String → TaskDetail → Type 0
Known ids d = (mem d.task_id ids ≡ true) × (is_encodable d.result ≡ true)

-- Every key but those of the records and of the batch's number holds what it held.
abbrev pub Apart : (c : Client) → ExecutionStore → c.Server → c.Server → Type 0
Apart c st s0 s =
    (j : String)
    → (execution_details_key st == j) ≡ false
    → (batch_counter_key st == j) ≡ false
    → c.content s j ≡ c.content s0 j

-- The cluster holds records for exactly these ids, each under its own, which can be read.
abbrev pub Recorded : (c : Client) → ExecutionStore → List String → c.Server → Type 0
Recorded c st ids s =
    (m : Map TaskDetail) × Holds c st s m
    × Keyed m
    × (details_encodable m ≡ true)
    × ((k : String) → mem k (keys m) ≡ mem k ids)

mem-lookup :
    (k : String) (d : TaskDetail) (m : Map TaskDetail) → lookup k m ≡ some d → mem k (keys m) ≡ true
mem-lookup k d m e = mem-keys_of_lookup k m (λ f. cc)

-- An update of a record that is there keeps the ids.
insert-ids :
    (ids : List String) (d : TaskDetail) (m : Map TaskDetail)
    → mem d.task_id ids ≡ true
    → ((k : String) → mem k (keys m) ≡ mem k ids)
    → (k : String) → mem k (keys (insert d.task_id d m)) ≡ mem k ids
insert-ids ids d m listed same k =
    mem-keys-insert k d.task_id d m ∙ elim (String-cases d.task_id k) [
      | inl here_it_is ↦ rw here_it_is.1 (sym (rw here_it_is.0 at listed))
      | inr differ ↦ rw differ.1 (same k)
    ]

or_not_found-ok :
    (id : String) (d : TaskDetail) (o : Option TaskDetail) → or_not_found id o ≡ ok d → o ≡ some d
or_not_found-ok id d none e = cc
or_not_found-ok id d (some w) e = cc

values-Known :
    (ids : List String) (m : Map TaskDetail)
    → Keyed m
    → details_encodable m ≡ true
    → All (λ k. mem k ids ≡ true) (keys m)
    → All (Known ids) (values m)
unfolding values keys details_encodable
values-Known ids [] keyed fits listed = tt
values-Known ids ((k, d) ∷ m) keyed fits listed = (
  (ap (λ (i : String). mem i ids) (keyed.0) ∙ listed.0, ground (arith, fits)),
  values-Known ids m keyed.1 (ground (arith, fits)) listed.1,
)

err-ne-ok {ℓ} : {A : Type ℓ} (x : Error) (a : A) → ◌≡◌ {A = Result A} (err x) (ok a) → ⊥
err-ne-ok x a e = cc

ok_injective {ℓ} : {A : Type ℓ} {a b : A} → ◌≡◌ {A = Result A} (ok a) (ok b) → a ≡ b
ok_injective e = cc

module _ (c : Client) (law : IsEtcd c) (st : ExecutionStore) (ids : List String) where
  Recorded-Unchanged :
      (s s' : c.Server) → Unchanged c s s' → Recorded c st ids s → Recorded c st ids s'
  Recorded-Unchanged s s' still (m, held, keyed, fits, same) =
      (m, still (execution_details_key st) ∙ held, keyed, fits, same)

  -- Each branch of an update leaves the records with the same ids.
  pub update_task-Recorded :
      (d : TaskDetail) (s : c.Server)
      → Known ids d
      → Recorded c st ids s
      → Recorded c st ids (update_task c st d s).1
  update_task-Recorded d s (listed, encodes) (m, held, keyed, fits, same) =
      let fits' = details_encodable-insert d.task_id d m encodes fits in
      let m' = insert d.task_id d m in
      let s' = (update_task c st d s).1 in
      let made : Holds c st s' m' → Recorded c st ids s' =
        λ now_held. (m', now_held, Keyed-insert d m keyed, fits', insert-ids ids d m listed same) in
      elim ((update_task-insert c law st s m held d fits').0) [
        | inl (e, now_held) ↦ made now_held
        | inr (x, e, inl still) ↦ (m, still, keyed, fits, same)
        | inr (x, e, inr now_held) ↦ made now_held
      ]

  pub get_task-Known :
      (id : String) (d : TaskDetail) (s : c.Server)
      → Recorded c st ids s
      → (get_task c st id s).0 ≡ ok d
      → Known ids d
  get_task-Known id d s (m, held, keyed, fits, same) e =
      elim ((get_task-lookup c law st s m held id keyed).0) [
        | inl f ↦
            let found : lookup id m ≡ some d = or_not_found-ok id d (lookup id m) (sym f ∙ e) in
            let named : d.task_id ≡ id = Keyed-task_id id d m keyed found in
            (
              ap (λ (i : String). mem i ids) named ∙ sym (same id) ∙ mem-lookup id d m found,
              lookup-encodable id d m fits found,
            )
        | inr (x, f, g) ↦ absurd (err-ne-ok x d (sym f ∙ e))
      ]

  pub get_all_tasks-Known :
      (ds : List TaskDetail) (s : c.Server)
      → Recorded c st ids s
      → (get_all_tasks c st s).0 ≡ ok ds
      → All (Known ids) ds
  get_all_tasks-Known ds s (m, held, keyed, fits, same) e =
      let listed : All (λ k. mem k ids ≡ true) (keys m) =
        All-mono (λ k. mem k (keys m) ≡ true) (λ k. mem k ids ≡ true) (λ k h. sym (same k) ∙ h)
          (keys m) (mem-All (keys m)) in
      elim ((get_all_tasks-values c law st s m held).0) [
        | inl f ↦
            let read : values m ≡ ds = ok_injective (sym f ∙ e) in
            subst (All (Known ids)) read (values-Known ids m keyed fits listed)
        | inr (x, f, g) ↦ absurd (err-ne-ok x ds (sym f ∙ e))
      ]

-- What holds of the cluster at every moment of a run that began at `s0`.
abbrev pub Sound : (c : Client) → ExecutionStore → List String → c.Server → c.Server → Type 0
Sound c st ids s0 s = Recorded c st ids s × Apart c st s0 s

module _ (c : Client) (law : IsEtcd c) (st : ExecutionStore) (ids : List String)
    (s0 : c.Server) where
  pub Sound-Unchanged :
      (s s' : c.Server) → Unchanged c s s' → Sound c st ids s0 s → Sound c st ids s0 s'
  Sound-Unchanged s s' still (recorded, apart) =
      (Recorded-Unchanged c law st ids s s' still recorded, λ j e f. still j ∙ apart j e f)

  pub get_task-Sound :
      (id : String) (s : c.Server) → Sound c st ids s0 s → Sound c st ids s0 (get_task c st id s).1
  get_task-Sound id s sound =
      let (m, held, keyed, _, _) = sound.0 in
      Sound-Unchanged s _ (get_task-lookup c law st s m held id keyed).1 sound

  pub get_all_tasks-Sound :
      (s : c.Server) → Sound c st ids s0 s → Sound c st ids s0 (get_all_tasks c st s).1
  get_all_tasks-Sound s sound =
      let (m, held, _, _, _) = sound.0 in
      Sound-Unchanged s _ (get_all_tasks-values c law st s m held).1 sound

  pub update_task-Sound :
      (d : TaskDetail) (s : c.Server)
      → Known ids d
      → Sound c st ids s0 s
      → Sound c st ids s0 (update_task c st d s).1
  update_task-Sound d s known (recorded, apart) =
      let (m, held, keyed, fits, same) = recorded in
      let others =
        (update_task-insert c law st s m held d
          (details_encodable-insert d.task_id d m known.1 fits)).1 in
      (update_task-Recorded c law st ids d s known recorded, λ j e f. others j e ∙ apart j e f)

  increment_batch_counter-others :
      (s : c.Server) → OthersKept c (batch_counter_key st) s (increment_batch_counter c st s).1
  unfolding increment_batch_counter
  increment_batch_counter-others s j ne =
      let read = law.get_content (batch_counter_key st) s j in
      elim (Result-cases (c.get (batch_counter_key st) s).0) [
        | inr (x, e) ↦ rw (e, continue) read
        | inl (o, e) ↦
            let next = plain (show (increment (counter_of o))) in
            let s' = (c.get (batch_counter_key st) s).1 in
            let others = put_others law (batch_counter_key st) next s' j ne in
            elim (Result-cases (c.put (batch_counter_key st) next s').0) [
              | inl (u, f) ↦ rw (e, continue, f) (others ∙ read)
              | inr (x, f) ↦ rw (e, continue, f) (others ∙ read)
            ]
      ]

  pub increment_batch_counter-Sound :
      (s : c.Server) → Sound c st ids s0 s → Sound c st ids s0 (increment_batch_counter c st s).1
  increment_batch_counter-Sound s ((m, held, keyed, fits, same), apart) =
      let others = increment_batch_counter-others s in
      (
        (m, others (execution_details_key st) (batch-ne-details st) ∙ held, keyed, fits, same),
        λ j e f. others j f ∙ apart j e f,
      )

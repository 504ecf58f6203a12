-- ===== src/Adaptors/Hana/Steps.antt =====
-- adaptors/hana-adaptor/main.go: what a read, and a report behind a transaction, leave in the
-- database.
use mrmfactorytest.Prelude.{String, List, [], ◌∷◌, Map, ◌≡◌, refl, ◌∙◌, subst, Bool-cases, inl, inr}
use mrmfactorytest.Prelude.Outcomes.{Outcome, value, failure, pure, continue, rename}
use mrmfactorytest.Adaptors.Hana.{HanaError, Driver, Call}
use mrmfactorytest.Adaptors.Hana.Actions.{
  HanaResult, read_remote_subscriptions, read_tables_in_schema, read_virtual_tables_in_schema,
  read_existing_subscriptions,
}
use mrmfactorytest.Adaptors.Hana.Transactions.{
  IsTransactional, in_doubt, AllOrNothing, UnchangedUnlessInDoubt, with_connection-seen,
  execute_query-seen,
}

module _ {d : Driver} (l : IsTransactional d) where
  -- the report behind a transaction, or its error in another
  pub reported-AllOrNothing :
      (f : HanaError → HanaError)
      → ((e : HanaError) → in_doubt (f e) ≡ in_doubt e)
      → (sqls : List String) (before : l.Contents) (res : HanaResult)
        (r : Outcome HanaError (Unit {0})) (s : d.Server)
      → AllOrNothing l sqls before r (l.seen s)
      → let q = continue (rename f r) (λ _ s2. pure {E = HanaError} res s2) s in
        AllOrNothing l sqls before q.0 (l.seen q.1)
  reported-AllOrNothing f same sqls before res (value _) s h = h
  reported-AllOrNothing f same sqls before res (failure e) s h = rw (same e, AllOrNothing) h

  pub AllOrNothing-Unchanged :
      {A : Type 0} (sqls : List String) (before after : l.Contents) (r : Outcome HanaError A)
      → AllOrNothing l sqls before r after
      → UnchangedUnlessInDoubt l r before after
  AllOrNothing-Unchanged sqls before after (value a) h = tt
  AllOrNothing-Unchanged sqls before after (failure e) h = elim (Bool-cases (in_doubt e)) [
    | inl open_end ↦ rw (open_end, UnchangedUnlessInDoubt) tt
    | inr closed ↦ rw (closed, UnchangedUnlessInDoubt) (rw (closed, AllOrNothing) at h)
  ]

  pub read_virtual_tables_in_schema-seen :
      (db : d.Db) (schema : String) (s : d.Server)
      → l.seen (read_virtual_tables_in_schema d db schema s).1 ≡ l.seen s
  unfolding read_virtual_tables_in_schema
  read_virtual_tables_in_schema-seen db schema s = execute_query-seen l db _ (schema ∷ []) s

  pub read_tables_in_schema-seen :
      (db : d.Db) (schema : String) (s : d.Server)
      → l.seen (read_tables_in_schema d db schema s).1 ≡ l.seen s
  unfolding read_tables_in_schema
  read_tables_in_schema-seen db schema s = execute_query-seen l db _ (schema ∷ []) s

  pub read_existing_subscriptions-seen :
      (db : d.Db) (schema : String) (s : d.Server)
      → l.seen (read_existing_subscriptions d db schema s).1 ≡ l.seen s
  unfolding read_existing_subscriptions
  read_existing_subscriptions-seen db schema s = execute_query-seen l db _ (schema ∷ []) s

  pub read_remote_subscriptions-seen :
      (creds : Map String) (schema : String) (s : d.Server)
      → l.seen (read_remote_subscriptions d creds schema s).1 ≡ l.seen s
  unfolding read_remote_subscriptions
  read_remote_subscriptions-seen creds schema s =
      with_connection-seen l creds (λ e. e) _ (λ r after. after ≡ l.seen s) s (λ e. refl)
        (λ db s1 same. execute_query-seen l db _ (schema ∷ []) s1 ∙ same)

  pub failed-Unchanged :
      (A : Type 0) (e : HanaError) (before after : l.Contents)
      → after ≡ before
      → UnchangedUnlessInDoubt l {A = A} (failure e) before after
  failed-Unchanged A e before after same = elim (Bool-cases (in_doubt e)) [
    | inl open_end ↦ rw (open_end, UnchangedUnlessInDoubt) tt
    | inr closed ↦ rw (closed, UnchangedUnlessInDoubt) same
  ]

  -- a call that changes nothing, and what follows its value
  pub read-Unchanged :
      {A B : Type 0} (k : A → Call d B) (before : l.Contents) (r : Outcome HanaError A)
      (s : d.Server)
      → l.seen s ≡ before
      → ((a : A) → UnchangedUnlessInDoubt l (k a s).0 (l.seen s) (l.seen (k a s).1))
      → let q = continue r k s in UnchangedUnlessInDoubt l q.0 before (l.seen q.1)
  read-Unchanged k before (value a) s same rest =
      subst (λ (c : l.Contents). UnchangedUnlessInDoubt l (k a s).0 c (l.seen (k a s).1)) same
        (rest a)
  read-Unchanged {A} {B} k before (failure e) s same rest =
      failed-Unchanged B e before (l.seen s) same

  pub answered-seen :
      {A : Type 0} {m : Outcome HanaError A × d.Server} {a : Outcome HanaError A} {s : d.Server}
      {c : l.Contents}
      → m ≡ (a, s)
      → l.seen m.1 ≡ c
      → l.seen s ≡ c
  answered-seen {A} {m} {a} {s} {c} e h =
      subst (λ (x : Outcome HanaError A × d.Server). l.seen x.1 ≡ c) e h

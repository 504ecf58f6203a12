-- ===== src/Adaptors/Hana/Creation.antt =====
-- adaptors/hana-adaptor/main.go: what `createRemoteSubscriptions` leaves in the database.
use mrmfactorytest.Prelude.{ℕ, String, List, [], ◌∷◌, Map, ◌≡◌, refl, ap, ◌∙◌}
use mrmfactorytest.Prelude.Outcomes.{value, rename}
use mrmfactorytest.Value.{Entries}
use mrmfactorytest.Adaptors.Hana.{
  create_failed, unchecked, tables_unread, views_unread, Driver, execute_in_tx,
}
use mrmfactorytest.Adaptors.Hana.Actions.{
  HanaResult, read_tables_in_schema, read_virtual_tables_in_schema, read_existing_subscriptions,
  create_remote_subscriptions, create_queries, virtual_table_map, created, create_for,
  create_unless,
}
use mrmfactorytest.Adaptors.Hana.Plans.{
  creation_plan, create_queries-plan, mem-keys-virtual_table_map,
}
use mrmfactorytest.Adaptors.Hana.Transactions.{
  IsTransactional, AllOrNothing, UnchangedUnlessInDoubt, with_connection-seen,
  execute_in_tx-AllOrNothing,
}
use mrmfactorytest.Adaptors.Hana.Steps.{
  reported-AllOrNothing, AllOrNothing-Unchanged, read_virtual_tables_in_schema-seen,
  read_tables_in_schema-seen, read_existing_subscriptions-seen, failed-Unchanged, read-Unchanged,
  answered-seen,
}

module _ {d : Driver} (l : IsTransactional d) where
  pub created-AllOrNothing :
      (creds : Map String) (schema : String) (q : List String × ℕ) (s : d.Server)
      → let r = created d creds schema q s in AllOrNothing l q.0 (l.seen s) r.0 (l.seen r.1)
  created-AllOrNothing creds schema ([], n) s = refl
  created-AllOrNothing creds schema (sql ∷ sqls, n) s =
      let tx = execute_in_tx d creds (sql ∷ sqls) s in
      reported-AllOrNothing l create_failed (λ e. refl) (sql ∷ sqls) (l.seen s) _ tx.0 tx.1
        (execute_in_tx-AllOrNothing l creds (sql ∷ sqls) s)

  pub create_for-Unchanged :
      (creds : Map String) (schema : String) (db : d.Db) (tables : List Entries) (s : d.Server)
      → let r = create_for d creds schema db tables s in
        UnchangedUnlessInDoubt l r.0 (l.seen s) (l.seen r.1)
  create_for-Unchanged creds schema db [] s = tt
  create_for-Unchanged creds schema db (t ∷ tables) s =
      let (answer, s1) = read_virtual_tables_in_schema d db schema s in
      read-Unchanged l _ (l.seen s) (rename views_unread answer) s1
        (read_virtual_tables_in_schema-seen l db schema s)
        (λ vts.
          let q = create_queries schema (t ∷ tables) (virtual_table_map vts []) in
          let r = created d creds schema q s1 in
          AllOrNothing-Unchanged l q.0 (l.seen s1) (l.seen r.1) r.0
            (created-AllOrNothing creds schema q s1))

  pub create_unless-Unchanged :
      (creds : Map String) (schema : String) (db : d.Db) (subs : List Entries) (s : d.Server)
      → let r = create_unless d creds schema db subs s in
        UnchangedUnlessInDoubt l r.0 (l.seen s) (l.seen r.1)
  create_unless-Unchanged creds schema db (sub ∷ subs) s = tt
  create_unless-Unchanged creds schema db [] s =
      let (answer, s1) = read_tables_in_schema d db schema s in
      read-Unchanged l (create_for d creds schema db) (l.seen s) (rename tables_unread answer) s1
        (read_tables_in_schema-seen l db schema s)
        (λ tables. create_for-Unchanged creds schema db tables s1)

  pub create_remote_subscriptions-Unchanged :
      (creds : Map String) (source schema : String) (s : d.Server)
      → let r = create_remote_subscriptions d creds source schema s in
        UnchangedUnlessInDoubt l r.0 (l.seen s) (l.seen r.1)
  unfolding create_remote_subscriptions
  create_remote_subscriptions-Unchanged creds source schema s =
      with_connection-seen l creds (λ e. e) _
        (λ r after. UnchangedUnlessInDoubt l r (l.seen s) after) s
        (λ e. failed-Unchanged l HanaResult e (l.seen s) (l.seen s) refl)
        (λ db s1 same.
          let (answer, s2) = read_existing_subscriptions d db schema s1 in
          read-Unchanged l (create_unless d creds schema db) (l.seen s) (rename unchecked answer) s2
            (read_existing_subscriptions-seen l db schema s1 ∙ same)
            (λ subs. create_unless-Unchanged creds schema db subs s2))

  pub create_for-AllOrNothing :
      (creds : Map String) (schema : String) (db : d.Db) (tables views : List Entries)
      (s s' : d.Server)
      → read_virtual_tables_in_schema d db schema s ≡ (value views, s')
      → let r = create_for d creds schema db tables s in
        AllOrNothing l (creation_plan schema tables views) (l.seen s) r.0 (l.seen r.1)
  create_for-AllOrNothing creds schema db [] views s s' read = refl
  create_for-AllOrNothing creds schema db (t ∷ tables) views s s' read =
      let q = create_queries schema (t ∷ tables) (virtual_table_map views []) in
      let r = created d creds schema q s' in
      let seen_before : l.seen s' ≡ l.seen s =
        answered-seen l read (read_virtual_tables_in_schema-seen l db schema s) in
      let planned : q.0 ≡ creation_plan schema (t ∷ tables) views =
        ap (λ (x : List String × ℕ). x.0)
          (create_queries-plan schema (t ∷ tables) views _
            (λ table. mem-keys-virtual_table_map table views)) in
      rw (read, ← planned, ← seen_before) (created-AllOrNothing creds schema q s')

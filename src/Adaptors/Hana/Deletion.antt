-- ===== src/Adaptors/Hana/Deletion.antt =====
-- adaptors/hana-adaptor/main.go: what `deleteRemoteSubscriptions` leaves in the database.
use mrmfactorytest.Prelude.{String, List, [], ◌∷◌, Map, refl, subst}
use mrmfactorytest.Prelude.Outcomes.{rename}
use mrmfactorytest.Value.{Entries}
use mrmfactorytest.Adaptors.Hana.{delete_failed, unread_before_delete, Driver, execute_in_tx}
use mrmfactorytest.Adaptors.Hana.Actions.{
  read_remote_subscriptions, delete_remote_subscriptions, delete_queries, deleted,
}
use mrmfactorytest.Adaptors.Hana.Plans.{deletion_plan, delete_queries-plan}
use mrmfactorytest.Adaptors.Hana.Transactions.{
  IsTransactional, AllOrNothing, UnchangedUnlessInDoubt, execute_in_tx-AllOrNothing,
}
use mrmfactorytest.Adaptors.Hana.Steps.{
  reported-AllOrNothing, AllOrNothing-Unchanged, read_remote_subscriptions-seen, read-Unchanged,
}

module _ {d : Driver} (l : IsTransactional d) where
  pub deleted-AllOrNothing :
      (creds : Map String) (source schema : String) (subs : List Entries) (s : d.Server)
      → let r = deleted d creds source schema subs s in
        AllOrNothing l (deletion_plan source subs) (l.seen s) r.0 (l.seen r.1)
  deleted-AllOrNothing creds source schema [] s = refl
  deleted-AllOrNothing creds source schema (sub ∷ subs) s =
      let sqls = delete_queries source (sub ∷ subs) in
      let r = deleted d creds source schema (sub ∷ subs) s in
      let tx = execute_in_tx d creds sqls s in
      subst (λ (plan : List String). AllOrNothing l plan (l.seen s) r.0 (l.seen r.1))
        (delete_queries-plan source sub subs)
        (reported-AllOrNothing l delete_failed (λ e. refl) sqls (l.seen s) _ tx.0 tx.1
          (execute_in_tx-AllOrNothing l creds sqls s))

  pub delete_remote_subscriptions-Unchanged :
      (creds : Map String) (source schema : String) (s : d.Server)
      → let r = delete_remote_subscriptions d creds source schema s in
        UnchangedUnlessInDoubt l r.0 (l.seen s) (l.seen r.1)
  unfolding delete_remote_subscriptions
  delete_remote_subscriptions-Unchanged creds source schema s =
      let (answer, s1) = read_remote_subscriptions d creds schema s in
      read-Unchanged l (deleted d creds source schema) (l.seen s)
        (rename unread_before_delete answer) s1 (read_remote_subscriptions-seen l creds schema s)
        (λ subs.
          let r = deleted d creds source schema subs s1 in
          AllOrNothing-Unchanged l (deletion_plan source subs) (l.seen s1) (l.seen r.1) r.0
            (deleted-AllOrNothing creds source schema subs s1))

-- ===== src/Adaptors/Hana/Transactions.antt =====
-- adaptors/hana-adaptor/main.go: what a transaction leaves in the database, on a driver whose calls
-- behave as database/sql documents them.
use mrmfactorytest.Prelude.{
  String, none, some, List, [], ◌∷◌, Map, Bool, true, false, ◌≡◌, ◌⊎◌, refl, ◌∙◌, ap, subst, inl,
  inr, Option-cases,
}
use mrmfactorytest.Prelude.Outcomes.{Outcome, value, failure, Outcome-cases, continue, checked}
use mrmfactorytest.Adaptors.Hana.{
  HanaError, commit_failed, no_connection, delete_failed, create_failed, Driver, Call,
  get_db_connection, execute_query, exec_all, execute_in_tx, with_connection, in_transaction, dsn,
}

-- The contents are what others see. A statement changes what its transaction has pending, a commit
-- makes that the contents, a rollback drops it. An error of a commit does not tell which of the two
-- happened.
pub record IsTransactional (d : Driver) : Type 1 where
  pub Contents : Type 0
  pub seen : d.Server → Contents
  pub pending : d.Tx → d.Server → Contents
  pub effect : String → Contents → Contents
  pub ping-seen : (db : d.Db) (s : d.Server) → seen (d.ping db s).1 ≡ seen s
  pub close-seen : (db : d.Db) (s : d.Server) → seen (d.close db s) ≡ seen s
  -- for the SELECTs of this code
  pub query-seen :
      (db : d.Db) (sql : String) (args : List String) (s : d.Server)
      → seen (d.query db sql args s).1 ≡ seen s
  pub begin-seen : (db : d.Db) (s : d.Server) → seen (d.begin db s).1 ≡ seen s
  pub begin-pending :
      (db : d.Db) (s : d.Server) (tx : d.Tx)
      → (d.begin db s).0 ≡ value tx
      → pending tx (d.begin db s).1 ≡ seen s
  pub exec-seen : (tx : d.Tx) (sql : String) (s : d.Server) → seen (d.exec tx sql s).1 ≡ seen s
  pub exec-pending :
      (tx : d.Tx) (sql : String) (s : d.Server)
      → (d.exec tx sql s).0 ≡ none
      → pending tx (d.exec tx sql s).1 ≡ effect sql (pending tx s)
  pub rollback-seen : (tx : d.Tx) (s : d.Server) → seen (d.rollback tx s) ≡ seen s
  pub commit_made :
      (tx : d.Tx) (s : d.Server) → (d.commit tx s).0 ≡ none → seen (d.commit tx s).1 ≡ pending tx s
  pub commit_in_doubt :
      (tx : d.Tx) (s : d.Server) (e : String)
      → (d.commit tx s).0 ≡ some e
      → (seen (d.commit tx s).1 ≡ seen s) ⊎ (seen (d.commit tx s).1 ≡ pending tx s)

-- The error is that of a commit.
abbrev pub in_doubt : HanaError → Bool
in_doubt (commit_failed e) = true
in_doubt (delete_failed e) = in_doubt e
in_doubt (create_failed e) = in_doubt e
in_doubt _ = false

module _ {d : Driver} (l : IsTransactional d) where
  -- the contents after the statements, one after the other
  abbrev pub apply_all : List String → l.Contents → l.Contents
  apply_all [] c = c
  apply_all (sql ∷ more) c = apply_all more (l.effect sql c)

  -- After a success every statement has taken effect, in order; after an error none has, or, where
  -- the error is that of the commit, none or all.
  abbrev pub AllOrNothing :
      {A : Type 0} → List String → l.Contents → Outcome HanaError A → l.Contents → Type 0
  AllOrNothing sqls before (value a) after = after ≡ apply_all sqls before
  AllOrNothing sqls before (failure e) after = elim (in_doubt e) [
    | true ↦ (after ≡ before) ⊎ (after ≡ apply_all sqls before)
    | false ↦ after ≡ before
  ]

  -- Only an error of a commit leaves the contents open.
  abbrev pub UnchangedUnlessInDoubt :
      {A : Type 0} → Outcome HanaError A → l.Contents → l.Contents → Type 0
  UnchangedUnlessInDoubt (value a) before after = Unit
  UnchangedUnlessInDoubt (failure e) before after = elim (in_doubt e) [
    | true ↦ Unit
    | false ↦ after ≡ before
  ]

  abbrev ExecOutcome :
      d.Tx → List String → d.Server → Outcome HanaError (Unit {0}) → d.Server → Type 0
  ExecOutcome tx sqls s (value _) s' =
      (l.pending tx s' ≡ apply_all sqls (l.pending tx s)) × (l.seen s' ≡ l.seen s)
  ExecOutcome tx sqls s (failure e) s' = (in_doubt e ≡ false) × (l.seen s' ≡ l.seen s)

  -- a statement that was made, before the rest
  ExecOutcome-cons :
      (tx : d.Tx) (sql : String) (more : List String) (s s1 s2 : d.Server)
      → (l.pending tx s1 ≡ l.effect sql (l.pending tx s))
      → (l.seen s1 ≡ l.seen s)
      → (r : Outcome HanaError (Unit {0})) → ExecOutcome tx more s1 r s2
      → ExecOutcome tx (sql ∷ more) s r s2
  ExecOutcome-cons tx sql more s s1 s2 made same (value _) h =
      (h.0 ∙ ap (apply_all more) made, h.1 ∙ same)
  ExecOutcome-cons tx sql more s s1 s2 made same (failure e) h = (h.0, h.1 ∙ same)

  exec_all-ExecOutcome :
      (tx : d.Tx) (sqls : List String) (s : d.Server)
      → ExecOutcome tx sqls s (exec_all d tx sqls s).0 (exec_all d tx sqls s).1
  unfolding exec_all
  exec_all-ExecOutcome tx [] s = (refl, refl)
  exec_all-ExecOutcome tx (sql ∷ more) s = elim (Option-cases (d.exec tx sql s).0) [
    | inl e ↦
        let s1 = (d.exec tx sql s).1 in
        rw e (
          ExecOutcome-cons tx sql more s s1 (exec_all d tx more s1).1 (l.exec-pending tx sql s e)
            (l.exec-seen tx sql s) (exec_all d tx more s1).0 (exec_all-ExecOutcome tx more s1))
    | inr (m, e) ↦ rw e (refl, l.rollback-seen tx (d.exec tx sql s).1 ∙ l.exec-seen tx sql s)
  ]

  commit-AllOrNothing :
      (tx : d.Tx) (sqls : List String) (before : l.Contents) (s : d.Server)
      → (l.pending tx s ≡ apply_all sqls before) × (l.seen s ≡ before)
      → let r = checked commit_failed (d.commit tx s) in AllOrNothing sqls before r.0 (l.seen r.1)
  commit-AllOrNothing tx sqls before s h = elim (Option-cases (d.commit tx s).0) [
    | inl e ↦ rw e (l.commit_made tx s e ∙ h.0)
    | inr (m, e) ↦ rw e (elim (l.commit_in_doubt tx s m e) [
      | inl kept ↦ inl (kept ∙ h.1)
      | inr made ↦ inr (made ∙ h.0)
    ])
  ]

  -- the statements ran, or were rolled back, in a transaction that began on `before`
  ran-AllOrNothing :
      (tx : d.Tx) (sqls : List String) (before : l.Contents) (s s' : d.Server)
      → l.pending tx s ≡ before
      → l.seen s ≡ before
      → (r : Outcome HanaError (Unit {0})) → ExecOutcome tx sqls s r s'
      → let q = continue r (λ x s2. checked commit_failed (d.commit tx s2)) s' in
        AllOrNothing sqls before q.0 (l.seen q.1)
  ran-AllOrNothing tx sqls before s s' begun same (value _) h =
      commit-AllOrNothing tx sqls before s' (h.0 ∙ ap (apply_all sqls) begun, h.1 ∙ same)
  ran-AllOrNothing tx sqls before s s' begun same (failure e) h =
      rw (h.0, AllOrNothing) (h.1 ∙ same)

  in_transaction-AllOrNothing :
      (sqls : List String) (db : d.Db) (s : d.Server)
      → let r = in_transaction d sqls db s in AllOrNothing sqls (l.seen s) r.0 (l.seen r.1)
  in_transaction-AllOrNothing sqls db s = elim (Outcome-cases (d.begin db s).0) [
    | inr (e, refused) ↦ rw refused (l.begin-seen db s)
    | inl (tx, begun) ↦
        let s1 = (d.begin db s).1 in
        rw begun (
          ran-AllOrNothing tx sqls (l.seen s) s1 (exec_all d tx sqls s1).1
            (l.begin-pending db s tx begun) (l.begin-seen db s) (exec_all d tx sqls s1).0
            (exec_all-ExecOutcome tx sqls s1))
  ]

  -- A connection that is made or refused changes nothing.
  pub get_db_connection-seen :
      (creds : Map String) (s : d.Server) → l.seen (get_db_connection d creds s).1 ≡ l.seen s
  unfolding get_db_connection
  get_db_connection-seen creds s = elim (Outcome-cases (d.open_db (dsn creds))) [
    | inr (e, bad) ↦ rw bad refl
    | inl (db, made) ↦ rw made (elim (Option-cases (d.ping db s).0) [
      | inl up ↦ rw up (l.ping-seen db s)
      | inr (e, down) ↦ rw down (l.close-seen db (d.ping db s).1 ∙ l.ping-seen db s)
    ])
  ]

  pub execute_query-seen :
      (db : d.Db) (sql : String) (args : List String) (s : d.Server)
      → l.seen (execute_query d db sql args s).1 ≡ l.seen s
  unfolding execute_query
  execute_query-seen db sql args s = elim (Outcome-cases (d.query db sql args s).0) [
    | inl (r, e) ↦ rw e (l.query-seen db sql args s)
    | inr (f, e) ↦ rw e (l.query-seen db sql args s)
  ]

  module _ {A : Type 0} (creds : Map String) (f : HanaError → HanaError) (body : d.Db → Call d A)
      (Q : Outcome HanaError A → l.Contents → Type 0) (s : d.Server)
      (refused : (e : HanaError) → Q (failure (f e)) (l.seen s))
      (done : (db : d.Db) (s1 : d.Server)
        → l.seen s1 ≡ l.seen s
        → Q (body db s1).0 (l.seen (body db s1).1)) where
    -- what holds of a refused connection and of the body holds of the whole
    pub with_connection-seen : let r = with_connection d creds f body s in Q r.0 (l.seen r.1)
    with_connection-seen = elim (Outcome-cases (get_db_connection d creds s).0) [
      | inr (e, no_db) ↦ rw (no_db, get_db_connection-seen creds s) (refused e)
      | inl (db, made) ↦
          let s1 = (get_db_connection d creds s).1 in
          rw (made, l.close-seen db (body db s1).1) (done db s1 (get_db_connection-seen creds s))
    ]

  -- One connection, one transaction: every statement takes effect, in order, or none does.
  pub execute_in_tx-AllOrNothing :
      (creds : Map String) (sqls : List String) (s : d.Server)
      → let r = execute_in_tx d creds sqls s in AllOrNothing sqls (l.seen s) r.0 (l.seen r.1)
  unfolding execute_in_tx
  execute_in_tx-AllOrNothing creds [] s = refl
  execute_in_tx-AllOrNothing creds (sql ∷ more) s =
      with_connection-seen creds no_connection (in_transaction d (sql ∷ more))
        (λ r after. AllOrNothing (sql ∷ more) (l.seen s) r after) s (λ e. refl)
        (λ db s1 same.
          subst
            (λ (c : l.Contents).
              AllOrNothing (sql ∷ more) c (in_transaction d (sql ∷ more) db s1).0
                (l.seen (in_transaction d (sql ∷ more) db s1).1))
            same (in_transaction-AllOrNothing (sql ∷ more) db s1))

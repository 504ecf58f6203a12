-- ===== src/Tests/Hana.antt =====
-- The HANA plugin on a database in memory that keeps the statements that were committed.
use mrmfactorytest.Prelude.{
  String, Option, none, some, List, [], ◌∷◌, ◌++◌, Map, ◌≡◌, refl, contains, has_prefix,
  if◌then◌else◌,
}
use mrmfactorytest.Prelude.Outcomes.{Outcome, value}
use mrmfactorytest.Value.{Entries, text, object, end, entry, field, set_field, as_text}
use mrmfactorytest.Adaptors.Hana.{
  Driver, Rows, Fetched, row, bytes, dsn, to_row, read_rows, get_db_connection, execute_query,
  exec_all, execute_in_tx,
}
use mrmfactorytest.Adaptors.Hana.Actions.{
  read_remote_subscriptions, delete_remote_subscriptions, column, delete_queries, drop_queries,
  suspend_capture, resume_capture, drop_subscription,
}
use mrmfactorytest.Adaptors.Hana.Transactions.{IsTransactional}

record Memory : Type 0 where
  committed : List String
  uncommitted : List String

-- the rows of one column
abbrev answer : String → List Fetched → Outcome String Rows
answer name fetched =
    value (record { columns = value (name ∷ []); fetched = fetched; ended = none })

abbrev answer_to : String → Outcome String Rows
answer_to sql =
    if contains "M_TABLES" sql
    then answer "TABLE_NAME" (row (bytes "ORDERS" ∷ []) ∷ row (bytes "NOTES" ∷ []) ∷ [])
    else if contains "VIRTUAL_TABLES" sql
    then answer "TABLE_NAME" (row (bytes "VT_ORDERS" ∷ []) ∷ [])
    else if contains "TARGET_OBJECT_NAME" sql
    then answer "SUBSCRIPTION_NAME" (row (bytes "SUB_A" ∷ []) ∷ row (bytes "SUB_B" ∷ []) ∷ [])
    else answer "SUBSCRIPTION_NAME" []

-- It refuses the statement that drops SUB_B.
abbrev memory : Driver
memory = record {
  Server = Memory;
  Db = Unit {0};
  Tx = Unit {0};
  open_db = λ dsn. value tt;
  ping = λ db s. (none, s);
  close = λ db s. s;
  query = λ db sql args s. (answer_to sql, s);
  begin = λ db s. (value tt, record s { uncommitted = s.committed });
  exec = λ tx sql s. (
    if contains "SUB_B" sql then some "refused" else none,
    record s { uncommitted = s.uncommitted ++ (sql ∷ []) },
  );
  rollback = λ tx s. s;
  commit = λ tx s. (none, record s { committed = s.uncommitted });
}

none-ne-some : (m : String) → ◌≡◌ {A = Option String} none (some m) → ⊥
none-ne-some m e = cc

abbrev memory_laws : IsTransactional memory
memory_laws = record {
  Contents = List String;
  seen = λ s. s.committed;
  pending = λ tx s. s.uncommitted;
  effect = λ sql c. c ++ (sql ∷ []);
  ping-seen = λ db s. refl;
  close-seen = λ db s. refl;
  query-seen = λ db sql args s. refl;
  begin-seen = λ db s. refl;
  begin-pending = λ db s tx e. refl;
  exec-seen = λ tx sql s. refl;
  exec-pending = λ tx sql s e. refl;
  rollback-seen = λ tx s. refl;
  commit_made = λ tx s e. refl;
  commit_in_doubt = λ tx s m e. absurd (none-ne-some m e);
}

abbrev empty : Memory
empty = record { committed = []; uncommitted = [] }

abbrev creds : Map String
creds = []

abbrev subscription : String → Entries
subscription name = entry "SUBSCRIPTION_NAME" (text name) end

abbrev table : String → Entries
table name = entry "TABLE_NAME" (text name) end

abbrev subscriptions : List Entries
subscriptions = subscription "SUB_A" ∷ subscription "SUB_B" ∷ []

nothing-deleted : (delete_remote_subscriptions memory creds "SRC" "S" empty).1.committed ≡ []
unfolding delete_remote_subscriptions delete_queries drop_queries suspend_capture resume_capture
    drop_subscription column field as_text execute_in_tx exec_all dsn read_remote_subscriptions
    get_db_connection execute_query read_rows to_row set_field contains has_prefix
nothing-deleted = refl

abbrev context : Entries
context =
    entry "action" (text "deleteRemoteSubscriptions")
      (entry "credentials" (object end) (entry "targetSchema" (text "S") end))

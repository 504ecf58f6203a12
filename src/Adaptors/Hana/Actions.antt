-- ===== src/Adaptors/Hana/Actions.antt =====
-- adaptors/hana-adaptor/main.go: the actions on the remote subscriptions, and `Execute`.
use Prim.Native.String.{◌++◌}
use mrmfactorytest.Prelude.{
  ℕ, suc, String, Option, none, some, List, [], ◌∷◌, length, Map, insert, mem, keys, ◌==◌, not,
  if◌then◌else◌,
}
use mrmfactorytest.Prelude.Outcomes.{
  Outcome, value, failure, pure, raise, from_outcome, ◌>>=◌, ◌>>◌, wrap, rename,
}
use mrmfactorytest.Value.{Value, Entries, text, other, end, entry, field, as_text}
use mrmfactorytest.Store.Decimal.{pos, show}
use mrmfactorytest.Adaptors.Hana.{
  HanaError, bad_parameter, credentials_error, unknown_action, unread_before_delete, delete_failed,
  unchecked, tables_unread, views_unread, create_failed, Driver, Call, with_connection,
  execute_query, execute_in_tx,
}
use mrmfactorytest.Adaptors.Hana.Context.{get_string_from_context, get_credentials_from_context}

-- What an action returns: rows, or a map with a status and a message.
pub data HanaResult : Type 0 where
  rows : List Entries → HanaResult
  report : Entries → HanaResult

-- a text in an identifier's quotes
abbrev quoted : String → String
quoted s = "\"" ++ (s ++ "\"")

abbrev count : ℕ → String
count n = show (pos n)

abbrev status : String → Entries → Entries
status s m = entry "status" (text s) m

abbrev message : String → Entries
message s = entry "message" (text s) end

-- name, ok := row[key].(string)
unfoldable pub column : String → Entries → Option String
column key r = elim (field key r) [ none ↦ none | some v ↦ as_text v ]

unfoldable pub suspend_capture : String → String
suspend_capture source = "ALTER REMOTE SOURCE " ++ (quoted source ++ " SUSPEND CAPTURE")

unfoldable pub resume_capture : String → String
resume_capture source = "ALTER REMOTE SOURCE " ++ (quoted source ++ " RESUME CAPTURE")

unfoldable pub drop_subscription : String → String
drop_subscription name = "DROP REMOTE SUBSCRIPTION " ++ quoted name

-- The loop of `deleteRemoteSubscriptions`, with what is appended behind it.
unfoldable pub drop_queries : List Entries → List String → List String
drop_queries [] after = after
drop_queries (sub ∷ more) after =
    let rest = drop_queries more after in
    elim (column "SUBSCRIPTION_NAME" sub) [
      | none ↦ rest
      | some name ↦ drop_subscription name ∷ rest
    ]

unfoldable pub delete_queries : String → List Entries → List String
delete_queries source subs = suspend_capture source ∷ drop_queries subs (resume_capture source ∷ [])

-- The loop that fills virtualTableMap.
unfoldable pub virtual_table_map : List Entries → Map (Unit {0}) → Map (Unit {0})
virtual_table_map [] m = m
virtual_table_map (vt ∷ more) m =
    virtual_table_map more
      (elim (column "TABLE_NAME" vt) [ none ↦ m | some name ↦ insert name tt m ])

abbrev pub excluded : String
excluded = "SAP_TISCE_DEMO_DOCUMENTCHUNK"

unfoldable pub truncate_table : String → String → String
truncate_table schema table = "TRUNCATE TABLE " ++ (quoted schema ++ ("." ++ quoted table))

unfoldable pub create_subscription : String → String → String
create_subscription schema table =
    "CREATE REMOTE SUBSCRIPTION "
    ++ (quoted ("SUB_" ++ table)
        ++ (" ON "
            ++ (quoted schema
                ++ ("."
                    ++ (quoted ("VT_" ++ table)
                        ++ (" TARGET TABLE " ++ (quoted schema ++ ("." ++ quoted table))))))))

unfoldable pub distribute : String → String
distribute table = "ALTER REMOTE SUBSCRIPTION " ++ (quoted ("SUB_" ++ table) ++ " DISTRIBUTE")

abbrev pub with_queries : String → String → List String × ℕ → List String × ℕ
with_queries schema table (queries, created) = (
  truncate_table schema table ∷ create_subscription schema table ∷ distribute table ∷ queries,
  suc created,
)

abbrev pub table_step : String → Map (Unit {0}) → Option String → List String × ℕ → List String × ℕ
table_step schema vts none rest = rest
table_step schema vts (some table) rest =
    if table == excluded
    then rest
    else if not (mem ("VT_" ++ table) (keys vts))
    then rest
    else with_queries schema table rest

-- The loop over the tables: the queries, and createdCount.
unfoldable pub create_queries : String → List Entries → Map (Unit {0}) → List String × ℕ
create_queries schema [] vts = ([], 0)
create_queries schema (table ∷ more) vts =
    table_step schema vts (column "TABLE_NAME" table) (create_queries schema more vts)

module _ (d : Driver) where
  unfoldable pub read_remote_subscriptions : Map String → String → Call d (List Entries)
  read_remote_subscriptions creds schema =
      with_connection d creds (λ e. e)
        λ db.
          execute_query d db
            "SELECT SUBSCRIPTION_NAME, TARGET_OBJECT_NAME FROM \"SYS\".\"REMOTE_SUBSCRIPTIONS\" WHERE \"TARGET_OBJECT_SCHEMA_NAME\" = ?"
            (schema ∷ [])

  abbrev pub deleted : Map String → String → String → List Entries → Call d HanaResult
  deleted creds source schema [] = pure (
      report (
        status "success"
          (message ("No remote subscriptions found to delete for schema: " ++ schema))))
  deleted creds source schema (sub ∷ subs) = do
    wrap delete_failed (execute_in_tx d creds (delete_queries source (sub ∷ subs)))
    pure (
        report (
          status "success" (
            entry "deleted_count" (other (length (sub ∷ subs))) (
              message (
                "Successfully deleted "
                ++ (count (length (sub ∷ subs)) ++ " remote subscriptions."))))))

  unfoldable pub delete_remote_subscriptions : Map String → String → String → Call d HanaResult
  delete_remote_subscriptions creds source schema = do
    subs ← wrap unread_before_delete (read_remote_subscriptions creds schema)
    deleted creds source schema subs

  unfoldable pub read_tables_in_schema : d.Db → String → Call d (List Entries)
  read_tables_in_schema db schema =
      execute_query d db
        "SELECT TABLE_NAME, RECORD_COUNT FROM \"SYS\".\"M_TABLES\" WHERE \"SCHEMA_NAME\" = ?"
        (schema ∷ [])

  unfoldable pub read_virtual_tables_in_schema : d.Db → String → Call d (List Entries)
  read_virtual_tables_in_schema db schema =
      execute_query d db
        "SELECT TABLE_NAME, REMOTE_OWNER_NAME, REMOTE_OBJECT_NAME FROM \"SYS\".\"VIRTUAL_TABLES\" WHERE \"SCHEMA_NAME\" = ? AND \"TABLE_NAME\" LIKE 'VT_%'"
        (schema ∷ [])

  unfoldable pub read_existing_subscriptions : d.Db → String → Call d (List Entries)
  read_existing_subscriptions db schema =
      execute_query d db
        "SELECT SUBSCRIPTION_NAME FROM \"SYS\".\"REMOTE_SUBSCRIPTIONS\" WHERE \"TARGET_OBJECT_SCHEMA_NAME\" = ?"
        (schema ∷ [])

  abbrev pub created : Map String → String → List String × ℕ → Call d HanaResult
  created creds schema ([], n) =
      pure (report (status "success" (message "No subscriptions to create.")))
  created creds schema (sql ∷ sqls, n) = do
    wrap create_failed (execute_in_tx d creds (sql ∷ sqls))
    pure (
        report (
          status "success" (
            entry "created_count" (other n) (
              message (
                "Successfully created "
                ++ (count n ++ (" remote subscriptions for schema " ++ (schema ++ "."))))))))

  -- Steps 3 to 5.
  abbrev pub create_for : Map String → String → d.Db → List Entries → Call d HanaResult
  create_for creds schema db [] = pure (
      report (
        status "success"
          (message ("No Tables found in schema " ++ (schema ++ " for remote subscriptions.")))))
  create_for creds schema db (table ∷ tables) = do
    vts ← wrap views_unread (read_virtual_tables_in_schema db schema)
    created creds schema (create_queries schema (table ∷ tables) (virtual_table_map vts []))

  -- Steps 2 to 5.
  abbrev pub create_unless : Map String → String → d.Db → List Entries → Call d HanaResult
  create_unless creds schema db (sub ∷ subs) = pure (
      report (
        status "skipped" (
          message (
            count (length (sub ∷ subs))
            ++ (" Remote subscriptions already exist for schema "
                ++ (schema ++ "! Skipping creation."))))))
  create_unless creds schema db [] = do
    tables ← wrap tables_unread (read_tables_in_schema db schema)
    create_for creds schema db tables

  unfoldable pub create_remote_subscriptions : Map String → String → String → Call d HanaResult
  create_remote_subscriptions creds source schema =
      with_connection d creds (λ e. e)
        λ db. do
          subs ← wrap unchecked (read_existing_subscriptions db schema)
          create_unless creds schema db subs

  unfoldable pub dispatch : String → Map String → String → String → Call d HanaResult
  dispatch action creds source schema =
      if action == "deleteRemoteSubscriptions"
      then delete_remote_subscriptions creds source schema
      else if action == "createRemoteSubscriptions"
      then create_remote_subscriptions creds source schema
      else if action == "readRemoteSubscriptions"
      then (do subs ← read_remote_subscriptions creds schema; pure (rows subs))
      else raise (unknown_action action)

  -- A missing remoteSource is logged, and is "" from there on.
  abbrev pub or_empty : Outcome HanaError String → String
  or_empty (value s) = s
  or_empty (failure e) = ""

  unfoldable pub execute : (Value → Option (List (Value × Value))) → Entries → Call d HanaResult
  execute as_loose_map context = do
    action ← from_outcome (rename bad_parameter (get_string_from_context context "action"))
    creds ←
        from_outcome (
          rename credentials_error
            (get_credentials_from_context as_loose_map context "credentials"))
    schema ← from_outcome (rename bad_parameter (get_string_from_context context "targetSchema"))
    dispatch action creds (or_empty (get_string_from_context context "remoteSource")) schema

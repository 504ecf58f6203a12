-- ===== src/Adaptors/Hana.antt =====
-- adaptors/hana-adaptor/main.go: the remote subscriptions of a SAP HANA schema. database/sql and the
-- driver are an interface. The closing of `rows`, the pauses and the log are left out.
pub mod Context
pub mod Actions
pub mod Transactions
pub mod Plans
pub mod Steps
pub mod Deletion
pub mod Creation
pub mod Effects
use Prim.Native.String.{◌++◌}
use mrmfactorytest.Prelude.{String, Option, none, some, List, [], ◌∷◌, Map, lookup}
use mrmfactorytest.Prelude.Outcomes.{
  Outcome, value, failure, Action, pure, raise, from_outcome, ◌>>=◌, ◌>>◌, wrap, checked,
}
use mrmfactorytest.Value.{Value, Entries, null, text, end, set_field}

pub data HanaError : Type 0 where
  -- the errors of the context
  missing_key not_text : String → HanaError
  no_credentials bad_credentials : String → HanaError
  missing_credential credential_not_text : String → HanaError
  bad_parameter credentials_error : HanaError → HanaError
  unknown_action : String → HanaError
  -- the errors of a connection and of a query
  bad_connector unreachable : String → HanaError
  query_failed : String → String → HanaError
  no_columns unreadable_row rows_broken : String → HanaError
  -- the errors of a transaction
  no_connection : HanaError → HanaError
  no_transaction : String → HanaError
  statement_failed : String → String → HanaError
  commit_failed : String → HanaError
  -- the errors of the actions
  unread_before_delete delete_failed : HanaError → HanaError
  unchecked tables_unread views_unread create_failed : HanaError → HanaError

-- What rows.Scan puts in one column: a []byte, or any other value.
pub data Cell : Type 0 where
  bytes : String → Cell
  plain : Value → Cell

-- What one round of rows.Next finds: a row, or an error of rows.Scan.
pub data Fetched : Type 0 where
  row : List Cell → Fetched
  unscanned : String → Fetched

-- The answer of db.Query; `ended` is rows.Err.
pub record Rows : Type 0 where
  pub columns : Outcome String (List String)
  pub fetched : List Fetched
  pub ended : Option String

pub record Driver : Type 1 where
  pub Server : Type 0
  pub Db : Type 0
  pub Tx : Type 0
  -- driver.NewDSNConnector and sql.OpenDB
  pub open_db : String → Outcome String Db
  pub ping : Db → Server → Option String × Server
  pub close : Db → Server → Server
  pub query : Db → String → List String → Server → Outcome String Rows × Server
  pub begin : Db → Server → Outcome String Tx × Server
  pub exec : Tx → String → Server → Option String × Server
  pub rollback : Tx → Server → Server
  pub commit : Tx → Server → Option String × Server

-- credentials[k]
abbrev credential : String → Map String → String
credential k creds = elim (lookup k creds) [ none ↦ "" | some v ↦ v ]

unfoldable pub dsn : Map String → String
dsn creds =
    "hdb://"
    ++ (credential "SAPHANACLOUD_USERNAME" creds
        ++ (":"
            ++ (credential "SAPHANACLOUD_PASSWORD" creds
                ++ ("@"
                    ++ (credential "SAPHANACLOUD_HOSTURL" creds
                        ++ (":443?TLSServerName=" ++ credential "SAPHANACLOUD_HOSTURL" creds))))))

abbrev cell_value : Cell → Value
cell_value (bytes b) = text b
cell_value (plain v) = v

-- The loop over the columns of one row.
unfoldable pub to_row : List String → List Cell → Entries → Entries
to_row [] cells m = m
to_row (c ∷ columns) [] m = to_row columns [] (set_field c null m)
to_row (c ∷ columns) (v ∷ cells) m = to_row columns cells (set_field c (cell_value v) m)

abbrev prepend : Entries → Outcome HanaError (List Entries) → Outcome HanaError (List Entries)
prepend r (value rows) = value (r ∷ rows)
prepend r (failure e) = failure e

-- The loop over rows.Next, and rows.Err behind it.
unfoldable pub read_rows :
    List String → List Fetched → Option String → Outcome HanaError (List Entries)
read_rows columns [] none = value []
read_rows columns [] (some e) = failure (rows_broken e)
read_rows columns (unscanned e ∷ more) ended = failure (unreadable_row e)
read_rows columns (row cells ∷ more) ended =
    prepend (to_row columns cells end) (read_rows columns more ended)

abbrev rows_of : Rows → Outcome String (List String) → Outcome HanaError (List Entries)
rows_of r (failure e) = failure (no_columns e)
rows_of r (value columns) = read_rows columns r.fetched r.ended

module _ (d : Driver) where
  abbrev pub Call : Type 0 → Type 0
  Call A = Action HanaError d.Server A

  abbrev pinged : d.Db → Option String × d.Server → Outcome HanaError d.Db × d.Server
  pinged db (none, s) = (value db, s)
  pinged db (some e, s) = (failure (unreachable e), d.close db s)

  abbrev opened : Outcome String d.Db → Call d.Db
  opened (failure e) s = (failure (bad_connector e), s)
  opened (value db) s = pinged db (d.ping db s)

  unfoldable pub get_db_connection : Map String → Call d.Db
  get_db_connection creds = opened (d.open_db (dsn creds))

  unfoldable pub execute_query : d.Db → String → List String → Call (List Entries)
  execute_query db sql args = do
    r ← wrap (query_failed sql) (d.query db sql args)
    from_outcome (rows_of r r.columns)

  -- `body` between the connection and the deferred db.Close.
  abbrev pub with_connection :
      {A : Type 0} → Map String → (HanaError → HanaError) → (d.Db → Call A) → Call A
  with_connection creds f body = do
    db ← wrap f (get_db_connection creds)
    λ s. let (r, s') = body db s in (r, d.close db s')

  -- An error of a statement comes after the rollback.
  abbrev executed :
      d.Tx → String → Option String × d.Server → Outcome HanaError (Unit {0}) × d.Server
  executed tx sql (none, s) = (value tt, s)
  executed tx sql (some e, s) = (failure (statement_failed sql e), d.rollback tx s)

  -- The loop over the statements.
  unfoldable pub exec_all : d.Tx → List String → Call (Unit {0})
  exec_all tx [] = pure tt
  exec_all tx (sql ∷ more) = do (λ s. executed tx sql (d.exec tx sql s)); exec_all tx more

  abbrev in_transaction : List String → d.Db → Call (Unit {0})
  in_transaction sqls db = do
    tx ← wrap no_transaction (d.begin db)
    exec_all tx sqls
    λ s. checked commit_failed (d.commit tx s)

  unfoldable pub execute_in_tx : Map String → List String → Call (Unit {0})
  execute_in_tx creds [] = pure tt
  execute_in_tx creds (sql ∷ more) =
      with_connection creds no_connection (in_transaction (sql ∷ more))

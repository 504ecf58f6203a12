-- ===== src/Runner/Secrets.antt =====
-- _archive/taskrunner/runner.go: how a worker prepares the context of a task, with the values of
-- the secrets that it names. `decrypt` is `CryptoService.Decrypt`, `none` for an error, and
-- `describe` the text of an error.
pub mod Messages
use Prim.Native.String.{◌++◌}
use mrmfactorytest.Prelude.{String, Option, none, some, List, [], ◌∷◌, Map, lookup, replace}
use mrmfactorytest.Value.{
  Value, Entries, text, object, end, entry, field, set_field, as_text, as_object,
}
use mrmfactorytest.Errors.{Error, Result, ok, err}
use mrmfactorytest.Etcd.{Client}
use mrmfactorytest.Store.Models.{Document, decode_secrets}
use mrmfactorytest.Store.Keys.{ExecutionStore}

-- A value, or the text that `goto finalize` leaves in the task's error.
pub data Resolved (A : Type 0) : Type 0 where
  resolved : A → Resolved A
  refused : String → Resolved A

abbrev pub text_at : String → Entries → Option String
text_at k m = elim (field k m) [ none ↦ none | some v ↦ as_text v ]

abbrev path_of : Option Entries → Option (Entries × String)
path_of none = none
path_of (some m) = elim (text_at "baoPath" m) [ none ↦ none | some path ↦ some (m, path) ]

-- The reference that a context value is, if it is one.
unfoldable pub secret_ref : Value → Option (Entries × String)
secret_ref v = path_of (as_object v)

module _ (decrypt : String → Option String) where
  abbrev decrypted_key : Option String → Resolved Value
  decrypted_key none = refused "failed to decrypt secret"
  decrypted_key (some d) = resolved (text d)

  abbrev key_of : String → String → Option String → Resolved Value
  key_of key path none = refused ("key '" ++ (key ++ ("' not found in secret at path " ++ path)))
  key_of key path (some enc) = decrypted_key (decrypt enc)

  -- The loop over all fields of a secret.
  unfoldable pub decrypt_all : String → Map String → Entries → Resolved Value
  decrypt_all path [] acc = resolved (object acc)
  decrypt_all path ((k, v) ∷ m) acc = elim (decrypt v) [
    | none ↦ refused ("failed to decrypt field '" ++ (k ++ ("' in secret at path " ++ path)))
    | some d ↦ decrypt_all path m (set_field k (text d) acc)
  ]

  -- One field if the reference names a key, all fields if not.
  unfoldable pub open_secret : Entries → String → Map String → Resolved Value
  open_secret ref path secrets = elim (text_at "key" ref) [
    | some key ↦ key_of key path (lookup key secrets)
    | none ↦ decrypt_all path secrets end
  ]

  module _ (describe : Error → String) (c : Client) (st : ExecutionStore) where
    abbrev pub secret_key : String → String
    secret_key path = "mrm/secrets/" ++ replace "{{.ScenarioID}}" st.sid path

    abbrev fetch_failed : String → String → Resolved Value
    fetch_failed path why =
        refused ("failed to fetch secret from etcd at key " ++ (secret_key path ++ (": " ++ why)))

    abbrev secrets_of : Entries → String → Result (Map String) → Resolved Value
    secrets_of ref path (ok secrets) = open_secret ref path secrets
    secrets_of ref path (err e) = refused (
        "failed to unmarshal encrypted secret from key "
        ++ (secret_key path ++ (": " ++ describe e)))

    abbrev answer_of : Entries → String → Result (Option Document) → Resolved Value
    answer_of ref path (err e) = fetch_failed path (describe e)
    answer_of ref path (ok none) = fetch_failed path "<nil>"
    answer_of ref path (ok (some doc)) = secrets_of ref path (decode_secrets doc)

    unfoldable pub fetch_secret : Entries → String → c.Server → Resolved Value × c.Server
    fetch_secret ref path s =
        let (answer, s') = c.get (secret_key path) s in (answer_of ref path answer, s')

    -- The loop over `task.Context`; the first secret that fails ends it.
    unfoldable pub prepare_context : Entries → Entries → c.Server → Resolved Entries × c.Server
    prepare_context end acc s = (resolved acc, s)
    prepare_context (entry k v rest) acc s = elim (secret_ref v) [
      | none ↦ prepare_context rest (set_field k v acc) s
      | some (ref, path) ↦
          let (answer, s') = fetch_secret ref path s in
          elim answer [
            | resolved w ↦ prepare_context rest (set_field k w acc) s'
            | refused why ↦ (refused why, s')
          ]
    ]

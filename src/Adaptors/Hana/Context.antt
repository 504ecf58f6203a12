-- ===== src/Adaptors/Hana/Context.antt =====
-- adaptors/hana-adaptor/main.go: what `Execute` reads from the context.
use mrmfactorytest.Prelude.{String, Option, none, some, List, [], ◌∷◌, Map, insert}
use mrmfactorytest.Prelude.Outcomes.{Outcome, value, failure}
use mrmfactorytest.Value.{Value, Entries, end, field, set_field, as_text, as_object}
use mrmfactorytest.Adaptors.Hana.{
  HanaError, missing_key, not_text, no_credentials, bad_credentials, missing_credential,
  credential_not_text,
}

abbrev text_of : String → Option Value → Outcome HanaError String
text_of key none = failure (missing_key key)
text_of key (some v) = elim (as_text v) [ none ↦ failure (not_text key) | some s ↦ value s ]

unfoldable pub get_string_from_context : Entries → String → Outcome HanaError String
get_string_from_context context key = text_of key (field key context)

-- The loop that keeps the entries under texts of a map[interface{}]interface{}.
unfoldable pub text_keys : List (Value × Value) → Entries → Entries
text_keys [] m = m
text_keys ((k, v) ∷ more) m =
    text_keys more (elim (as_text k) [ none ↦ m | some key ↦ set_field key v m ])

abbrev stored : String → Option Value → Map String → Outcome HanaError (Map String)
stored key none creds = failure (missing_credential key)
stored key (some v) creds = elim (as_text v) [
  | none ↦ failure (credential_not_text key)
  | some s ↦ value (insert key s creds)
]

-- The loop over the required keys.
unfoldable pub collect : Entries → List String → Map String → Outcome HanaError (Map String)
collect m [] creds = value creds
collect m (key ∷ more) creds = elim (stored key (field key m) creds) [
  | failure e ↦ failure e
  | value next ↦ collect m more next
]

abbrev pub required_keys : List String
required_keys = "SAPHANACLOUD_HOSTURL" ∷ "SAPHANACLOUD_USERNAME" ∷ "SAPHANACLOUD_PASSWORD" ∷ []

-- `as_loose_map` is the assertion that a value is a map[interface{}]interface{}.
module _ (as_loose_map : Value → Option (List (Value × Value))) where
  abbrev map_of : String → Value → Outcome HanaError Entries
  map_of key v = elim (as_object v) [
    | some m ↦ value m
    | none ↦ elim (as_loose_map v) [
      | some entries ↦ value (text_keys entries end)
      | none ↦ failure (bad_credentials key)
    ]
  ]

  abbrev collected : Outcome HanaError Entries → Outcome HanaError (Map String)
  collected (failure e) = failure e
  collected (value m) = collect m required_keys []

  abbrev credentials_of : String → Option Value → Outcome HanaError (Map String)
  credentials_of key none = failure (no_credentials key)
  credentials_of key (some v) = collected (map_of key v)

  unfoldable pub get_credentials_from_context : Entries → String → Outcome HanaError (Map String)
  get_credentials_from_context context key = credentials_of key (field key context)

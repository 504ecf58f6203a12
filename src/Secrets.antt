-- ===== src/Secrets.antt =====
-- internal/secrets/manager.go: the secrets of a Vault server, whose client is an interface.
use mrmfactorytest.Prelude.{String, Option, none, some, ◌||◌, ◌==◌, if◌then◌else◌}
use mrmfactorytest.Prelude.Outcomes.{Outcome, value, failure}
use mrmfactorytest.Value.{Entries, field, as_object}

pub data SecretError : Type 0 where
  not_configured : SecretError
  no_client : String → SecretError
  unreachable : String → String → SecretError
  no_data bad_format : String → SecretError

pub record Vault : Type 1 where
  pub Client : Type 0
  pub new_client : String → Outcome String Client
  pub set_token : String → Client → Client
  -- Logical().ReadWithContext: `none` for a nil secret, and for a secret without data
  pub read : Client → String → Outcome String (Option (Option Entries))

-- secret.Data["data"].(map[string]interface{})
abbrev nested : String → Option Entries → Outcome SecretError Entries
nested path none = failure (bad_format path)
nested path (some entries) = value entries

abbrev inner_data : Entries → Option Entries
inner_data m = elim (field "data" m) [ none ↦ none | some v ↦ as_object v ]

module _ (v : Vault) where
  abbrev authenticated : String → Outcome String v.Client → Outcome SecretError v.Client
  authenticated token (failure e) = failure (no_client e)
  authenticated token (value c) = value (v.set_token token c)

  -- `env` is os.Getenv.
  unfoldable pub new_manager : (String → String) → Outcome SecretError v.Client
  new_manager env =
      if env "BAO_ADDR" == "" || env "BAO_TOKEN" == ""
      then failure not_configured
      else authenticated (env "BAO_TOKEN") (v.new_client (env "BAO_ADDR"))

  abbrev found_data :
      String → Outcome String (Option (Option Entries)) → Outcome SecretError Entries
  found_data path (failure e) = failure (unreachable path e)
  found_data path (value none) = failure (no_data path)
  found_data path (value (some none)) = failure (no_data path)
  found_data path (value (some (some m))) = nested path (inner_data m)

  unfoldable pub fetch_secret : v.Client → String → Outcome SecretError Entries
  fetch_secret c path = found_data path (v.read c path)

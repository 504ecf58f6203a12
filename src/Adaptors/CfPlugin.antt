-- ===== src/Adaptors/CfPlugin.antt =====
-- adaptors/cfplugin/main.go: starting and stopping an application of Cloud Foundry, with the cache
-- of tokens. net/http is an interface; `describe` is the text of an error.
pub mod Network
pub mod Operation
pub mod Login
pub mod Cache
use Prim.Native.String.{◌++◌}
use mrmfactorytest.Prelude.{
  ℕ, zero, suc, String, Option, none, some, Map, lookup, insert, delete, Bool, true, false, not,
  ◌&&◌, ◌||◌, eqb, contains, has_suffix, trim_suffix, ◌==◌, if◌then◌else◌,
}
use mrmfactorytest.Value.{Value, Entries, null, text, object, end, entry, field, as_text}
use mrmfactorytest.Runner.Worker.{PluginResult}

pub record CfContext : Type 0 where
  pub action : String
  pub cf_api : String
  pub app_guid : String
  pub username : String
  pub password : String
  pub origin : String

pub data CfError : Type 0 where
  -- ErrTokenInvalid
  token_invalid : CfError
  bad_context missing_field bad_action : CfError
  no_info bad_info no_endpoint : CfError
  login_request_failed login_refused no_access_token : CfError
  login_failed : CfError → CfError
  request_failed : CfError
  app_failed : ℕ → CfError

pub data Answer (A : Type 0) : Type 0 where
  good : A → Answer A
  bad : CfError → Answer A

pub record Response : Type 0 where
  pub status : ℕ
  pub body : String

-- The calls of net/http: `none` where there is no response. The decoders are those of
-- encoding/json on the structs of the source, and `url_path` the path that url.Parse finds.
pub record Http : Type 1 where
  pub World : Type 0
  pub get : String → World → Option Response × World
  -- url, username, password, origin
  pub post_login : String → String → String → String → World → Option Response × World
  -- url, token
  pub post : String → String → World → Option Response × World
  pub url_path : String → Option String
  -- links.login.href and links.uaa.href
  pub decode_v3 : String → Option (String × String)
  pub decode_v2 : String → Option String
  pub decode_token : String → Option String

-- fmt.Sprintf("%s|%s|%s", …)
unfoldable pub get_cache_key : CfContext → String
get_cache_key ctx = ctx.cf_api ++ ("|" ++ (ctx.username ++ ("|" ++ ctx.origin)))

abbrev pub origin_of : String → Option Value → String
origin_of own none = own
origin_of own (some v) = elim (as_text v) [ none ↦ own | some s ↦ if not (s == "") then s else own ]

abbrev pub is_incomplete : CfContext → Bool
is_incomplete ctx =
    ctx.action == ""
    || (ctx.cf_api == "" || (ctx.app_guid == "" || (ctx.username == "" || ctx.password == "")))

abbrev pub validated : CfContext → Answer CfContext
validated ctx =
    if is_incomplete ctx
    then bad missing_field
    else if not (ctx.action == "start") && not (ctx.action == "stop")
    then bad bad_action
    else good ctx

abbrev parsed_context : Entries → Option CfContext → Answer CfContext
parsed_context raw none = bad bad_context
parsed_context raw (some ctx) =
    validated (record ctx { origin = origin_of ctx.origin (field "origin" raw) })

-- `decode` is the way through json.Marshal and json.Unmarshal into a context with that origin.
unfoldable pub parse_and_validate_cf_context :
    (Entries → String → Option CfContext) → Entries → Answer CfContext
parse_and_validate_cf_context decode raw = parsed_context raw (decode raw "sap.ids")

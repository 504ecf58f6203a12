-- ===== src/Adaptors/CfPlugin/Operation.antt =====
-- adaptors/cfplugin/main.go: the cache of tokens, the retries and what `Execute` returns.
use Prim.Native.String.{◌++◌}
use mrmfactorytest.Prelude.{
  ℕ, zero, suc, String, Option, none, some, Map, lookup, insert, delete, ◌==◌, if◌then◌else◌,
}
use mrmfactorytest.Value.{Value, Entries, null, text, object, end, entry, field}
use mrmfactorytest.Runner.Worker.{PluginResult}
use mrmfactorytest.Adaptors.CfPlugin.{
  CfContext, CfError, token_invalid, login_failed, Answer, good, bad, Http, get_cache_key,
  parse_and_validate_cf_context,
}
use mrmfactorytest.Adaptors.CfPlugin.Network.{login_with_retries, run_action}

module _ (h : Http) where
  -- globalTokenCache, and the network.
  pub record CfState : Type 0 where
    pub tokens : Map String
    pub world : h.World

  abbrev pub logged_in : String → Map String → Answer String × h.World → Answer String × CfState
  logged_in key tokens (good token, w) =
      (good token, record { tokens = insert key token tokens; world = w })
  logged_in key tokens (bad e, w) = (bad (login_failed e), record { tokens = tokens; world = w })

  unfoldable pub get_cached_token_or_login : CfContext → String → CfState → Answer String × CfState
  get_cached_token_or_login ctx key s = elim (lookup key s.tokens) [
    | some token ↦ (good token, s)
    | none ↦ logged_in key s.tokens (login_with_retries h 2 ctx s.world)
  ]

  -- How an operation ends; `refused_again` wraps ErrTokenInvalid after the retry.
  pub data CfEnd : Type 0 where
    succeeded refused_again : CfEnd
    no_token failed : CfError → CfEnd

  abbrev pub dropped : String → CfState → CfState
  dropped key s = record s { tokens = delete key s.tokens }

  -- What follows the action; only a refused token has a retry.
  abbrev pub settle : Answer (Unit {0}) → CfEnd × CfState → CfState → CfEnd × CfState
  settle (good _) retry s = (succeeded, s)
  settle (bad token_invalid) retry s = retry
  settle (bad e) retry s = (failed e, s)

  -- The loop of `Execute`: an operation whose token is refused is tried again `retries` times.
  unfoldable pub operate : ℕ → CfContext → String → CfState → CfEnd × CfState
  operate zero ctx key s =
      let (token, s') = get_cached_token_or_login ctx key s in
      elim token [
        | bad e ↦ (no_token e, s')
        | good t ↦
            let (answer, w) = run_action h ctx t s'.world in
            let acted = record s' { world = w } in
            settle answer (refused_again, dropped key acted) acted
      ]
  operate (suc retries) ctx key s =
      let (token, s') = get_cached_token_or_login ctx key s in
      elim token [
        | bad e ↦ (no_token e, s')
        | good t ↦
            let (answer, w) = run_action h ctx t s'.world in
            let acted = record s' { world = w } in
            settle answer (operate retries ctx key (dropped key acted)) acted
      ]

  abbrev value_or_nil : Option Value → Value
  value_or_nil none = null
  value_or_nil (some v) = v

  module _ (describe : CfError → String) where
    abbrev failure : String → Entries → PluginResult
    failure why rest = record {
      output = object (entry "status" (text "failure") (entry "error" (text why) rest));
      error = some why;
    }

    abbrev action_entries : CfContext → Entries
    action_entries ctx =
        entry "action" (text ctx.action)
          (entry "appGUID" (text ctx.app_guid) (entry "cfAPI" (text ctx.cf_api) end))

    abbrev success_message : CfContext → String
    success_message ctx =
        if ctx.action == "start"
        then "🟢 App with GUID [" ++ (ctx.app_guid ++ "] has been STARTED successfully.")
        else "🔴 App with GUID [" ++ (ctx.app_guid ++ "] has been STOPPED successfully.")

    abbrev failure_text : CfContext → String → String
    failure_text ctx why =
        "cf-plugin: action '"
        ++ (ctx.action ++ ("' failed for app '" ++ (ctx.app_guid ++ ("': " ++ why))))

    -- What `Execute` returns; the error that it returns without a token is the cause alone.
    unfoldable pub report : CfContext → CfEnd → PluginResult
    report ctx succeeded = record {
      output = object (
          entry "status" (text "success")
            (entry "message" (text (success_message ctx)) (action_entries ctx)));
      error = none;
    }
    report ctx (no_token e) = record {
      output = object (
          entry "status" (text "failure") (
            entry "error" (text ("cf-plugin: failed to get token: " ++ describe e))
              (entry "appGUID" (text ctx.app_guid) end)));
      error = some (describe e);
    }
    report ctx (failed e) = failure (failure_text ctx (describe e)) (action_entries ctx)
    report ctx refused_again =
        failure
          (failure_text ctx
            ("operation failed after retry with new token: " ++ describe token_invalid))
          (action_entries ctx)

    abbrev run_valid : Entries → Answer CfContext → CfState → PluginResult × CfState
    run_valid raw (bad e) s = (
      failure ("cf-plugin: context validation/parsing error: " ++ describe e)
          (entry "appGUID" (value_or_nil (field "appGUID" raw)) end),
      s,
    )
    run_valid raw (good ctx) s =
        let (ending, s') = operate 1 ctx (get_cache_key ctx) s in (report ctx ending, s')

    unfoldable pub execute :
        (Entries → String → Option CfContext) → Entries → CfState → PluginResult × CfState
    execute decode raw s = run_valid raw (parse_and_validate_cf_context decode raw) s

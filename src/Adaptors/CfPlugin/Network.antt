-- ===== src/Adaptors/CfPlugin/Network.antt =====
-- adaptors/cfplugin/main.go: the requests of the login and of the actions.
use Prim.Native.String.{◌++◌}
use mrmfactorytest.Prelude.{
  ℕ, zero, suc, String, Option, none, some, not, ◌&&◌, ◌||◌, eqb, contains, has_suffix, trim_suffix,
  ◌==◌, if◌then◌else◌,
}
use mrmfactorytest.Adaptors.CfPlugin.{
  CfContext, token_invalid, no_info, bad_info, no_endpoint, login_request_failed, login_refused,
  no_access_token, request_failed, app_failed, Answer, good, bad, Response, Http,
}

-- The end of `tokenURL`'s computation.
unfoldable pub token_url : (String → Option String) → String → String
token_url url_path endpoint =
    let appended = endpoint ++ "/oauth/token" in
    let trimmed = trim_suffix endpoint "/" ++ "/oauth/token" in
    if not (has_suffix endpoint "/oauth/token") && contains "uaa" endpoint
    then (elim (url_path endpoint) [
      | none ↦ trimmed
      | some path ↦ if not (has_suffix path "/oauth/token") then trimmed else appended
    ])
    else if has_suffix endpoint "/oauth/token"
    then endpoint
    else appended

module _ (h : Http) where
  abbrev first_href : Option (String × String) → String
  first_href none = ""
  first_href (some (login, uaa)) = if not (login == "") then login else uaa

  abbrev v3_endpoint : Option Response → String
  v3_endpoint none = ""
  v3_endpoint (some r) = if eqb r.status 200 then first_href (h.decode_v3 r.body) else ""

  abbrev v2_decoded : Option String → Answer String
  v2_decoded none = bad bad_info
  v2_decoded (some endpoint) = good endpoint

  abbrev v2_endpoint : Option Response → Answer String
  v2_endpoint none = bad no_info
  v2_endpoint (some r) = if eqb r.status 200 then v2_decoded (h.decode_v2 r.body) else bad bad_info

  -- The endpoint of /v3/info, or else that of /v2/info.
  unfoldable pub find_endpoint : String → h.World → Answer String × h.World
  find_endpoint api w =
      let (r3, w3) = h.get (api ++ "/v3/info") w in
      let (r2, w2) = h.get (api ++ "/v2/info") w3 in
      if v3_endpoint r3 == "" then (v2_endpoint r2, w2) else (good (v3_endpoint r3), w3)

  abbrev token_of : Option String → Answer String
  token_of none = bad no_access_token
  token_of (some token) = if token == "" then bad no_access_token else good token

  abbrev login_answer : Option Response → Answer String
  login_answer none = bad login_request_failed
  login_answer (some r) =
      if eqb r.status 200 then token_of (h.decode_token r.body) else bad login_refused

  -- A request that cannot be made and one without a response are the same `none`.
  unfoldable pub log_in : CfContext → String → h.World → Answer String × h.World
  log_in ctx endpoint w =
      let (r, w') =
        h.post_login (token_url h.url_path endpoint) ctx.username ctx.password ctx.origin w in
      if endpoint == "" then (bad no_endpoint, w) else (login_answer r, w')

  unfoldable pub login_to_cf : CfContext → h.World → Answer String × h.World
  login_to_cf ctx w =
      let (answer, w') = find_endpoint ctx.cf_api w in
      elim answer [ good endpoint ↦ log_in ctx endpoint w' | bad e ↦ (bad e, w') ]

  -- The loop over the attempts: at most `retries` more after the first.
  unfoldable pub login_with_retries : ℕ → CfContext → h.World → Answer String × h.World
  login_with_retries zero ctx w = login_to_cf ctx w
  login_with_retries (suc retries) ctx w =
      let (answer, w') = login_to_cf ctx w in
      elim answer [ good token ↦ (good token, w') | bad e ↦ login_with_retries retries ctx w' ]

  abbrev app_answer : Option Response → Answer (Unit {0})
  app_answer none = bad request_failed
  app_answer (some r) =
      if eqb r.status 401
      then bad token_invalid
      else if eqb r.status 200 || eqb r.status 202
      then good tt
      else bad (app_failed r.status)

  -- `startApp` and `stopApp`: they differ in the last part of the path, which is the action.
  unfoldable pub run_action : CfContext → String → h.World → Answer (Unit {0}) × h.World
  run_action ctx token w =
      let (r, w') =
        h.post
          (trim_suffix ctx.cf_api "/"
            ++ ("/v3/apps/" ++ (ctx.app_guid ++ ("/actions/" ++ ctx.action))))
          token w in
      (app_answer r, w')

-- ===== src/Adaptors/CfPlugin/Login.antt =====
-- Which contexts the plugin takes, and the address of its login.
use mrmfactorytest.Prelude.{
  String, Option, true, false, ◌&&◌, not, ◌≡◌, ◌≢◌, ◌⊎◌, inl, inr, subst, arith, Bool-cases,
  Option-cases, String-cases, eq_iff, ◌==◌, contains, has_suffix, trim_suffix, has_suffix-append,
}
use mrmfactorytest.Value.{Entries, field}
use mrmfactorytest.Adaptors.CfPlugin.{
  CfContext, Answer, missing_field, bad_action, bad_context, good, bad, is_incomplete, validated,
  origin_of, parse_and_validate_cf_context,
}
use mrmfactorytest.Adaptors.CfPlugin.Network.{token_url}

-- A context that the plugin can run: nothing that it needs is empty, and the action is known.
abbrev pub Valid : CfContext → Type 0
Valid ctx =
    ((ctx.action ≡ "start") ⊎ (ctx.action ≡ "stop"))
    × (ctx.cf_api ≢ "")
    × (ctx.app_guid ≢ "")
    × (ctx.username ≢ "")
    × (ctx.password ≢ "")

-- The login's address ends in the path of the token service, however the endpoint is written.
pub token_url-has_suffix :
    (url_path : String → Option String) (endpoint : String)
    → has_suffix (token_url url_path endpoint) "/oauth/token" ≡ true
unfolding token_url
token_url-has_suffix url_path endpoint = elim (Bool-cases (has_suffix endpoint "/oauth/token")) [
  | inl whole ↦ rw (whole, token_url) whole
  | inr part ↦ elim (Bool-cases (contains "uaa" endpoint)) [
    | inr other ↦ rw (part, other, token_url) (has_suffix-append endpoint "/oauth/token")
    | inl uaa ↦ elim (Option-cases (url_path endpoint)) [
      | inl e ↦
          rw (part, uaa, e, token_url) (has_suffix-append (trim_suffix endpoint "/") "/oauth/token")
      | inr (path, e) ↦ elim (Bool-cases (has_suffix path "/oauth/token")) [
        | inl f ↦ rw (part, uaa, e, f, token_url) (has_suffix-append endpoint "/oauth/token")
        | inr f ↦
            rw (part, uaa, e, f, token_url)
              (has_suffix-append (trim_suffix endpoint "/") "/oauth/token")
      ]
    ]
  ]
]

good_injective : {a b : CfContext} → ◌≡◌ {A = Answer CfContext} (good a) (good b) → a ≡ b
good_injective e = cc

complete-Valid :
    (ctx : CfContext)
    → is_incomplete ctx ≡ false
    → (not (ctx.action == "start") && not (ctx.action == "stop")) ≡ false
    → Valid ctx
complete-Valid ctx complete known = (
  elim (String-cases ctx.action "start") [
    | inl e ↦ inl e.0
    | inr e ↦ elim (String-cases ctx.action "stop") [
      | inl f ↦ inr f.0
      | inr f ↦ absurd (unknown e.1 f.1)
    ]
  ],
  (λ e. ground (arith, eq_iff ctx.cf_api "", complete)),
  (λ e. ground (arith, eq_iff ctx.app_guid "", complete)),
  (λ e. ground (arith, eq_iff ctx.username "", complete)),
  (λ e. ground (arith, eq_iff ctx.password "", complete)),
)
  where
    unknown : (ctx.action == "start") ≡ false → (ctx.action == "stop") ≡ false → ⊥
    unknown e f = ground (arith, known)

validated-Valid : (given ctx : CfContext) → validated given ≡ good ctx → Valid ctx
validated-Valid given ctx h = elim (Bool-cases (is_incomplete given)) [
  | inl e ↦ let h' : bad missing_field ≡ good ctx = rw e at h in cc
  | inr complete ↦
      elim (Bool-cases (not (given.action == "start") && not (given.action == "stop"))) [
        | inl e ↦ let h' : bad bad_action ≡ good ctx = rw (complete, e) at h in cc
        | inr known ↦
            let h' : good given ≡ good ctx = rw (complete, known) at h in
            subst Valid (good_injective h') (complete-Valid given complete known)
      ]
]

-- A context that is accepted can be run.
pub parse_and_validate_cf_context-Valid :
    (decode : Entries → String → Option CfContext) (raw : Entries) (ctx : CfContext)
    → parse_and_validate_cf_context decode raw ≡ good ctx
    → Valid ctx
unfolding parse_and_validate_cf_context
parse_and_validate_cf_context-Valid decode raw ctx h = elim (Option-cases (decode raw "sap.ids")) [
  | inl e ↦ let h' : bad bad_context ≡ good ctx = rw e at h in cc
  | inr (given, e) ↦
      validated-Valid (record given { origin = origin_of given.origin (field "origin" raw) }) ctx
        (rw e at h)
]

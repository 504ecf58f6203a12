-- ===== src/Adaptors/CfPlugin/Cache.antt =====
-- What `Execute` leaves in the cache of tokens.
use mrmfactorytest.Prelude.{
  ℕ, zero, suc, String, none, some, lookup, lookup-insert, lookup-delete, false, ◌≡◌, ◌⊎◌, inl, inr,
  refl, ◌∙◌, eq_refl, ◌==◌, Option-cases,
}
use mrmfactorytest.Adaptors.CfPlugin.{Http, CfContext, CfError, token_invalid, Answer, good, bad}
use mrmfactorytest.Adaptors.CfPlugin.Network.{login_with_retries, run_action}
use mrmfactorytest.Adaptors.CfPlugin.Operation.{
  CfState, CfEnd, succeeded, refused_again, no_token, failed, settle, dropped,
  get_cached_token_or_login, operate,
}

Answer-cases :
    {A : Type 0} (r : Answer A) → ((a : A) × (r ≡ good a)) ⊎ ((e : CfError) × (r ≡ bad e))
Answer-cases (good a) = inl (a, refl)
Answer-cases (bad e) = inr (e, refl)

module _ (h : Http) where
  -- The tokens of other keys stay.
  abbrev pub KeepsOthers : String → CfState h → CfState h → Type 0
  KeepsOthers key s s' = (k : String) → (key == k) ≡ false → lookup k s'.tokens ≡ lookup k s.tokens

  -- The cached token after an operation: there is one after an action, and none after a refusal.
  abbrev pub Cached : String → CfEnd h → CfState h → Type 0
  Cached key succeeded s = (token : String) × (lookup key s.tokens ≡ some token)
  Cached key (failed e) s = (token : String) × (lookup key s.tokens ≡ some token)
  Cached key (no_token e) s = lookup key s.tokens ≡ none
  Cached key refused_again s = lookup key s.tokens ≡ none

  abbrev Got : String → Answer String → CfState h → Type 0
  Got key (good token) s = lookup key s.tokens ≡ some token
  Got key (bad e) s = lookup key s.tokens ≡ none

  get_cached_token_or_login-Got :
      (ctx : CfContext) (key : String) (s : CfState h)
      → Got key (get_cached_token_or_login h ctx key s).0 (get_cached_token_or_login h ctx key s).1
        × KeepsOthers key s (get_cached_token_or_login h ctx key s).1
  unfolding get_cached_token_or_login
  get_cached_token_or_login-Got ctx key s = elim (Option-cases (lookup key s.tokens)) [
    | inr (token, e) ↦ rw (e, get_cached_token_or_login) (e, λ k ne. refl)
    | inl e ↦ elim (Answer-cases (login_with_retries h 2 ctx s.world).0) [
      | inl (token, f) ↦
          rw (e, f, get_cached_token_or_login)
            (rw (lookup-insert, eq_refl) refl, λ k ne. rw (lookup-insert, ne) refl)
      | inr (x, f) ↦ rw (e, f, get_cached_token_or_login) (e, λ k ne. refl)
    ]
  ]

  abbrev Settled : String → CfState h → CfEnd h × CfState h → Type 0
  Settled key s r = Cached key r.0 r.1 × KeepsOthers key s r.1

  settle-Settled :
      (key token : String) (answer : Answer (Unit {0})) (retry : CfEnd h × CfState h)
      (s : CfState h)
      → lookup key s.tokens ≡ some token
      → Settled key s retry
      → Settled key s (settle h answer retry s)
  settle-Settled key token (good _) retry s held again = ((token, held), λ k ne. refl)
  settle-Settled key token (bad token_invalid) retry s held again = again
  settle-Settled key token (bad _) retry s held again = ((token, held), λ k ne. refl)

  dropped-Settled : (key : String) (s : CfState h) → Settled key s (refused_again, dropped h key s)
  dropped-Settled key s = (rw (lookup-delete, eq_refl) refl, λ k ne. rw (lookup-delete, ne) refl)

  -- The state once the action was answered.
  abbrev acted : CfContext → String → String → CfState h → CfState h
  acted ctx key t s =
      let s' = (get_cached_token_or_login h ctx key s).1 in
      record s' { world = (run_action h ctx t s'.world).1 }

  after :
      (key token : String) (s s' : CfState h) (answer : Answer (Unit {0}))
      (retry : CfEnd h × CfState h)
      → lookup key s'.tokens ≡ some token
      → KeepsOthers key s s'
      → Settled key s' retry
      → Settled key s (settle h answer retry s')
  after key token s s' answer retry held kept again =
      let r = settle-Settled key token answer retry s' held again in
      (r.0, λ k ne. r.1 k ne ∙ kept k ne)

  -- After an operation, with its retries, the cache holds a token under the operation's key if the
  -- action was answered, and none if the last token was refused or the login failed; the tokens of
  -- other keys are as they were.
  pub operate-Settled :
      (retries : ℕ) (ctx : CfContext) (key : String) (s : CfState h)
      → let r = operate h retries ctx key s in Cached key r.0 r.1 × KeepsOthers key s r.1
  unfolding operate
  operate-Settled zero ctx key s =
      let got = get_cached_token_or_login-Got ctx key s in
      elim (Answer-cases (get_cached_token_or_login h ctx key s).0) [
        | inr (x, f) ↦
            let gone : lookup key (get_cached_token_or_login h ctx key s).1.tokens ≡ none =
              rw f at got.0 in
            rw (f, operate) (gone, got.1)
        | inl (t, f) ↦
            let held : lookup key (get_cached_token_or_login h ctx key s).1.tokens ≡ some t =
              rw f at got.0 in
            rw (f, operate)
              (after key t s (acted ctx key t s) _ _ held got.1
                (dropped-Settled key (acted ctx key t s)))
      ]
  operate-Settled (suc retries) ctx key s =
      let got = get_cached_token_or_login-Got ctx key s in
      elim (Answer-cases (get_cached_token_or_login h ctx key s).0) [
        | inr (x, f) ↦
            let gone : lookup key (get_cached_token_or_login h ctx key s).1.tokens ≡ none =
              rw f at got.0 in
            rw (f, operate) (gone, got.1)
        | inl (t, f) ↦
            let held : lookup key (get_cached_token_or_login h ctx key s).1.tokens ≡ some t =
              rw f at got.0 in
            let again = operate-Settled retries ctx key (dropped h key (acted ctx key t s)) in
            let clean = dropped-Settled key (acted ctx key t s) in
            rw (f, operate)
              (after key t s (acted ctx key t s) _ _ held got.1
                (again.0, λ k ne. again.1 k ne ∙ clean.1 k ne))
      ]

-- ===== src/Adaptors/Route53/Sent.antt =====
-- adaptors/dns-adaptor-route53/main.go: what is sent to Route 53.
use text.Mathlib.TextLemmas.{append-ne-nil_of_right_ne-nil}
use mrmfactorytest.Prelude.{
  zero, suc, String, [], ◌∷◌, false, ◌==◌, if◌then◌else◌, ◌≡◌, ◌≢◌, ◌⊎◌, inl, inr, refl, sym, ap,
  ◌∙◌, subst, arith, Bool-cases, String-cases, append-ne-empty, eq_iff,
}
use mrmfactorytest.Prelude.Outcomes.{Outcome, value, failure, Outcome-cases}
use mrmfactorytest.Value.{Entries}
use mrmfactorytest.Store.Decimal.{ℤ, pos, negsuc, show}
use mrmfactorytest.Adaptors.Route53.{
  FailoverContext, RouteError, bad_input, bad_context, no_session, missing_field, update_failed,
  ResourceRecordSet, ChangeInput, Aws, RouteOutput, is_incomplete, ttl_or_default, with_default_ttl,
  record_of, srv_value, resource_record_set, change_input, output_of, run_complete, send, execute,
}

abbrev pub IsKnownType : String → Type 0
IsKnownType type = (type ≡ "A") ⊎ ((type ≡ "CNAME") ⊎ (type ≡ "SRV"))

-- One UPSERT of the context's record, of a known type, with one value that is not empty and a TTL that
-- is not 0.
abbrev pub IsUpsert : FailoverContext → ChangeInput → Type 0
IsUpsert cfg input =
    (v : String) × (v ≢ "")
    × (ttl_or_default cfg.ttl ≢ pos 0)
    × IsKnownType cfg.record_type
    × (cfg.hosted_zone_id ≢ "")
    × (cfg.record_name ≢ "")
    × (input.hosted_zone_id ≡ cfg.hosted_zone_id)
    × (input.changes
        ≡ record {
          action = "UPSERT";
          record_set = record {
            name = cfg.record_name;
            record_type = cfg.record_type;
            ttl = ttl_or_default cfg.ttl;
            values = v ∷ [];
          };
        }
          ∷ [])

srv_value-ne-empty : (cfg : FailoverContext) → srv_value cfg ≢ ""
srv_value-ne-empty cfg =
    append-ne-nil_of_right_ne-nil (show cfg.priority) (append-ne-empty " " "" _)

-- The record that the switch makes.
abbrev MadeFor : FailoverContext → ResourceRecordSet → Type 0
MadeFor cfg set =
    (v : String) × (v ≢ "") × IsKnownType cfg.record_type × (set ≡ record_of cfg cfg.record_type v)

value-inj : {E A : Type 0} (a b : A) → ◌≡◌ {A = Outcome E A} (value a) (value b) → a ≡ b
value-inj a b e = cc

failure-ne-value : {E A : Type 0} (e : E) (a : A) → ◌≡◌ {A = Outcome E A} (failure e) (value a) → ⊥
failure-ne-value e a p = cc

targeted :
    (cfg : FailoverContext) (set : ResourceRecordSet) (type target v : String) (why : RouteError)
    → cfg.record_type ≡ type
    → IsKnownType type
    → (target ≢ "" → v ≢ "")
    → (if target == "" then failure why else value (record_of cfg type v)) ≡ value set
    → MadeFor cfg set
targeted cfg set type target v why same known full made = elim (String-cases target "") [
  | inl (e, none_given) ↦ absurd (failure-ne-value why set (rw none_given at made))
  | inr (differ, given) ↦ (
    v,
    full differ,
    subst IsKnownType (sym same) known,
    sym (value-inj _ set (rw given at made)) ∙ ap (λ (t : String). record_of cfg t v) (sym same),
  )
]

resource_record_set-MadeFor :
    (cfg : FailoverContext) (set : ResourceRecordSet)
    → resource_record_set cfg ≡ value set
    → MadeFor cfg set
unfolding resource_record_set
resource_record_set-MadeFor cfg set made = elim (String-cases cfg.record_type "A") [
  | inl (a, is_a) ↦
      targeted cfg set "A" cfg.target_value cfg.target_value _ a (inl refl) (λ d. d)
        (rw is_a at made)
  | inr (not_a, n) ↦ elim (String-cases cfg.record_type "CNAME") [
    | inl (c, is_c) ↦
        targeted cfg set "CNAME" cfg.target_value cfg.target_value _ c (inr (inl refl)) (λ d. d)
          (rw (n, is_c) at made)
    | inr (not_c, m) ↦ elim (String-cases cfg.record_type "SRV") [
      | inl (s, is_s) ↦
          targeted cfg set "SRV" cfg.target (srv_value cfg) _ s (inr (inr refl))
            (λ d. srv_value-ne-empty cfg) (rw (n, m, is_s) at made)
      | inr (not_s, k) ↦ absurd (failure-ne-value _ set (rw (n, m, k) at made))
    ]
  ]
]

ne-of-false : (s : String) → (s == "") ≡ false → s ≢ ""
ne-of-false s e same = ground (arith, eq_iff s "")

-- What a complete context has among the rest.
complete_fields :
    (cfg : FailoverContext)
    → is_incomplete cfg ≡ false
    → (cfg.hosted_zone_id ≢ "") × (cfg.record_name ≢ "")
complete_fields cfg e =
    (ne-of-false cfg.hosted_zone_id (ground arith), ne-of-false cfg.record_name (ground arith))

ttl_or_default-ne-zero : (ttl : ℤ) → ttl_or_default ttl ≢ pos 0
ttl_or_default-ne-zero (pos zero) e = cc
ttl_or_default-ne-zero (pos (suc n)) e = cc
ttl_or_default-ne-zero (negsuc n) e = cc

module _ (a : Aws) where
  -- The one call for this change has been made, and its answer is the result's.
  abbrev pub Sent :
      FailoverContext → a.Session → a.World → Outcome RouteError RouteOutput → a.World → Type 0
  Sent cfg session w r w' =
      (input : ChangeInput) × IsUpsert cfg input
      × (w' ≡ (a.change_resource_record_sets session input w).1)
      × (((e : String) × ((a.change_resource_record_sets session input w).0 ≡ failure e)
            × (r ≡ failure (update_failed e)))
          ⊎ ((id : String) × (o : RouteOutput) × ((a.change_resource_record_sets session input w).0
                ≡ value id)
              × (r ≡ value o)
              × (o.change_id ≡ id)))

  -- An error and no call, or one call for the context that was read.
  abbrev pub SentOrRefused : Entries → a.World → Outcome RouteError RouteOutput → a.World → Type 0
  SentOrRefused raw w r w' =
      ((e : RouteError) × (r ≡ failure e) × (w' ≡ w))
      ⊎ ((text : String) × (cfg : FailoverContext) × (session : a.Session) × (a.marshal raw
            ≡ value text)
          × (a.unmarshal text ≡ value cfg)
          × (a.new_session cfg.region cfg.access_key cfg.secret_key ≡ value session)
          × Sent cfg session w r w')

  send-Sent :
      (cfg : FailoverContext) (set : ResourceRecordSet) (session : a.Session) (w : a.World)
      → is_incomplete cfg ≡ false
      → MadeFor (with_default_ttl cfg) set
      → let r = send a (with_default_ttl cfg) set session w in Sent cfg session w r.0 r.1
  send-Sent cfg set session w complete (v, full, known, made) =
      let input = change_input (with_default_ttl cfg) set in
      let (zone, name) = complete_fields cfg complete in
      let same : input.changes ≡ (
          record {
            action = "UPSERT";
            record_set = record_of (with_default_ttl cfg) cfg.record_type v;
          }
          ∷ []) =
        ap (λ (s : ResourceRecordSet). record { action = "UPSERT"; record_set = s } ∷ []) made in
      elim (Outcome-cases (a.change_resource_record_sets session input w).0) [
        | inr (e, failed) ↦ rw failed (
          input,
          (v, full, ttl_or_default-ne-zero cfg.ttl, known, zone, name, refl, same),
          refl,
          inl (e, failed, refl),
        )
        | inl (id, made_it) ↦ rw made_it (
          input,
          (v, full, ttl_or_default-ne-zero cfg.ttl, known, zone, name, refl, same),
          refl,
          inr (id, output_of (with_default_ttl cfg) set id, made_it, refl, refl),
        )
      ]

  -- Whatever the context, the plugin refuses it and calls nothing, or makes exactly one change, an
  -- UPSERT of the record that the context names, and answers with the id or the error of that call.
  pub execute-SentOrRefused :
      (raw : Entries) (w : a.World) → let r = execute a raw w in SentOrRefused raw w r.0 r.1
  unfolding execute run_complete
  execute-SentOrRefused raw w = elim (Outcome-cases (a.marshal raw)) [
    | inr (e, bad) ↦ rw bad (inl (bad_input e, refl, refl))
    | inl (text, good) ↦ elim (Outcome-cases (a.unmarshal text)) [
      | inr (e, bad) ↦ rw (good, bad) (inl (bad_context e, refl, refl))
      | inl (cfg, read) ↦ elim (Bool-cases (is_incomplete cfg)) [
        | inl lacks ↦ rw (good, read, lacks) (inl (missing_field, refl, refl))
        | inr complete ↦
            elim (Outcome-cases (a.new_session cfg.region cfg.access_key cfg.secret_key)) [
              | inr (e, bad) ↦ rw (good, read, complete, bad) (inl (no_session e, refl, refl))
              | inl (session, opened) ↦
                  elim (Outcome-cases (resource_record_set (with_default_ttl cfg))) [
                    | inr (e, bad) ↦ rw (good, read, complete, opened, bad) (inl (e, refl, refl))
                    | inl (set, made) ↦
                        rw (good, read, complete, opened, made)
                          (inr (
                            text,
                            cfg,
                            session,
                            refl,
                            read,
                            opened,
                            send-Sent cfg set session w complete
                                (resource_record_set-MadeFor (with_default_ttl cfg) set made),
                          ))
                  ]
            ]
      ]
    ]
  ]

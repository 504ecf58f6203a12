-- ===== src/Runner/Secrets/Messages.antt =====
-- A context whose secrets cannot be had is refused with a text, and its preparation only reads.
use mrmfactorytest.Prelude.{
  String, Option, none, some, [], ◌∷◌, Map, lookup, ◌≡◌, ◌≢◌, ◌⊎◌, inl, inr, refl, ◌∙◌,
  Option-cases, append-ne-empty,
}
use mrmfactorytest.Value.{Value, Entries, end, entry, set_field}
use mrmfactorytest.Errors.{Error, Result-cases}
use mrmfactorytest.Etcd.{Client, IsEtcd}
use mrmfactorytest.Store.Models.{decode_secrets}
use mrmfactorytest.Store.Keys.{ExecutionStore}
use mrmfactorytest.Store.Details.{Unchanged}
use mrmfactorytest.Runner.Secrets.{
  Resolved, resolved, refused, text_at, secret_ref, secret_key, decrypt_all, open_secret,
  fetch_secret, prepare_context,
}

-- The text of a refusal is not empty.
abbrev pub Says : {A : Type 0} → Resolved A → Type 0
Says (resolved a) = Unit
Says (refused why) = why ≢ ""

Resolved-cases :
    {A : Type 0} (r : Resolved A)
    → ((a : A) × (r ≡ resolved a)) ⊎ ((why : String) × (r ≡ refused why))
Resolved-cases (resolved a) = inl (a, refl)
Resolved-cases (refused why) = inr (why, refl)

module _ (decrypt : String → Option String) where
  decrypt_all-Says :
      (path : String) (m : Map String) (acc : Entries) → Says (decrypt_all decrypt path m acc)
  unfolding decrypt_all
  decrypt_all-Says path [] acc = tt
  decrypt_all-Says path ((k, v) ∷ m) acc = elim (Option-cases (decrypt v)) [
    | inl e ↦ rw (e, decrypt_all) (append-ne-empty "f" "ailed to decrypt field '" _)
    | inr (d, e) ↦ rw (e, decrypt_all) (decrypt_all-Says path m _)
  ]

  open_secret-Says :
      (ref : Entries) (path : String) (m : Map String) → Says (open_secret decrypt ref path m)
  unfolding open_secret
  open_secret-Says ref path m = elim (Option-cases (text_at "key" ref)) [
    | inl e ↦ rw (e, open_secret) (decrypt_all-Says path m end)
    | inr (key, e) ↦ elim (Option-cases (lookup key m)) [
      | inl f ↦ rw (e, f, open_secret) (append-ne-empty "k" "ey '" _)
      | inr (enc, f) ↦ elim (Option-cases (decrypt enc)) [
        | inl g ↦ rw (e, f, g, open_secret) (append-ne-empty "f" "ailed to decrypt secret" "")
        | inr (d, g) ↦ rw (e, f, g, open_secret) tt
      ]
    ]
  ]

  module _ (describe : Error → String) (c : Client) (st : ExecutionStore) where
    fetch_secret-Says :
        (ref : Entries) (path : String) (s : c.Server)
        → Says (fetch_secret decrypt describe c st ref path s).0
    unfolding fetch_secret
    fetch_secret-Says ref path s =
        elim (Result-cases (c.get (secret_key decrypt describe c st path) s).0) [
          | inr (x, e) ↦
              rw (e, fetch_secret) (append-ne-empty "f" "ailed to fetch secret from etcd at key " _)
          | inl (none, e) ↦
              rw (e, fetch_secret) (append-ne-empty "f" "ailed to fetch secret from etcd at key " _)
          | inl (some doc, e) ↦ elim (Result-cases (decode_secrets doc)) [
            | inl (m, f) ↦ rw (e, f, fetch_secret) (open_secret-Says ref path m)
            | inr (x, f) ↦
                rw (e, f, fetch_secret)
                  (append-ne-empty "f" "ailed to unmarshal encrypted secret from key " _)
          ]
        ]

    -- A context that is refused is refused with a text that is not empty.
    pub prepare_context-Says :
        (m acc : Entries) (s : c.Server) → Says (prepare_context decrypt describe c st m acc s).0
    unfolding prepare_context
    prepare_context-Says end acc s = tt
    prepare_context-Says (entry k v rest) acc s = elim (Option-cases (secret_ref v)) [
      | inl e ↦ rw (e, prepare_context) (prepare_context-Says rest (set_field k v acc) s)
      | inr ((ref, path), e) ↦
          elim (Resolved-cases (fetch_secret decrypt describe c st ref path s).0) [
            | inl (w, f) ↦
                rw (e, f, prepare_context)
                  (prepare_context-Says rest (set_field k w acc)
                    (fetch_secret decrypt describe c st ref path s).1)
            | inr (why, f) ↦
                let h : Says {A = Value} (refused why) = rw f at (fetch_secret-Says ref path s) in
                rw (e, f, prepare_context) h
          ]
    ]

    -- The preparation only reads.
    pub prepare_context-Unchanged :
        (law : IsEtcd c) (m acc : Entries) (s : c.Server)
        → Unchanged c s (prepare_context decrypt describe c st m acc s).1
    unfolding prepare_context fetch_secret
    prepare_context-Unchanged law end acc s j = refl
    prepare_context-Unchanged law (entry k v rest) acc s j = elim (Option-cases (secret_ref v)) [
      | inl e ↦ rw (e, prepare_context) (prepare_context-Unchanged law rest (set_field k v acc) s j)
      | inr ((ref, path), e) ↦
          let read = law.get_content (secret_key decrypt describe c st path) s j in
          elim (Resolved-cases (fetch_secret decrypt describe c st ref path s).0) [
            | inl (w, f) ↦
                rw (e, f, prepare_context)
                  (prepare_context-Unchanged law rest (set_field k w acc)
                      (fetch_secret decrypt describe c st ref path s).1 j
                    ∙ read)
            | inr (why, f) ↦ rw (e, f, prepare_context) read
          ]
    ]

-- ===== src/Service/Bootstrap.antt =====
-- Which configuration a run gets, and what its bootstrap writes.
use mrmfactorytest.Prelude.{
  String, Option, none, some, ◌≡◌, ◌≢◌, ◌⊎◌, inl, inr, refl, sym, subst, ◌∙◌, ap, Option-cases,
}
use mrmfactorytest.Config.{Config}
use mrmfactorytest.Errors.{
  Error, Result, ok, err, external, config_not_found, bad_yaml, continue, Result-cases,
}
use mrmfactorytest.Etcd.{Client, IsEtcd}
use mrmfactorytest.Etcd.Laws.{OthersKept, get_outcome, put_outcome, put_others}
use mrmfactorytest.Store.Models.{Document, plain, as_string}
use mrmfactorytest.Store.Keys.{ExecutionStore, fsm_config_key}
use mrmfactorytest.Store.Operations.{get_fsm_config, write_fsm_config}
use mrmfactorytest.Store.Details.{Unchanged}
use mrmfactorytest.Service.{bootstrap_fsm_config}

module _ (unmarshal : String → Option Config) (c : Client) (law : IsEtcd c)
    (st : ExecutionStore) where
  -- The text that the cluster holds as the configuration means `cfg`.
  abbrev pub Configured : c.Server → Config → Type 0
  Configured s cfg =
      (doc : Document) × (c.content s (fsm_config_key st) ≡ some doc)
      × (unmarshal (as_string doc) ≡ some cfg)

  -- What `GetFSMConfig` answers.
  abbrev Answers : c.Server → Result Config → Type 0
  Answers s r =
      ((c.content s (fsm_config_key st) ≡ none) × (r ≡ err config_not_found))
      ⊎ ((doc : Document) × (c.content s (fsm_config_key st) ≡ some doc) × (r ≡ err bad_yaml))
      ⊎ ((cfg : Config) × Configured s cfg × (r ≡ ok cfg))
      ⊎ ((why : String) × (r ≡ err (external why)))

  get_fsm_config-Answers : (s : c.Server) → Answers s (get_fsm_config c st unmarshal s).0
  unfolding get_fsm_config
  get_fsm_config-Answers s = elim (get_outcome law (fsm_config_key st) s) [
    | inr (x, e) ↦
        let own = law.get_error (fsm_config_key st) s x e in
        inr (inr (inr (own.0, rw (e, continue) (ap err own.1))))
    | inl e ↦ elim (Option-cases (c.content s (fsm_config_key st))) [
      | inl missing ↦ inl (missing, rw (e ∙ ap ok missing, continue) refl)
      | inr (doc, found) ↦ elim (Option-cases (unmarshal (as_string doc))) [
        | inl f ↦ inr (inl (doc, found, rw (e ∙ ap ok found, continue, f) refl))
        | inr (cfg, f) ↦
            inr (inr (inl (cfg, (doc, found, f), rw (e ∙ ap ok found, continue, f) refl)))
      ]
    ]
  ]

  get_fsm_config-Unchanged : (s : c.Server) → Unchanged c s (get_fsm_config c st unmarshal s).1
  unfolding get_fsm_config
  get_fsm_config-Unchanged s j =
      let read = law.get_content (fsm_config_key st) s j in
      elim (Result-cases (c.get (fsm_config_key st) s).0) [
        | inr (x, e) ↦ rw (e, continue) read
        | inl (none, e) ↦ rw (e, continue) read
        | inl (some doc, e) ↦ elim (Option-cases (unmarshal (as_string doc))) [
          | inl f ↦ rw (e, continue, f) read
          | inr (cfg, f) ↦ rw (e, continue, f) read
        ]
      ]

  module _ (read_file : String → Result String) (path : String) where
    -- How the bootstrap from `s` ended.
    abbrev pub Bootstrapped : c.Server → Result Config × c.Server → Type 0
    Bootstrapped s r =
        ((e : Error) × (r.0 ≡ err e))
        ⊎ ((cfg : Config) × (r.0 ≡ ok cfg)
            × Configured r.1 cfg
            × (Unchanged c s r.1
                ⊎ ((yaml : String) × (c.content s (fsm_config_key st) ≡ none)
                    × (read_file path ≡ ok yaml)
                    × (c.content r.1 (fsm_config_key st) ≡ some (plain yaml)))))

    abbrev Sound : c.Server → Result Config × c.Server → Type 0
    Sound s r =
        Bootstrapped s r
        × OthersKept c (fsm_config_key st) s r.1
        × (c.content s (fsm_config_key st) ≢ none → Unchanged c s r.1)

    others :
        (yaml : String) (s : c.Server)
        → OthersKept c
            (fsm_config_key st)
            s
            (c.put (fsm_config_key st) (plain yaml) (get_fsm_config c st unmarshal s).1).1
    others yaml s j ne =
        put_others law (fsm_config_key st) (plain yaml) (get_fsm_config c st unmarshal s).1 j ne
        ∙ get_fsm_config-Unchanged s j

    read_back :
        (yaml : String) (s s' : c.Server)
        → c.content s (fsm_config_key st) ≡ none
        → read_file path ≡ ok yaml
        → c.content s' (fsm_config_key st) ≡ some (plain yaml)
        → OthersKept c (fsm_config_key st) s s'
        → Sound s (get_fsm_config c st unmarshal s')
    read_back yaml s s' missing f made kept =
        let read = get_fsm_config-Unchanged s' in
        let rest : OthersKept c (fsm_config_key st) s (get_fsm_config c st unmarshal s').1
            × (c.content s (fsm_config_key st) ≢ none
                → Unchanged c s (get_fsm_config c st unmarshal s').1) =
          ((λ j ne. read j ∙ kept j ne), (λ h. absurd (h missing))) in
        elim (get_fsm_config-Answers s') [
          | inl (gone, e) ↦ (inl (_, e), rest.0, rest.1)
          | inr (inl (doc, found, e)) ↦ (inl (_, e), rest.0, rest.1)
          | inr (inr (inl (cfg, (doc, found, g), e))) ↦ (
            inr (cfg, e, (doc, read _ ∙ found, g), inr (yaml, missing, f, read _ ∙ made)),
            rest.0,
            rest.1,
          )
          | inr (inr (inr (why, e))) ↦ (inl (_, e), rest.0, rest.1)
        ]

    -- With a configuration in the cluster the bootstrap writes nothing; without one, it writes to
    -- no key but the configuration's. It ends with an error, or with the meaning of the text that
    -- the cluster then holds, which is the stored one or, where there was none, the file's.
    pub bootstrap_fsm_config-Bootstrapped :
        (s : c.Server)
        → let r = bootstrap_fsm_config unmarshal read_file c st path s in
          Bootstrapped s r
          × OthersKept c (fsm_config_key st) s r.1
          × (c.content s (fsm_config_key st) ≢ none → Unchanged c s r.1)
    unfolding bootstrap_fsm_config write_fsm_config
    bootstrap_fsm_config-Bootstrapped s =
        let read = get_fsm_config-Unchanged s in
        elim (get_fsm_config-Answers s) [
          | inr (inr (inl (cfg, (doc, found, f), e))) ↦
              rw (e, bootstrap_fsm_config)
                (inr (cfg, refl, (doc, read _ ∙ found, f), inl read), (λ j ne. read j), (λ h. read))
          | inr (inl (doc, found, e)) ↦
              rw (e, bootstrap_fsm_config) (inl (_, refl), (λ j ne. read j), (λ h. read))
          | inr (inr (inr (why, e))) ↦
              rw (e, bootstrap_fsm_config) (inl (_, refl), (λ j ne. read j), (λ h. read))
          | inl (missing, e) ↦ elim (Result-cases (read_file path)) [
            | inr (x, f) ↦
                rw (e, f, bootstrap_fsm_config) (inl (_, refl), (λ j ne. read j), (λ h. read))
            | inl (yaml, f) ↦
                elim (put_outcome law (fsm_config_key st) (plain yaml)
                  (get_fsm_config c st unmarshal s).1) [
                    | inr (x, g, _) ↦
                        rw (e, f, g, bootstrap_fsm_config)
                          (inl (_, refl), others yaml s, (λ h. absurd (h missing)))
                    | inl (g, made) ↦
                        let run : bootstrap_fsm_config unmarshal read_file c st path s
                            ≡ get_fsm_config c st unmarshal
                                (c.put (fsm_config_key st) (plain yaml)
                                  (get_fsm_config c st unmarshal s).1).1 =
                          rw (e, f, g, bootstrap_fsm_config) refl in
                        subst (λ (r : Result Config × c.Server). Sound s r) (sym run)
                          (read_back yaml s
                            (c.put (fsm_config_key st) (plain yaml)
                              (get_fsm_config c st unmarshal s).1).1
                            missing f made (others yaml s))
                  ]
          ]
        ]

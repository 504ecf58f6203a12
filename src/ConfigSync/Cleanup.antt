-- ===== src/ConfigSync/Cleanup.antt =====
-- _archive/config-sync-service/main.go: what a webhook runs and leaves behind.
use mrmfactorytest.Prelude.{
  String, Option, none, some, List, [], ◌∷◌, ◌++◌, mem, filter_by, false, not, ◌||◌, ◌==◌, ◌≡◌, ◌≢◌,
  ◌⊎◌,
}
use mrmfactorytest.Prelude.Outcomes.{Outcome, value, failure}
use mrmfactorytest.ConfigSync.{Payload, Response, Tools, clone_command, apply_command}

pub record IsWorkshop (t : Tools) : Type 0 where
  -- the temporary directories that are there, and the commands that were run, with their errors
  pub directories : t.World → List String
  pub commands : t.World → List (List String × Option String)
  pub made :
      (w : t.World) (dir : String)
      → (t.mkdir_temp w).0 ≡ value dir
      → (directories (t.mkdir_temp w).1 ≡ dir ∷ directories w) × (mem dir (directories w) ≡ false)
  pub not_made :
      (w : t.World) (e : String)
      → (t.mkdir_temp w).0 ≡ failure e
      → directories (t.mkdir_temp w).1 ≡ directories w
  pub mkdir_runs : (w : t.World) → commands (t.mkdir_temp w).1 ≡ commands w
  pub removed :
      (dir : String) (w : t.World)
      → directories (t.remove_all dir w) ≡ filter_by (λ x. not (x == dir)) (directories w)
  pub remove_runs : (dir : String) (w : t.World) → commands (t.remove_all dir w) ≡ commands w
  pub run_keeps :
      (argv : List String) (w : t.World) → directories (t.run_command argv w).1 ≡ directories w
  pub run_runs :
      (argv : List String) (w : t.World)
      → commands (t.run_command argv w).1 ≡ commands w ++ ((argv, (t.run_command argv w).0) ∷ [])

module _ {t : Tools} (l : IsWorkshop t) where
  abbrev pub Commands : Type 0
  Commands = List (List String × Option String)

  -- The answer is 200 after both commands without an error; or else the clone failed, or kubectl after
  -- it.
  abbrev pub Ran : Payload → String → String → String → Commands → Response → Commands → Type 0
  Ran p user token dir before answer after =
      let clone = clone_command user token p.clone_url dir in
      let apply = apply_command p.repo_name dir in
      ((answer.status ≡ 200) × (after ≡ before ++ ((clone, none) ∷ (apply, none) ∷ [])))
      ⊎ ((answer.status ≢ 200)
          × (e : String) × ((after ≡ before ++ ((clone, some e) ∷ []))
              ⊎ (after ≡ before ++ ((clone, none) ∷ (apply, some e) ∷ []))))

  -- Nothing is run and the request is refused, or the commands for the payload of the request are.
  abbrev pub Handled : Outcome String String → t.World → Response → t.World → Type 0
  Handled request w answer w' =
      ((answer.status ≢ 200) × (l.commands w' ≡ l.commands w))
      ⊎ ((body : String) × (p : Payload) × (dir : String) × (request ≡ value body)
          × (t.unmarshal body ≡ value p)
          × ((p.repo_name == "" || p.clone_url == "") ≡ false)
          × Ran p (t.env "GITEA_BOT_USER") (t.env "GITEA_BOT_TOKEN") dir (l.commands w) answer
              (l.commands w'))

-- ===== src/ConfigSync.antt =====
-- _archive/config-sync-service/main.go: the webhook that copies a repository's configuration into a
-- ConfigMap. The disk, the environment and the programs that are run are an interface; the log is left
-- out.
pub mod Cleanup
use Prim.Native.String.{◌++◌}
use mrmfactorytest.Prelude.{
  ℕ, String, Option, none, some, List, [], ◌∷◌, Bool, ◌||◌, ◌==◌, if◌then◌else◌, replace_first,
}
use mrmfactorytest.Prelude.Outcomes.{Outcome, value, failure}

-- repository.name and repository.clone_url
pub record Payload : Type 0 where
  pub repo_name : String
  pub clone_url : String

pub record Response : Type 0 where
  pub status : ℕ
  pub text : String

pub record Tools : Type 1 where
  pub World : Type 0
  pub unmarshal : String → Outcome String Payload
  -- os.Getenv
  pub env : String → String
  pub mkdir_temp : World → Outcome String String × World
  pub remove_all : String → World → World
  -- exec.Command and CombinedOutput, on the program and its arguments
  pub run_command : List String → World → Option String × World

abbrev pub refuse : ℕ → String → Response
refuse status text = record { status = status; text = text }

unfoldable pub authenticated_clone_url : String → String → String → String
authenticated_clone_url user token url =
    "http://"
    ++ (user
        ++ (":"
            ++ (token
                ++ ("@gitea-http.gitea.svc.cluster.local:3000"
                    ++ replace_first "http://gitea.c9ff5e0.kyma.ondemand.com" "" url))))

unfoldable pub clone_command : String → String → String → String → List String
clone_command user token url dir =
    "git" ∷ "clone" ∷ authenticated_clone_url user token url ∷ dir ∷ []

-- The path of filepath.Join is that of a directory that os.MkdirTemp names.
unfoldable pub apply_command : String → String → List String
apply_command repo dir =
    "sh"
    ∷ "-c"
    ∷ ("kubectl create configmap "
        ++ (repo
            ++ ("-config --from-file="
                ++ (dir
                    ++ "/fsm-config.yaml --dry-run=client -o yaml | kubectl apply -f - -n gitea"))))
    ∷ []

module _ (t : Tools) where
  abbrev pub applied : Payload → Option String × t.World → Response × t.World
  applied p (some e, w) = (refuse 500 "Error applying ConfigMap", w)
  applied p (none, w) =
      (refuse 200 ("Webhook processed successfully for repository " ++ p.repo_name), w)

  abbrev pub cloned : Payload → String → Option String × t.World → Response × t.World
  cloned p dir (some e, w) = (refuse 500 "Error cloning repository", w)
  cloned p dir (none, w) = applied p (t.run_command (apply_command p.repo_name dir) w)

  -- The rest of the handler, and the deferred removal.
  abbrev pub in_directory :
      Payload → String → String → Outcome String String × t.World → Response × t.World
  in_directory p user token (failure e, w) = (refuse 500 "Internal server error", w)
  in_directory p user token (value dir, w) =
      let (answer, w') =
        cloned p dir (t.run_command (clone_command user token p.clone_url dir) w) in
      (answer, t.remove_all dir w')

  abbrev pub with_credentials : Payload → String → String → t.World → Response × t.World
  with_credentials p user token w =
      if user == "" || token == ""
      then (refuse 500 "Internal server configuration error", w)
      else in_directory p user token (t.mkdir_temp w)

  abbrev pub parsed : Outcome String Payload → t.World → Response × t.World
  parsed (failure e) w = (refuse 400 "Error unmarshaling webhook payload", w)
  parsed (value p) w =
      if p.repo_name == "" || p.clone_url == ""
      then (refuse 400 "Invalid webhook payload", w)
      else with_credentials p (t.env "GITEA_BOT_USER") (t.env "GITEA_BOT_TOKEN") w

  -- The argument is what io.ReadAll finds.
  unfoldable pub handle_webhook : Outcome String String → t.World → Response × t.World
  handle_webhook (failure e) w = (refuse 500 "Error reading request body", w)
  handle_webhook (value body) w = parsed (t.unmarshal body) w

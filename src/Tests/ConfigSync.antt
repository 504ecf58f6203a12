-- ===== src/Tests/ConfigSync.antt =====
-- The webhook on a disk in memory, where git works and kubectl fails.
use mrmfactorytest.Prelude.{
  String, Option, none, some, List, [], ◌∷◌, ◌++◌, mem, filter_by, Bool, true, false, not, ◌==◌,
  if◌then◌else◌, ◌≡◌, refl, sym, subst, length,
}
use mrmfactorytest.Prelude.Outcomes.{Outcome, value, failure}
use mrmfactorytest.ConfigSync.{Tools, handle_webhook, clone_command, apply_command}
use mrmfactorytest.ConfigSync.Cleanup.{IsWorkshop}

record Workshop : Type 0 where
  directories : List String
  commands : List (List String × Option String)

abbrev made_in : Bool → Workshop → Outcome String String × Workshop
made_in true w = (failure "exists", w)
made_in false w = (value "tmp", record w { directories = "tmp" ∷ w.directories })

abbrev error_of : List String → Option String
error_of [] = none
error_of (program ∷ arguments) = if program == "sh" then some "no cluster" else none

abbrev tools : Tools
tools = record {
  World = Workshop;
  unmarshal = λ body. value (record { repo_name = "shop"; clone_url = "http://git/shop.git" });
  env = λ name. "x";
  mkdir_temp = λ w. made_in (mem "tmp" w.directories) w;
  remove_all = λ dir w. record w { directories = filter_by (λ x. not (x == dir)) w.directories };
  run_command =
      λ argv w. (error_of argv, record w { commands = w.commands ++ ((argv, error_of argv) ∷ []) });
}

failure-ne-value : (e a : String) → ◌≡◌ {A = Outcome String String} (failure e) (value a) → ⊥
failure-ne-value e a p = cc

value-inj : (a b : String) → ◌≡◌ {A = Outcome String String} (value a) (value b) → a ≡ b
value-inj a b p = cc

fresh :
    (b : Bool) (w : Workshop) (dir : String)
    → mem "tmp" w.directories ≡ b
    → (made_in b w).0 ≡ value dir
    → ((made_in b w).1.directories ≡ dir ∷ w.directories) × (mem dir w.directories ≡ false)
fresh true w dir there e = absurd (failure-ne-value "exists" dir e)
fresh false w dir there e =
    subst
      (λ (d : String).
        ((made_in false w).1.directories ≡ d ∷ w.directories) × (mem d w.directories ≡ false))
      (value-inj "tmp" dir e) (refl, there)

unchanged_on_failure :
    (b : Bool) (w : Workshop) (e : String)
    → (made_in b w).0 ≡ failure e
    → (made_in b w).1.directories ≡ w.directories
unchanged_on_failure true w e h = refl
unchanged_on_failure false w e h = absurd (failure-ne-value e "tmp" (sym h))

runs_nothing : (b : Bool) (w : Workshop) → (made_in b w).1.commands ≡ w.commands
runs_nothing true w = refl
runs_nothing false w = refl

abbrev workshop : IsWorkshop tools
workshop = record {
  directories = λ w. w.directories;
  commands = λ w. w.commands;
  made = λ w dir e. fresh (mem "tmp" w.directories) w dir refl e;
  not_made = λ w e h. unchanged_on_failure (mem "tmp" w.directories) w e h;
  mkdir_runs = λ w. runs_nothing (mem "tmp" w.directories) w;
  removed = λ dir w. refl;
  remove_runs = λ dir w. refl;
  run_keeps = λ argv w. refl;
  run_runs = λ argv w. refl;
}

abbrev clean : Workshop
clean = record { directories = []; commands = [] }

both-run : length (handle_webhook tools (value "{}") clean).1.commands ≡ 2
unfolding handle_webhook clone_command apply_command
both-run = refl

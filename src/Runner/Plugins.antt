-- ===== src/Runner/Plugins.antt =====
-- _archive/taskrunner/runner.go and plugins.go: the loading of a task's plugin, over the packages `plugin`
-- and `reflect` as an interface. What a plugin itself does is its function.
use Prim.Native.String.{◌++◌}
use mrmfactorytest.Prelude.{String, Option, none, some, Bool, if◌then◌else◌}
use mrmfactorytest.Prelude.Outcomes.{Outcome, value, failure}
use mrmfactorytest.Value.{Entries, null}
use mrmfactorytest.Config.{Task}
use mrmfactorytest.Runner.Worker.{PluginResult}

-- `as_execute` is the assertion of the type func(map[string]interface{}) (interface{}, error), `is_func`
-- that the kind is a function's. `join` is filepath.Join.
pub record Plugins : Type 1 where
  pub Plugin : Type 0
  pub Symbol : Type 0
  pub open_plugin : String → Outcome String Plugin
  pub find_symbol : String → Plugin → Outcome String Symbol
  pub as_execute : Symbol → Option (Entries → PluginResult)
  pub is_func : Symbol → Bool
  pub join : String → String → String

abbrev failed_with : String → PluginResult
failed_with why = record { output = null; error = some why }

abbrev told : Task → String → String
told task rest = "task '" ++ (task.id ++ ("': " ++ rest))

abbrev not_loaded : Task → String → String
not_loaded task why = told task ("error loading plugin " ++ (task.package_path ++ (": " ++ why)))

module _ (p : Plugins) where
  abbrev called : Task → Entries → Option (Entries → PluginResult) → PluginResult
  called task context (some execute) = execute context
  called task context none = failed_with (
      told task (
        "method '"
        ++ (task.method ++ ("' in plugin " ++ (task.package_path ++ " has incorrect signature")))))

  abbrev with_symbol : Task → Entries → Outcome String p.Symbol → PluginResult
  with_symbol task context (value s) = called task context (p.as_execute s)
  with_symbol task context (failure why) = failed_with (
      told task (
        "error looking up method '"
        ++ (task.method ++ ("' in plugin " ++ (task.package_path ++ (": " ++ why))))))

  abbrev with_plugin : Task → Entries → Outcome String p.Plugin → PluginResult
  with_plugin task context (value plugin) =
      with_symbol task context (p.find_symbol task.method plugin)
  with_plugin task context (failure why) = failed_with (not_loaded task why)

  -- The method of the runner. The result is the `run_plugin` of a worker.
  unfoldable pub execute_plugin_task : String → Task → Entries → PluginResult
  execute_plugin_task plugins_dir task context =
      with_plugin task context (p.open_plugin (p.join plugins_dir task.package_path))

  abbrev called_alone : Task → Entries → p.Symbol → Option (Entries → PluginResult) → PluginResult
  called_alone task context s (some execute) = execute context
  called_alone task context s none =
      if p.is_func s
      then failed_with (told task ("symbol " ++ (task.method ++ " has an incorrect signature")))
      else failed_with (told task ("symbol " ++ (task.method ++ " is not a function")))

  abbrev with_symbol_alone : Task → Entries → Outcome String p.Symbol → PluginResult
  with_symbol_alone task context (value s) = called_alone task context s (p.as_execute s)
  with_symbol_alone task context (failure why) =
      failed_with (told task ("error looking up symbol " ++ (task.method ++ (": " ++ why))))

  abbrev with_plugin_alone : Task → Entries → Outcome String p.Plugin → PluginResult
  with_plugin_alone task context (value plugin) =
      with_symbol_alone task context (p.find_symbol task.method plugin)
  with_plugin_alone task context (failure why) = failed_with (not_loaded task why)

  -- The function of plugins.go, which takes the package's path as it is.
  unfoldable pub execute_plugin_alone : Task → Entries → PluginResult
  execute_plugin_alone task context =
      with_plugin_alone task context (p.open_plugin task.package_path)

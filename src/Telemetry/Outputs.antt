-- ===== src/Telemetry/Outputs.antt =====
-- internal/telemetry/manager.go: which handlers an initialization makes.
use mrmfactorytest.Prelude.{String, List, [], ◌∷◌, ◌≡◌, ◌⊎◌}
use mrmfactorytest.Store.Decimal.{ℤ}
use mrmfactorytest.Telemetry.{
  TelemetryConfig, Logs, log_file, Shutdown, close, shut_provider, ExporterType, console_exporter,
  file_exporter, otlp_exporter, create_exporter, formatted, create_console, or_console, Created,
}

module _ (l : Logs) (to_lower : String → String) (cfg : TelemetryConfig) (level : ℤ) where
  abbrev Handled : Type 0
  Handled = l.Handler × Shutdown l to_lower

  -- The console, with nothing to do at the end.
  abbrev IsConsole : Handled → Type 0
  IsConsole x = x ≡ create_console l to_lower cfg level

  -- What an output's exporter makes if it makes anything: what is opened is closed at the end.
  abbrev pub IsOf : ExporterType → Handled → Type 0
  IsOf console_exporter x = IsConsole x
  IsOf file_exporter x = (f : l.File) × (x ≡ (formatted l to_lower cfg (log_file f) level, close f))
  IsOf otlp_exporter x = (p : l.Provider) × (x ≡ (l.otel_handler cfg.service_name, shut_provider p))

  -- Each output has its own handler or, in its place, the console.
  abbrev pub Serves : List String → List Handled → Type 0
  Serves [] [] = Unit
  Serves [] (x ∷ xs) = ⊥
  Serves (o ∷ os) [] = ⊥
  Serves (o ∷ os) (x ∷ xs) = (IsOf (create_exporter o) x ⊎ IsConsole x) × Serves os xs

  abbrev OtlpOrConsole : Created l to_lower → Type 0
  OtlpOrConsole answer =
      IsOf otlp_exporter (or_console l to_lower cfg level answer)
      ⊎ IsConsole (or_console l to_lower cfg level answer)

  -- With no output, the console alone.
  abbrev pub ServesAll : List String → List Handled → Type 0
  ServesAll [] xs = xs ≡ create_console l to_lower cfg level ∷ []
  ServesAll (o ∷ os) xs = Serves (o ∷ os) xs

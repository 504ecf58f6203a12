-- ===== src/Telemetry/Combined.antt =====
-- internal/telemetry/manager.go: the handler that combines several, the guards of the package, and the end
-- of the logging.
use mrmfactorytest.Prelude.{
  String, Option, none, some, List, [], ◌∷◌, map, Bool, false, ◌||◌, ◌≡◌, refl, if◌then◌else◌,
  filter_by, Bool-cases, inl, inr,
}
use mrmfactorytest.Store.Decimal.{ℤ}
use mrmfactorytest.Telemetry.{
  TelemetryConfig, Logs, Shutdown, nothing, close, shut_provider, do_initialize,
}

module _ (l : Logs) where
  unfoldable pub multi_enabled : List l.Handler → ℤ → Bool
  multi_enabled [] level = false
  multi_enabled (h ∷ hs) level = l.enabled h level || multi_enabled hs level

  -- The errors of the handlers are dropped; the result is nil.
  unfoldable pub multi_handle : List l.Handler → l.Record → l.World → l.World
  multi_handle [] r w = w
  multi_handle (h ∷ hs) r w =
      multi_handle hs r (if l.enabled h (l.level r) then (l.handle h r w).1 else w)

  abbrev pub multi_with_attrs : List l.Attr → List l.Handler → List l.Handler
  multi_with_attrs attrs hs = map (l.with_attrs attrs) hs

  abbrev pub multi_with_group : String → List l.Handler → List l.Handler
  multi_with_group name hs = map (l.with_group name) hs

  -- Every handler that takes the record's level, in order.
  abbrev pub write_each : List l.Handler → l.Record → l.World → l.World
  write_each [] r w = w
  write_each (h ∷ hs) r w = write_each hs r (l.handle h r w).1

  -- The combined handler gives a record to each handler that takes its level, in order and once, whatever
  -- errors the handlers return.
  pub multi_handle-filter :
      (hs : List l.Handler) (r : l.Record) (w : l.World)
      → multi_handle hs r w ≡ write_each (filter_by (λ h. l.enabled h (l.level r)) hs) r w
  unfolding multi_handle
  multi_handle-filter [] r w = refl
  multi_handle-filter (h ∷ hs) r w = elim (Bool-cases (l.enabled h (l.level r))) [
    | inl e ↦ rw e (multi_handle-filter hs r (l.handle h r w).1)
    | inr e ↦ rw e (multi_handle-filter hs r w)
  ]

  module _ (to_lower : String → String) where
    abbrev pub End : Type 0
    End = Shutdown l to_lower

    unfoldable pub run_shutdown : End → l.World → Option String × l.World
    run_shutdown nothing w = (none, w)
    run_shutdown (close f) w = l.close_file f w
    run_shutdown (shut_provider p) w = l.shut_down p w

    abbrev or_last : Option String → Option String → Option String
    or_last none last = last
    or_last (some e) last = some e

    -- The error is that of the last one that fails.
    unfoldable pub run_shutdowns : List End → Option String → l.World → Option String × l.World
    run_shutdowns [] last w = (last, w)
    run_shutdowns (x ∷ xs) last w =
        let (answer, w') = run_shutdown x w in run_shutdowns xs (or_last answer last) w'

    -- The package's guards: `none` until the first call of Initialize.
    pub record Guards : Type 0 where
      pub world : l.World
      pub shutdown : Option (List End)

    unfoldable pub initialize : TelemetryConfig → Guards → List End × Guards
    initialize cfg g = elim g.shutdown [
      | some xs ↦ (xs, g)
      | none ↦
          let (xs, w) = do_initialize l to_lower cfg g.world in
          (xs, record { world = w; shutdown = some xs })
    ]

    unfoldable pub shut_down : Guards → Option String × Guards
    shut_down g = elim g.shutdown [
      | none ↦ (none, g)
      | some xs ↦
          let (answer, w) = run_shutdowns xs none g.world in (answer, record g { world = w })
    ]

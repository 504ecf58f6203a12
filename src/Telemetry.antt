-- ===== src/Telemetry.antt =====
-- internal/telemetry: the logging of a node. The handlers of log/slog, the files, TLS and the exporters of
-- OpenTelemetry are an interface; `to_lower` is strings.ToLower.
pub mod Combined
pub mod Outputs
use mrmfactorytest.Prelude.{
  String, Option, none, some, List, [], ◌∷◌, ◌++◌, map, Bool, true, false, not, ◌&&◌, ◌==◌,
  if◌then◌else◌,
}
use mrmfactorytest.Prelude.Outcomes.{Outcome, value, failure}
use mrmfactorytest.Store.Decimal.{ℤ, pos, negsuc}

pub record OtelExporter : Type 0 where
  pub endpoint : String
  pub insecure : Bool
  pub headers : List (String × String)
  pub cert : String
  pub key : String
  pub server_ca : String

pub record TelemetryConfig : Type 0 where
  pub service_name : String
  pub log_level : String
  pub log_format : String
  pub log_outputs : List String
  pub log_file_path : String
  pub otel_exporter : OtelExporter

-- What a configuration holds before it is read.
abbrev zero_config : TelemetryConfig
zero_config = record {
  service_name = "";
  log_level = "";
  log_format = "";
  log_outputs = [];
  log_file_path = "";
  otel_exporter = record {
    endpoint = "";
    insecure = false;
    headers = [];
    cert = "";
    key = "";
    server_ca = "";
  };
}

-- yaml.Unmarshal fills a configuration, in part where it fails.
unfoldable pub load_config :
    (String → Outcome String String)
    → (String → TelemetryConfig → TelemetryConfig × Option String)
    → String
    → TelemetryConfig × Option String
load_config read_file unmarshal path =
    if path == "" then (zero_config, none) else elim (read_file path) [
      | failure e ↦ (zero_config, some e)
      | value text ↦ unmarshal text zero_config
    ]

pub data Sink (File : Type 0) : Type 0 where
  stdout : Sink File
  log_file : File → Sink File

-- What otlploggrpc.New is given.
pub data ExporterOption (KeyPair CertPool : Type 0) : Type 0 where
  with_endpoint : String → ExporterOption KeyPair CertPool
  with_insecure : ExporterOption KeyPair CertPool
  with_tls_credentials : KeyPair → CertPool → ExporterOption KeyPair CertPool
  with_headers : List (String × String) → ExporterOption KeyPair CertPool

-- The types and the calls that the code relies on; an error is its text, and `none` is nil.
pub record Logs : Type 1 where
  pub World : Type 0
  pub File : Type 0
  pub KeyPair : Type 0
  pub CertPool : Type 0
  pub Client : Type 0
  pub Resource : Type 0
  pub Provider : Type 0
  pub Handler : Type 0
  pub Record : Type 0
  pub Attr : Type 0
  pub open_file : String → World → Outcome String File × World
  pub close_file : File → World → Option String × World
  pub x509_key_pair : String → String → Outcome String KeyPair
  pub append_certs : String → Option CertPool
  pub new_client : List (ExporterOption KeyPair CertPool) → World → Outcome String Client × World
  pub new_resource : String → World → Outcome String Resource × World
  pub default_resource : Resource
  -- with a batch processor
  pub new_provider : Client → Resource → World → Provider × World
  pub set_provider : Provider → World → World
  pub shut_down : Provider → World → Option String × World
  pub json_handler : Sink File → ℤ → Handler
  pub text_handler : Sink File → ℤ → Handler
  pub otel_handler : String → Handler
  pub level : Record → ℤ
  pub enabled : Handler → ℤ → Bool
  pub handle : Handler → Record → World → Option String × World
  pub with_attrs : List Attr → Handler → Handler
  pub with_group : String → Handler → Handler
  -- slog.SetDefault with the combined handler
  pub set_default : List Handler → World → World

pub data ExporterType : Type 0 where
  console_exporter file_exporter otlp_exporter : ExporterType

-- CreateExporter; the console is the default.
abbrev pub create_exporter : String → ExporterType
create_exporter output =
    if output == "file"
    then file_exporter
    else if output == "otlp"
    then otlp_exporter
    else console_exporter

-- slog's levels are numbers.
unfoldable pub parse_log_level : (String → String) → String → ℤ
parse_log_level to_lower text =
    let lower = to_lower text in
    if lower == "debug"
    then negsuc 3
    else if lower == "info"
    then pos 0
    else if lower == "warn"
    then pos 4
    else if lower == "warning"
    then pos 4
    else if lower == "error"
    then pos 8
    else pos 0

module _ (l : Logs) (to_lower : String → String) where
  -- The functions that the exporters return for the end.
  pub data Shutdown : Type 0 where
    nothing : Shutdown
    close : l.File → Shutdown
    shut_provider : l.Provider → Shutdown

  abbrev pub Created : Type 0
  Created = Outcome String (l.Handler × Shutdown)

  abbrev pub formatted : TelemetryConfig → Sink l.File → ℤ → l.Handler
  formatted cfg sink level =
      if to_lower cfg.log_format == "json"
      then l.json_handler sink level
      else l.text_handler sink level

  abbrev pub create_console : TelemetryConfig → ℤ → l.Handler × Shutdown
  create_console cfg level = (formatted cfg stdout level, nothing)

  abbrev on_file : TelemetryConfig → ℤ → Outcome String l.File → Created
  on_file cfg level (failure e) = failure e
  on_file cfg level (value f) = value (formatted cfg (log_file f) level, close f)

  unfoldable pub create_file : TelemetryConfig → ℤ → l.World → Created × l.World
  create_file cfg level w =
      let (answer, w') = l.open_file cfg.log_file_path w in (on_file cfg level answer, w')

  abbrev pub Options : Type 0
  Options = List (ExporterOption l.KeyPair l.CertPool)

  abbrev with_pool : l.KeyPair → Option l.CertPool → Outcome String Options
  with_pool pair none = failure "failed to add server CA certificate"
  with_pool pair (some pool) = value (with_tls_credentials pair pool ∷ [])

  abbrev with_pair : OtelExporter → Outcome String l.KeyPair → Outcome String Options
  with_pair o (failure e) = failure e
  with_pair o (value pair) = with_pool pair (l.append_certs o.server_ca)

  abbrev has_certificates : OtelExporter → Bool
  has_certificates o = not (o.cert == "") && (not (o.key == "") && not (o.server_ca == ""))

  unfoldable pub security_options : OtelExporter → Outcome String Options
  security_options o =
      if o.insecure
      then value (with_insecure ∷ [])
      else if has_certificates o
      then with_pair o (l.x509_key_pair o.cert o.key)
      else value []

  abbrev header_options : List (String × String) → Options
  header_options [] = []
  header_options (h ∷ hs) = with_headers (h ∷ hs) ∷ []

  abbrev resource_or_default : Outcome String l.Resource → l.Resource
  resource_or_default (value r) = r
  resource_or_default (failure e) = l.default_resource

  -- What follows otlploggrpc.New.
  abbrev pub with_client : TelemetryConfig → Outcome String l.Client → l.World → Created × l.World
  with_client cfg (failure e) w = (failure e, w)
  with_client cfg (value client) w =
      let (answer, w1) = l.new_resource cfg.service_name w in
      let (provider, w2) = l.new_provider client (resource_or_default answer) w1 in
      (value (l.otel_handler cfg.service_name, shut_provider provider), l.set_provider provider w2)

  abbrev pub with_security : TelemetryConfig → Outcome String Options → l.World → Created × l.World
  with_security cfg (failure e) w = (failure e, w)
  with_security cfg (value security) w =
      let o = cfg.otel_exporter in
      let (answer, w') =
        l.new_client (with_endpoint o.endpoint ∷ (security ++ header_options o.headers)) w in
      with_client cfg answer w'

  unfoldable pub create_otlp : TelemetryConfig → l.World → Created × l.World
  create_otlp cfg w = with_security cfg (security_options cfg.otel_exporter) w

  abbrev pub create_handler : ExporterType → TelemetryConfig → ℤ → l.World → Created × l.World
  create_handler console_exporter cfg level w = (value (create_console cfg level), w)
  create_handler file_exporter cfg level w = create_file cfg level w
  create_handler otlp_exporter cfg level w = create_otlp cfg w

  -- A failed exporter is replaced by the console.
  abbrev pub or_console : TelemetryConfig → ℤ → Created → l.Handler × Shutdown
  or_console cfg level (value created) = created
  or_console cfg level (failure e) = create_console cfg level

  -- The loop over the outputs.
  unfoldable pub create_all :
      TelemetryConfig → ℤ → List String → l.World → List (l.Handler × Shutdown) × l.World
  create_all cfg level [] w = ([], w)
  create_all cfg level (output ∷ outputs) w =
      let (answer, w1) = create_handler (create_exporter output) cfg level w in
      let (rest, w2) = create_all cfg level outputs w1 in (or_console cfg level answer ∷ rest, w2)

  abbrev pub if_empty :
      TelemetryConfig → ℤ → List (l.Handler × Shutdown) → List (l.Handler × Shutdown)
  if_empty cfg level [] = create_console cfg level ∷ []
  if_empty cfg level (x ∷ xs) = x ∷ xs

  -- The functions for the end, in order. There is no error.
  unfoldable pub do_initialize : TelemetryConfig → l.World → List Shutdown × l.World
  do_initialize cfg w =
      let level = parse_log_level to_lower cfg.log_level in
      let (created, w') = create_all cfg level cfg.log_outputs w in
      let all = if_empty cfg level created in
      (map (λ x. x.1) all, l.set_default (map (λ x. x.0) all) w')

-- ===== src/Tests/Telemetry.antt =====
-- The initialization of the logging on a system whose file cannot be opened.
use mrmfactorytest.Prelude.{String, none, some, List, [], ◌∷◌, ◌++◌, true, ◌≡◌, refl}
use mrmfactorytest.Prelude.Outcomes.{value, failure}
use mrmfactorytest.Store.Decimal.{pos}
use mrmfactorytest.Telemetry.{
  TelemetryConfig, Logs, nothing, shut_provider, do_initialize, parse_log_level, create_all,
  create_file, create_otlp, security_options,
}

-- A handler is its name; the world lists the names of the default handlers.
abbrev system : Logs
system = record {
  World = List String;
  File = String;
  KeyPair = String;
  CertPool = String;
  Client = String;
  Resource = String;
  Provider = String;
  Handler = String;
  Record = String;
  Attr = String;
  open_file = λ path w. (failure "permission denied", w);
  close_file = λ f w. (none, w);
  x509_key_pair = λ cert key. value "pair";
  append_certs = λ ca. some "pool";
  new_client = λ options w. (value "client", w);
  new_resource = λ name w. (value name, w);
  default_resource = "default";
  new_provider = λ client resource w. ("provider", w);
  set_provider = λ provider w. w;
  shut_down = λ provider w. (none, w);
  json_handler = λ sink level. "json";
  text_handler = λ sink level. "text";
  otel_handler = λ name. "otel";
  level = λ r. pos 0;
  enabled = λ h n. true;
  handle = λ h r w. (none, w ++ h ∷ []);
  with_attrs = λ attrs h. h;
  with_group = λ name h. h;
  set_default = λ handlers w. handlers;
}

abbrev cfg : TelemetryConfig
cfg = record {
  service_name = "mrm";
  log_level = "debug";
  log_format = "json";
  log_outputs = "file" ∷ "otlp" ∷ "screen" ∷ [];
  log_file_path = "/var/log/mrm.log";
  otel_exporter = record {
    endpoint = "collector:4317";
    insecure = true;
    headers = [];
    cert = "";
    key = "";
    server_ca = "";
  };
}

all_started :
    do_initialize system (λ s. s) cfg []
    ≡ (nothing ∷ shut_provider "provider" ∷ nothing ∷ [], "json" ∷ "otel" ∷ "json" ∷ [])
unfolding do_initialize create_all create_file create_otlp security_options parse_log_level
all_started = refl

-- ===== src/Adaptors/Route53.antt =====
-- adaptors/dns-adaptor-route53/main.go: the change of one DNS record. encoding/json and the AWS client
-- are an interface; the log is left out.
pub mod Sent
use Prim.Native.String.{◌++◌}
use mrmfactorytest.Prelude.{
  zero, String, List, [], ◌∷◌, Bool, true, false, not, ◌||◌, ◌==◌, if◌then◌else◌,
}
use mrmfactorytest.Prelude.Outcomes.{
  Outcome, value, failure, Action, pure, raise, from_outcome, ◌>>=◌, wrap, rename,
}
use mrmfactorytest.Value.{Entries}
use mrmfactorytest.Store.Decimal.{ℤ, pos, negsuc, show}

pub record FailoverContext : Type 0 where
  pub access_key : String
  pub secret_key : String
  pub region : String
  pub hosted_zone_id : String
  pub record_name : String
  pub record_type : String
  pub ttl : ℤ
  pub target_value : String
  pub priority : ℤ
  pub weight : ℤ
  pub port : ℤ
  pub target : String

pub data RouteError : Type 0 where
  bad_input bad_context no_session update_failed : String → RouteError
  missing_field no_target_value no_target : RouteError
  unsupported_type : String → RouteError

pub record ResourceRecordSet : Type 0 where
  pub name : String
  pub record_type : String
  pub ttl : ℤ
  pub values : List String

pub record Change : Type 0 where
  pub action : String
  pub record_set : ResourceRecordSet

pub record ChangeInput : Type 0 where
  pub hosted_zone_id : String
  pub comment : String
  pub changes : List Change

pub record Aws : Type 1 where
  pub World : Type 0
  pub Session : Type 0
  pub marshal : Entries → Outcome String String
  pub unmarshal : String → Outcome String FailoverContext
  -- region, access key, secret key
  pub new_session : String → String → String → Outcome String Session
  -- the id of the change
  pub change_resource_record_sets : Session → ChangeInput → World → Outcome String String × World

-- The map that is returned; the new value is behind a pointer.
pub record RouteOutput : Type 0 where
  pub status : String
  pub change_id : String
  pub record_name : String
  pub record_type : String
  pub new_value : String

abbrev pub is_incomplete : FailoverContext → Bool
is_incomplete cfg =
    cfg.access_key == ""
    || (cfg.secret_key == ""
        || (cfg.region == ""
            || (cfg.hosted_zone_id == "" || (cfg.record_name == "" || cfg.record_type == ""))))

abbrev pub ttl_or_default : ℤ → ℤ
ttl_or_default (pos zero) = pos 60
ttl_or_default ttl = ttl

abbrev pub with_default_ttl : FailoverContext → FailoverContext
with_default_ttl cfg = record cfg { ttl = ttl_or_default cfg.ttl }

abbrev pub record_of : FailoverContext → String → String → ResourceRecordSet
record_of cfg type text = record {
  name = cfg.record_name;
  record_type = type;
  ttl = cfg.ttl;
  values = text ∷ [];
}

-- fmt.Sprintf("%d %d %d %s", …)
abbrev pub srv_value : FailoverContext → String
srv_value cfg =
    show cfg.priority
    ++ (" " ++ (show cfg.weight ++ (" " ++ (show cfg.port ++ (" " ++ cfg.target)))))

-- The switch on the type.
unfoldable pub resource_record_set : FailoverContext → Outcome RouteError ResourceRecordSet
resource_record_set cfg =
    if cfg.record_type == "A"
    then (if cfg.target_value == ""
        then failure no_target_value
        else value (record_of cfg "A" cfg.target_value))
    else if cfg.record_type == "CNAME"
    then (if cfg.target_value == ""
        then failure no_target_value
        else value (record_of cfg "CNAME" cfg.target_value))
    else if cfg.record_type == "SRV"
    then (if cfg.target == ""
        then failure no_target
        else value (record_of cfg "SRV" (srv_value cfg)))
    else failure (unsupported_type cfg.record_type)

abbrev pub change_input : FailoverContext → ResourceRecordSet → ChangeInput
change_input cfg set = record {
  hosted_zone_id = cfg.hosted_zone_id;
  comment = "FSM-triggered update for " ++ cfg.record_name;
  changes = record { action = "UPSERT"; record_set = set } ∷ [];
}

-- *ResourceRecords[0].Value
abbrev first_value : List String → String
first_value [] = ""
first_value (v ∷ vs) = v

abbrev pub output_of : FailoverContext → ResourceRecordSet → String → RouteOutput
output_of cfg set id = record {
  status = "SUCCESS";
  change_id = id;
  record_name = cfg.record_name;
  record_type = cfg.record_type;
  new_value = first_value set.values;
}

module _ (a : Aws) where
  abbrev pub Call : Type 0 → Type 0
  Call A = Action RouteError a.World A

  abbrev pub send : FailoverContext → ResourceRecordSet → a.Session → Call RouteOutput
  send cfg set session = do
    id ← wrap update_failed (a.change_resource_record_sets session (change_input cfg set))
    pure (output_of cfg set id)

  -- From the default of the TTL on.
  unfoldable pub run_complete : FailoverContext → Call RouteOutput
  run_complete cfg = do
    session ←
        from_outcome (rename no_session (a.new_session cfg.region cfg.access_key cfg.secret_key))
    set ← from_outcome (resource_record_set cfg)
    send cfg set session

  abbrev pub run_parsed : FailoverContext → Call RouteOutput
  run_parsed cfg =
      if is_incomplete cfg then raise missing_field else run_complete (with_default_ttl cfg)

  unfoldable pub execute : Entries → Call RouteOutput
  execute raw = do
    text ← from_outcome (rename bad_input (a.marshal raw))
    cfg ← from_outcome (rename bad_context (a.unmarshal text))
    run_parsed cfg

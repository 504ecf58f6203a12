-- ===== src/Tests/Route53.antt =====
-- The DNS plugin with an AWS client that lists the changes it is sent.
use mrmfactorytest.Prelude.{List, [], ◌∷◌, length, ◌≡◌, refl}
use mrmfactorytest.Prelude.Outcomes.{value}
use mrmfactorytest.Value.{end}
use mrmfactorytest.Store.Decimal.{pos, show}
use mrmfactorytest.Adaptors.Route53.{
  Aws, ChangeInput, FailoverContext, execute, run_complete, resource_record_set,
}
use mrmfactorytest.Adaptors.Route53.Sent.{SentOrRefused, execute-SentOrRefused}

abbrev service : FailoverContext
service = record {
  access_key = "k";
  secret_key = "s";
  region = "eu";
  hosted_zone_id = "Z1";
  record_name = "_sip.example.com";
  record_type = "SRV";
  ttl = pos 0;
  target_value = "";
  priority = pos 1;
  weight = pos 2;
  port = pos 5060;
  target = "sip.example.com";
}

abbrev aws : Aws
aws = record {
  World = List ChangeInput;
  Session = Unit {0};
  marshal = λ raw. value "{}";
  unmarshal = λ text. value service;
  new_session = λ region access secret. value tt;
  change_resource_record_sets = λ session input w. (value "C1", input ∷ w);
}

execute-SentOrRefused_example : let r = execute aws end [] in SentOrRefused aws end [] r.0 r.1
execute-SentOrRefused_example = execute-SentOrRefused aws end []

execute-sends : length (execute aws end []).1 ≡ 1
unfolding execute run_complete resource_record_set show
execute-sends = refl

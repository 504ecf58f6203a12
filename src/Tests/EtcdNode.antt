-- ===== src/Tests/EtcdNode.antt =====
-- The start of an etcd node on a cluster in memory: a world is the list of its members.
use mrmfactorytest.Prelude.{
  String, none, some, List, [], ◌∷◌, ◌++◌, Map, filter_by, eqb, not, ◌≡◌, refl, ◌==◌, if◌then◌else◌,
  true, sym,
}
use mrmfactorytest.Prelude.Outcomes.{Outcome, value, failure}
use mrmfactorytest.Store.Decimal.{pos}
use mrmfactorytest.EtcdNode.{Host, Member, NodeConfig, new_default_config}
use mrmfactorytest.EtcdNode.Start.{joining_config}
use mrmfactorytest.EtcdNode.Join.{IsMembership, added_member}

abbrev host : Host
host = record {
  World = List Member;
  Url = String;
  Certificate = Unit {0};
  Pool = Unit {0};
  Client = Unit {0};
  Server = Unit {0};
  parse_url = λ text. if text == "bad" then failure "bad" else value text;
  hostname = λ url. url;
  port = λ url. "2380";
  load_key_pair = λ cert key w. value tt;
  read_file = λ file w. value "pem";
  pool_of = λ pem. some tt;
  is_missing = λ dir w. true;
  remove_all = λ dir w. w;
  new_client = λ endpoints tls. value tt;
  sync = λ c w. (none, w);
  close = λ c w. w;
  member_list = λ c w. (value w, w);
  member_remove = λ c id w. (value tt, filter_by (λ (m : Member). not (eqb m.id id)) w);
  member_add =
      λ c urls w. (value (w ++ (added_member 9 urls ∷ [])), w ++ (added_member 9 urls ∷ []));
  start_etcd = λ embed w. (value tt, w);
  is_ready = λ e time w. (true, w);
  stop = λ e w. w;
}

value-inj : {E A : Type 0} (a b : A) → ◌≡◌ {A = Outcome E A} (value a) (value b) → a ≡ b
value-inj a b e = cc

abbrev membership : IsMembership host
membership = record {
  members = λ c w. w;
  listed = λ c w ms e. sym (value-inj w ms e);
  list_keeps = λ c w. refl;
  removed = λ c id w u e. refl;
  disk_keeps = λ c dir w. refl;
  added = λ c urls w ms e. (
    9,
    sym (value-inj (w ++ (added_member 9 urls ∷ [])) ms e),
    value-inj (w ++ (added_member 9 urls ∷ [])) ms e,
  );
}

abbrev peers : Map String
peers = ("a", "http://a:2380") ∷ ("b", "bad") ∷ []

-- The node was a member before, under the id 2.
abbrev cluster : List Member
cluster =
    record { id = 1; name = "a"; peer_urls = "http://a:2380" ∷ [] }
    ∷ record { id = 2; name = "b"; peer_urls = "http://old:2380" ∷ [] }
    ∷ []

abbrev node : NodeConfig
node = record new_default_config { node_id = "b"; host_id = "b"; peer_port = pos 2380 }

abbrev joined : NodeConfig
joined =
    joining_config host (λ m. m) node
      (record { id = 1; name = "a"; peer_urls = "http://a:2380" ∷ [] }
        ∷ added_member 9 ("http://b:2380" ∷ [])
        ∷ [])

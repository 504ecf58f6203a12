-- ===== src/EtcdNode/Start.antt =====
-- internal/etcd/etcd.go: `StartNode`: a restart on an existing data directory, the join of a cluster
-- that answers, or the first node of a new cluster.
use mrmfactorytest.Prelude.{
  String, Option, none, some, List, [], ◌∷◌, Map, insert, Bool, true, false, not, ◌==◌,
  if◌then◌else◌,
}
use mrmfactorytest.Prelude.Outcomes.{
  Outcome, value, failure, Action, pure, from_outcome, ◌>>=◌, ◌>>◌, wrap, rename,
}
use mrmfactorytest.EtcdNode.{
  NodeConfig, get_scheme, peer_url, NodeError, bad_embed_config, start_failed, too_slow,
  not_removed, add_failed, Member, Host, new_embed_config, create_client_tls_config,
}
use mrmfactorytest.EtcdNode.Members.{
  remove_existing_member, build_peer_url_map, build_initial_cluster_string, pair_text,
}
use mrmfactorytest.EtcdNode.Endpoints.{extract_client_endpoints}

module _ (h : Host) where
  abbrev pub Step : Type 0 → Type 0
  Step A = Action NodeError h.World A

  abbrev ready_or_stopped : h.Server → Bool × h.World → Outcome NodeError h.Server × h.World
  ready_or_stopped e (true, w) = (value e, w)
  ready_or_stopped e (false, w) = (failure too_slow, h.stop e w)

  unfoldable pub start_etcd_server : NodeConfig → Step h.Server
  start_etcd_server cfg = do
    embed ← from_outcome (rename bad_embed_config (new_embed_config h cfg))
    e ← wrap start_failed (h.start_etcd embed)
    λ w. ready_or_stopped e (h.is_ready e cfg.startup_timeout w)

  abbrev new_initial_cluster : NodeConfig → String
  new_initial_cluster cfg =
      if cfg.initial_cluster == ""
      then pair_text (cfg.node_id, peer_url cfg)
      else cfg.initial_cluster

  unfoldable pub start_new_cluster_node : NodeConfig → Step h.Server
  start_new_cluster_node cfg =
      start_etcd_server
        (record cfg { cluster_state = "new"; initial_cluster = new_initial_cluster cfg })

  -- `order` is the order in which `range` visits the map.
  module _ (order : Map String → Map String) where
    abbrev pub joining_config : NodeConfig → List Member → NodeConfig
    joining_config cfg members = record cfg {
      initial_cluster =
          build_initial_cluster_string
            (order (insert cfg.node_id (peer_url cfg) (build_peer_url_map members)));
      cluster_state = "existing";
    }

    -- What `joinCluster` does before it starts the server.
    unfoldable pub prepare_join : h.Client → NodeConfig → Step NodeConfig
    prepare_join c cfg = do
      wrap not_removed (remove_existing_member h c cfg.node_id)
      members ←
          wrap add_failed (λ w. h.member_add c (peer_url cfg ∷ []) (h.remove_all cfg.data_dir w))
      pure (joining_config cfg members)

    unfoldable pub join_cluster : h.Client → NodeConfig → Step h.Server
    join_cluster c cfg = do node ← prepare_join c cfg; start_etcd_server node

    abbrev synced : h.Client → Option String × h.World → Option h.Client × h.World
    synced c (none, w) = (some c, w)
    synced c (some e, w) = (none, h.close c w)

    abbrev connected : Outcome String h.Client → h.World → Option h.Client × h.World
    connected (failure e) w = (none, w)
    connected (value c) w = synced c (h.sync c w)

    abbrev probed :
        List String
        → Outcome NodeError (Option (h.Certificate × h.Pool))
        → h.World
        → Option h.Client × h.World
    probed endpoints (failure e) w = (none, w)
    probed endpoints (value tls) w = connected (h.new_client endpoints tls) w

    abbrev probe_endpoints : NodeConfig → List String → h.World → Option h.Client × h.World
    probe_endpoints cfg [] w = (none, w)
    probe_endpoints cfg (e ∷ es) w = probed (e ∷ es) (create_client_tls_config h cfg.tls w) w

    -- `none` where the probe fails.
    unfoldable pub probe_cluster : NodeConfig → h.World → Option h.Client × h.World
    probe_cluster cfg w =
        probe_endpoints cfg (extract_client_endpoints h cfg.initial_cluster (get_scheme cfg.tls)) w

    abbrev start_fresh :
        NodeConfig → Option h.Client × h.World → Outcome NodeError h.Server × h.World
    start_fresh cfg (none, w) = start_new_cluster_node cfg (h.remove_all cfg.data_dir w)
    start_fresh cfg (some c, w) = let (r, w') = join_cluster c cfg w in (r, h.close c w')

    -- The caller's configuration also becomes "existing" in the first case.
    unfoldable pub start_node : NodeConfig → Step h.Server
    start_node cfg w =
        if not (h.is_missing cfg.data_dir w)
        then start_etcd_server (record cfg { cluster_state = "existing" }) w
        else start_fresh cfg (probe_cluster cfg w)

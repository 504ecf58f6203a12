-- ===== src/EtcdNode/Members.antt =====
-- internal/etcd/etcd.go: the members of the cluster that a node joins, and the text of the initial
-- cluster.
use Prim.Native.String.{◌++◌}
use mrmfactorytest.Prelude.{String, List, [], ◌∷◌, map, Map, insert, join, not, ◌==◌, if◌then◌else◌}
use mrmfactorytest.Prelude.Outcomes.{Action, pure, ◌>>=◌, wrap}
use mrmfactorytest.EtcdNode.{Member, NodeError, no_member_list, remove_failed, Host}

module _ (h : Host) (c : h.Client) where
  -- The loop over the members: the first of that name is removed.
  unfoldable pub remove_named : String → List Member → Action NodeError h.World (Unit {0})
  remove_named node [] = pure tt
  remove_named node (m ∷ ms) =
      let rest = remove_named node ms in
      if m.name == node then wrap remove_failed (h.member_remove c m.id) else rest

  unfoldable pub remove_existing_member : String → Action NodeError h.World (Unit {0})
  remove_existing_member node = do
    members ← wrap no_member_list (h.member_list c)
    remove_named node members

-- peers[member.Name] = member.PeerURLs[0]
abbrev with_peer : String → List String → Map String → Map String
with_peer name [] peers = peers
with_peer name (url ∷ urls) peers = if not (name == "") then insert name url peers else peers

-- The loop over the members.
unfoldable pub add_peers : List Member → Map String → Map String
add_peers [] peers = peers
add_peers (m ∷ ms) peers = add_peers ms (with_peer m.name m.peer_urls peers)

unfoldable pub build_peer_url_map : List Member → Map String
build_peer_url_map members = add_peers members []

abbrev pub pair_text : String × String → String
pair_text (name, url) = name ++ ("=" ++ url)

-- The entries come in the order in which `range` visits them.
unfoldable pub build_initial_cluster_string : Map String → String
build_initial_cluster_string peers = join "," (map pair_text peers)

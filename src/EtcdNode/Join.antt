-- ===== src/EtcdNode/Join.antt =====
-- internal/etcd/etcd.go: what a node that joins leaves of the cluster's members, and the configuration
-- that it starts with, where etcd's member calls behave as documented.
use mrmfactorytest.Prelude.{
  ℕ, String, Option, none, some, List, [], ◌∷◌, ◌++◌, Map, insert, All, filter_by, true, false, not,
  eqb, ◌==◌, ◌≡◌, if◌then◌else◌,
}
use mrmfactorytest.Prelude.Outcomes.{value, pure, wrap}
use mrmfactorytest.EtcdNode.{NodeConfig, peer_url, Member, Host, remove_failed}
use mrmfactorytest.EtcdNode.Members.{build_peer_url_map, build_initial_cluster_string}
use mrmfactorytest.EtcdNode.Start.{Step}

abbrev pub added_member : ℕ → List String → Member
added_member id urls = record { id = id; name = ""; peer_urls = urls }

pub record IsMembership (h : Host) : Type 0 where
  pub members : h.Client → h.World → List Member
  pub listed :
      (c : h.Client) (w : h.World) (ms : List Member)
      → (h.member_list c w).0 ≡ value ms
      → ms ≡ members c w
  pub list_keeps : (c : h.Client) (w : h.World) → members c (h.member_list c w).1 ≡ members c w
  pub removed :
      (c : h.Client) (id : ℕ) (w : h.World) (u : Unit {0})
      → (h.member_remove c id w).0 ≡ value u
      → members c (h.member_remove c id w).1 ≡ filter_by (λ m. not (eqb m.id id)) (members c w)
  -- the directory is the node's own
  pub disk_keeps :
      (c : h.Client) (dir : String) (w : h.World) → members c (h.remove_all dir w) ≡ members c w
  -- a new member has no name before it starts
  pub added :
      (c : h.Client) (urls : List String) (w : h.World) (ms : List Member)
      → (h.member_add c urls w).0 ≡ value ms
      → (id : ℕ) × (ms ≡ members c w ++ (added_member id urls ∷ []))
        × (members c (h.member_add c urls w).1 ≡ ms)

-- At most one member has the name, and its id is no other member's.
abbrev pub SoleName : String → List Member → Type 0
SoleName node [] = Unit
SoleName node (m ∷ ms) = elim (m.name == node) [
  | true ↦ All (λ (o : Member). ((o.name == node) ≡ false) × (eqb o.id m.id ≡ false)) ms
  | false ↦ All (λ (o : Member). eqb m.id o.id ≡ false) ms × SoleName node ms
]

abbrev pub others : String → List Member → List Member
others node ms = filter_by (λ m. not (m.name == node)) ms

first_named : String → List Member → Option Member
first_named node [] = none
first_named node (m ∷ ms) = if m.name == node then some m else first_named node ms

abbrev without : Option Member → List Member → List Member
without none ms = ms
without (some m) ms = filter_by (λ o. not (eqb o.id m.id)) ms

module _ {h : Host} (l : IsMembership h) (c : h.Client) where
  removal : Option Member → Step h (Unit {0})
  removal none = pure tt
  removal (some m) = wrap remove_failed (h.member_remove c m.id)

-- The configuration of a member of an existing cluster, with these peers and the node itself.
abbrev pub configured : (Map String → Map String) → NodeConfig → Map String → NodeConfig
configured order cfg peers = record cfg {
  initial_cluster = build_initial_cluster_string (order (insert cfg.node_id (peer_url cfg) peers));
  cluster_state = "existing";
}

-- The members of other names and one new member, still without a name, and a configuration that names
-- those of them that have an address, and the node itself.
abbrev pub Joined :
    (Map String → Map String) → NodeConfig → List Member → List Member → NodeConfig → Type 0
Joined order cfg before after node =
    (id : ℕ) × (after ≡ others cfg.node_id before ++ (added_member id (peer_url cfg ∷ []) ∷ []))
    × (node ≡ configured order cfg (build_peer_url_map (others cfg.node_id before)))

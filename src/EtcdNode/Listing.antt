-- ===== src/EtcdNode/Listing.antt =====
-- internal/etcd/etcd.go: what `buildInitialClusterString` writes, `extractClientEndpoints` reads.
use Prim.Native.String
use mrmfactorytest.Prelude.{String, none, some, List, [], ◌∷◌, has_char, false, ◌≡◌}
use mrmfactorytest.EtcdNode.{Host}
use mrmfactorytest.EtcdNode.Endpoints.{client_endpoint}

-- A name with neither separator, and an address without a comma.
abbrev pub Separable : String × String → Type 0
Separable (name, url) =
    (has_char b',' name ≡ false) × (has_char b'=' name ≡ false) × (has_char b',' url ≡ false)

module _ (h : Host) (scheme : String) where
  -- The addresses of the clients, of the peers whose address can be used.
  abbrev pub client_endpoints : List String → List String
  client_endpoints [] = []
  client_endpoints (peer ∷ peers) =
      let rest = client_endpoints peers in
      elim (client_endpoint h scheme peer) [ none ↦ rest | some e ↦ e ∷ rest ]

-- ===== src/EtcdNode/Endpoints.antt =====
-- internal/etcd/etcd.go: the clients' addresses that follow from the text of the initial cluster.
use mrmfactorytest.Prelude.{
  String, Option, none, some, List, [], ◌∷◌, split, after_char, ◌==◌, if◌then◌else◌,
}
use mrmfactorytest.Prelude.Outcomes.{Outcome, value, failure}
use mrmfactorytest.Store.Decimal.{parse_int, decrement}
use mrmfactorytest.EtcdNode.{Host, address}

module _ (h : Host) where
  -- The port is one below the peers'.
  abbrev with_port : String → h.Url → Option String
  with_port scheme url = if h.port url == "" then none else elim (parse_int (h.port url)) [
    | none ↦ none
    | some n ↦ some (address scheme (h.hostname url) (decrement n))
  ]

  abbrev of_url : String → Outcome String h.Url → Option String
  of_url scheme (failure e) = none
  of_url scheme (value url) = with_port scheme url

  -- One round of the loop from url.Parse on: an address, or `continue`.
  unfoldable pub client_endpoint : String → String → Option String
  client_endpoint scheme peer = of_url scheme (h.parse_url peer)

  -- One round of the loop. A part without "=" is left out; of another, what follows its first "=" is
  -- the peer's address.
  abbrev pub part_endpoint : String → Option String → Option String
  part_endpoint scheme none = none
  part_endpoint scheme (some peer) = client_endpoint scheme peer

  unfoldable pub endpoints_of_parts : String → List String → List String
  endpoints_of_parts scheme [] = []
  endpoints_of_parts scheme (part ∷ parts) =
      let rest = endpoints_of_parts scheme parts in
      elim (part_endpoint scheme (after_char b'=' part)) [ none ↦ rest | some e ↦ e ∷ rest ]

  unfoldable pub extract_client_endpoints : String → String → List String
  extract_client_endpoints initial_cluster scheme =
      if initial_cluster == "" then [] else endpoints_of_parts scheme (split b',' initial_cluster)

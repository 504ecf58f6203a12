-- ===== src/Cluster.antt =====
-- internal/cluster/monitor.go: the leader's health checks. The answers of etcd's member list and of
-- its status calls come in as observations.
pub mod Alarms
use mrmfactorytest.Prelude.{
  ℕ, suc, String, Option, none, some, List, [], ◌∷◌, length, Bool, true, false, not, ◌||◌, eqb, ltb,
  if◌then◌else◌,
}

pub record Member : Type 0 where
  pub id : ℕ
  pub client_urls : List String

-- What a check sees: the members, `none` where they cannot be listed, and which address answers.
pub record Observation : Type 0 where
  pub members : Option (List Member)
  pub answers : String → Bool

-- The keys of a `map[uint64]bool` whose values are all true.
abbrev pub Peers : Type 0
Peers = List ℕ

abbrev pub is_peer : ℕ → Peers → Bool
is_peer id [] = false
is_peer id (x ∷ xs) = eqb x id || is_peer id xs

-- m[id] = true
abbrev pub add_peer : ℕ → Peers → Peers
add_peer id peers = if is_peer id peers then peers else id ∷ peers

-- A member without an address counts as healthy; of the others, the first address is asked.
abbrev pub is_healthy : (String → Bool) → List String → Bool
is_healthy answers [] = true
is_healthy answers (url ∷ rest) = answers url

unfoldable pub healthy_peers : (String → Bool) → List Member → Peers → Peers
healthy_peers answers [] peers = peers
healthy_peers answers (m ∷ ms) peers =
    healthy_peers answers ms
      (if is_healthy answers m.client_urls then add_peer m.id peers else peers)

-- The loop over the known peers, up to the first that is lost.
unfoldable pub has_lost : Peers → Peers → Bool
has_lost [] healthy = false
has_lost (id ∷ ids) healthy = if not (is_peer id healthy) then true else has_lost ids healthy

-- Whether a failover is triggered, and the peers known from then on.
abbrev compare_peers : Option (List Member) → (String → Bool) → Peers → Bool × Peers
compare_peers none answers known = (false, known)
compare_peers (some ms) answers known =
    let healthy = healthy_peers answers ms [] in
    (if ltb 0 (length known) then has_lost known healthy else false, healthy)

unfoldable pub check_cluster_health : Observation → Peers → Bool × Peers
check_cluster_health o known = compare_peers o.members o.answers known

-- What the leader waits for: its timer with what it then sees, or the end of its session or of the
-- program.
pub data LeaderEvent : Type 0 where
  tick : Observation → LeaderEvent
  session_done app_done : LeaderEvent

-- The known peers and the number of failovers triggered.
pub record Monitor : Type 0 where
  pub known_peers : Peers
  pub failovers : ℕ

abbrev pub checked : Bool × Peers → ℕ → Monitor
checked r n = record { known_peers = r.1; failovers = if r.0 then suc n else n }

-- The grace period ends with the timer too, so its check is the first of the loop's.
unfoldable pub run_as_leader : List LeaderEvent → Monitor → Monitor
run_as_leader [] m = m
run_as_leader (tick o ∷ rest) m =
    run_as_leader rest (checked (check_cluster_health o m.known_peers) m.failovers)
run_as_leader (session_done ∷ rest) m = m
run_as_leader (app_done ∷ rest) m = m

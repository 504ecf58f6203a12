-- ===== src/Cluster/Alarms.antt =====
-- When the leader raises the alarm.
use mrmfactorytest.Prelude.{
  ℕ, String, none, List, [], ◌∷◌, length, Bool, true, false, ltb, ◌≡◌, ◌⊎◌, inl, inr, refl, arith,
  In, Bool-cases, Option-cases, if◌then◌else◌,
}
use mrmfactorytest.Cluster.{
  Member, Observation, Peers, is_peer, is_healthy, healthy_peers, has_lost, check_cluster_health,
}

-- A member that counts as healthy.
abbrev pub Healthy : (String → Bool) → List Member → ℕ → Type 0
Healthy answers ms id =
    (m : Member) × In m ms × (m.id ≡ id) × (is_healthy answers m.client_urls ≡ true)

is_peer_self : (id : ℕ) (peers : Peers) → is_peer id (id ∷ peers) ≡ true
is_peer_self id peers = ground arith

no_loss :
    (peers : Peers) (later : Peers)
    → ((id : ℕ) → In id later → is_peer id peers ≡ true)
    → has_lost later peers ≡ false
unfolding has_lost
no_loss peers [] all = refl
no_loss peers (id ∷ ids) all =
    rw (all id (inl refl)) (no_loss peers ids (λ x place. all x (inr place)))

In-is_peer : (id : ℕ) (peers : Peers) → In id peers → is_peer id peers ≡ true
In-is_peer id [] place = absurd place
In-is_peer id (x ∷ xs) (inl same) = ground (arith, same)
In-is_peer id (x ∷ xs) (inr place) = ground (arith, In-is_peer id xs place)

-- A loss raises one alarm: a second check that sees the same cluster triggers no failover, where
-- the members can be listed.
pub check_cluster_health-once :
    (o : Observation) (known : Peers)
    → (check_cluster_health o (check_cluster_health o known).1).0 ≡ false ⊎ (o.members ≡ none)
unfolding check_cluster_health
check_cluster_health-once o known = elim (Option-cases o.members) [
  | inl e ↦ inr e
  | inr (ms, e) ↦ inl (rw (e, check_cluster_health) (settled (healthy_peers o.answers ms [])))
]
  where
    settled :
        (peers : Peers) → (if ltb 0 (length peers) then has_lost peers peers else false) ≡ false
    settled peers = elim (Bool-cases (ltb 0 (length peers))) [
      | inl e ↦ rw e (no_loss peers peers (λ id place. In-is_peer id peers place))
      | inr e ↦ rw e refl
    ]

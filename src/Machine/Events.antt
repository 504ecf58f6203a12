-- ===== src/Machine/Events.antt =====
-- Which state an event leads to: the transition table as a relation.
use mrmfactorytest.Prelude.{
  String, none, some, List, [], ◌∷◌, ◌≡◌, ◌≢◌, ◌⊎◌, inl, inr, refl, subst, In, String-cases,
}
use mrmfactorytest.Config.{Change, Transition, Config}
use mrmfactorytest.Machine.{find_change, find_transition, transition_state}

-- A change of the list leads from `s` to `s'`.
abbrev Leads : List Change → String → String → Type 0
Leads chs s s' = (ch : Change) × In ch chs × (ch.current_state ≡ s) × (ch.next_state ≡ s')

-- A transition of the table has the event as its trigger and such a change.
abbrev pub Allows : List Transition → String → String → String → Type 0
Allows ts event s s' =
    (t : Transition) × In t ts
    × (t.trigger ≡ event)
    × ((ch : Change) × In ch t.changes × (ch.current_state ≡ s) × (ch.next_state ≡ s'))

find_change-Leads :
    (s : String) (chs : List Change)
    → ((s' : String) × (find_change s chs ≡ some s') × Leads chs s s')
      ⊎ ((find_change s chs ≡ none) × ((s' : String) → ¬ Leads chs s s'))
unfolding find_change
find_change-Leads s [] = inr (refl, λ s' h. h.1)
find_change-Leads s (ch ∷ rest) = elim (String-cases ch.current_state s) [
  | inl (same, test) ↦ inl (ch.next_state, rw test, (ch, inl refl, same, refl))
  | inr (differ, test) ↦ elim (find_change-Leads s rest) [
    | inl (s', found, (x, place, from, to)) ↦ inl (s', rw test found, (x, inr place, from, to))
    | inr (missing, never) ↦ inr (rw test missing, λ s' h. elsewhere differ never s' h)
  ]
]
  where
    elsewhere :
        ch.current_state ≢ s
        → ((s' : String) → ¬ Leads rest s s')
        → (s' : String) → ¬ Leads (ch ∷ rest) s s'
    elsewhere differ never s' (x, inl same, from, to) = differ (rw (← same) from)
    elsewhere differ never s' (x, inr place, from, to) = never s' (x, place, from, to)

-- No transition of the empty table, and one of a longer table, by its head or by the rest.
module _ (event s : String) where
  find_transition-Allows :
      (ts : List Transition)
      → ((s' : String) × (find_transition event s ts ≡ some s') × Allows ts event s s')
        ⊎ ((find_transition event s ts ≡ none) × ((s' : String) → ¬ Allows ts event s s'))
  unfolding find_transition
  find_transition-Allows [] = inr (refl, λ s' h. h.1)
  find_transition-Allows (t ∷ ts) = elim (String-cases t.trigger event) [
    | inl (same, test) ↦ elim (find_change-Leads s t.changes) [
      | inl (s', found, leads) ↦ inl (s', rw (test, found), (t, inl refl, same, leads))
      | inr (missing, never) ↦ elim (find_transition-Allows ts) [
        | inl (s', found, (u, place, trigger, leads)) ↦
            inl (s', rw (test, missing) found, (u, inr place, trigger, leads))
        | inr (none_later, not_later) ↦
            inr (rw (test, missing) none_later, λ s' h. not_here never not_later s' h)
      ]
    ]
    | inr (differ, test) ↦ elim (find_transition-Allows ts) [
      | inl (s', found, (u, place, trigger, leads)) ↦
          inl (s', rw test found, (u, inr place, trigger, leads))
      | inr (none_later, not_later) ↦
          inr (rw test none_later, λ s' h. not_triggered differ not_later s' h)
    ]
  ]
    where
      not_here :
          ((s' : String) → ¬ Leads t.changes s s')
          → ((s' : String) → ¬ Allows ts event s s')
          → (s' : String) → ¬ Allows (t ∷ ts) event s s'
      not_here never later s' (u, inl same, trigger, leads) =
          never s' (subst (λ (w : Transition). Leads w.changes s s') same leads)
      not_here never later s' (u, inr place, trigger, leads) = later s' (u, place, trigger, leads)

      not_triggered :
          t.trigger ≢ event
          → ((s' : String) → ¬ Allows ts event s s')
          → (s' : String) → ¬ Allows (t ∷ ts) event s s'
      not_triggered differ later s' (u, inl same, trigger, leads) =
          differ (subst (λ (w : Transition). w.trigger ≡ event) same trigger)
      not_triggered differ later s' (u, inr place, trigger, leads) =
          later s' (u, place, trigger, leads)

-- The next state is one that the table allows from the current state on this event; where the table
-- allows none, it is the current state.
pub transition_state-Allows :
    (cfg : Config) (s event : String)
    → Allows cfg.fsm.behavior.transitions event s (transition_state cfg s event)
      ⊎ ((transition_state cfg s event ≡ s)
          × ((s' : String) → ¬ Allows cfg.fsm.behavior.transitions event s s'))
unfolding transition_state
transition_state-Allows cfg s event =
    elim (find_transition-Allows event s cfg.fsm.behavior.transitions) [
      | inl (s', found, allowed) ↦ inl (rw found allowed)
      | inr (missing, never) ↦ inr (rw missing refl, never)
    ]

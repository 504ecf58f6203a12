-- ===== src/Handlers/Accepting.antt =====
-- internal/handlers/handlers.go and _archive/handlers/handlers.go: a call is started exactly where the
-- answer is 202.
use mrmfactorytest.Prelude.{
  String, Option, none, some, [], ◌∷◌, Bool, true, false, ◌||◌, ◌==◌, ◌≡◌, ◌≢◌, ◌⊎◌, inl, inr, refl,
  arith, Bool-cases, eq_iff,
}
use mrmfactorytest.Handlers.{
  Request, Call, orchestrate_agent_execution, orchestrate_execution_from_config_map, restart_fsm,
  Answer, assigned, assignments, executed, execute, parameter, restart,
}

-- No argument of the call is empty.
abbrev pub IsComplete : Call → Type 0
IsComplete (orchestrate_agent_execution topic) = topic ≢ ""
IsComplete (orchestrate_execution_from_config_map name command) = (name ≢ "") × (command ≢ "")
IsComplete (restart_fsm sid eid) = (sid ≢ "") × (eid ≢ "")

-- The request is a POST, the answer is 202 and one call has been started, or the answer is another and
-- none has.
abbrev pub Accepts : Bool → Answer → Type 0
Accepts is_post a =
    ((is_post ≡ true)
      × (a.status ≡ 202)
      × (call : Call) × IsComplete call
      × (a.started ≡ call ∷ []))
    ⊎ ((a.status ≢ 202) × (a.started ≡ []))

ne-of-false : (s : String) → (s == "") ≡ false → s ≢ ""
ne-of-false s e same = ground (arith, eq_iff s "")

both-ne-of-false : (s t : String) → (s == "" || t == "") ≡ false → (s ≢ "") × (t ≢ "")
both-ne-of-false s t e = (ne-of-false s (ground arith), ne-of-false t (ground arith))

assigned-Accepts : (o : Option String) → Accepts true (assigned o)
assigned-Accepts none = inr (omega arith, refl)
assigned-Accepts (some topic) = elim (Bool-cases (topic == "")) [
  | inl e ↦ rw (e, assigned) (inr (omega arith, refl))
  | inr e ↦
      rw (e, assigned)
        (inl (refl, refl, orchestrate_agent_execution topic, ne-of-false topic e, refl))
]

executed-Accepts : (o : Option (String × String)) → Accepts true (executed o)
executed-Accepts none = inr (omega arith, refl)
executed-Accepts (some (command, name)) = elim (Bool-cases (command == "" || name == "")) [
  | inl e ↦ rw (e, executed) (inr (omega arith, refl))
  | inr e ↦
      let (c, n) = both-ne-of-false command name e in
      rw (e, executed)
        (inl (refl, refl, orchestrate_execution_from_config_map name command, (n, c), refl))
]

-- Whatever the request, each endpoint answers 202 and starts one call, none of whose arguments is
-- empty, and only for a POST; or it answers otherwise and starts none.
pub handlers-Accepts :
    (topic_of : String → Option String) (command_of : String → Option (String × String))
    (r : Request)
    → let is_post = r.method == "POST" in
      Accepts is_post (assignments topic_of r)
      × Accepts is_post (execute command_of r)
      × Accepts is_post (restart r)
unfolding assignments execute restart
handlers-Accepts topic_of command_of r = elim (Bool-cases (r.method == "POST")) [
  | inr e ↦ rw e (inr (omega arith, refl), inr (omega arith, refl), inr (omega arith, refl))
  | inl e ↦ rw e (
    assigned-Accepts (topic_of r.body),
    executed-Accepts (command_of r.body),
    elim (Bool-cases (parameter "sid" r == "" || parameter "eid" r == "")) [
      | inl f ↦ rw f (inr (omega arith, refl))
      | inr f ↦ rw f (
          inl (
            refl,
            refl,
            restart_fsm (parameter "sid" r) (parameter "eid" r),
            both-ne-of-false (parameter "sid" r) (parameter "eid" r) f,
            refl,
          ))
    ],
  )
]

-- ===== src/McpServer/Reading.antt =====
-- mcp-server/main.go: what a request leaves in etcd, and that a saved task is read back, where etcd
-- and encoding/json behave as documented.
use Prim.Native.String.{◌++◌}
use mrmfactorytest.Prelude.{
  ℕ, String, Option, none, some, false, ◌==◌, if◌then◌else◌, trim_prefix, ◌≡◌, ◌≢◌, ◌⊎◌, inl, inr,
  refl, ap, ◌∙◌, arith, subst, String-cases, Bool-cases, Option-cases, trim_prefix-append,
  append-ne-empty, eq_refl,
}
use mrmfactorytest.Prelude.Outcomes.{Outcome, value, failure, Outcome-cases}
use mrmfactorytest.Store.Decimal.{pos, show}
use mrmfactorytest.McpServer.{
  AgentTask, Codec, Kv, Request, Response, refuse, json, empty, get_answer, task_key, new_id,
  tasks_handler, create_task_handler, update_task_handler, get_task_handler, save,
}

pub record IsKv {Json : Type 0} (kv : Kv Json) : Type 0 where
  pub content : kv.World → String → Option Json
  pub put_made :
      (k : String) (v : Json) (w : kv.World)
      → (kv.put k v w).0 ≡ none
      → (i : String) → content (kv.put k v w).1 i ≡ (if k == i then some v else content w i)
  -- a call that fails may have been made or not
  pub put_failed :
      (k : String) (v : Json) (w : kv.World) (e : String)
      → (kv.put k v w).0 ≡ some e
      → ((i : String) → content (kv.put k v w).1 i ≡ content w i)
        ⊎ ((i : String) → content (kv.put k v w).1 i ≡ (if k == i then some v else content w i))
  pub get_found :
      (k : String) (w : kv.World) (v : Option Json) → (kv.get k w).0 ≡ value v → v ≡ content w k
  pub get_keeps : (k : String) (w : kv.World) (i : String) → content (kv.get k w).1 i ≡ content w i

-- A task from a request is read back as it was written, with another id, status and time.
pub record IsJson {Json : Type 0} (j : Codec Json) : Type 0 where
  pub reads :
      (body : String) (t : AgentTask) (id status : String) (now : ℕ)
      → j.decode body ≡ some t
      → let u = record t { id = id; status = status; updated_at = now } in
        j.unmarshal (j.marshal u) ≡ u

-- The id in the request's path.
abbrev path_of : Request → String
path_of r = trim_prefix "/tasks/" r.path

abbrev to_save : ℕ → ℕ → String → Option AgentTask → Option AgentTask
to_save nanos now path none = none
to_save nanos now path (some t) = some (
    if path == ""
    then record t { id = new_id nanos; status = "pending"; updated_at = now }
    else record t { id = path; updated_at = now })

-- The task that a request is to save: a POST with a readable body, under the id of its path, or,
-- pending, under a new id.
abbrev pub planned : {Json : Type 0} → Codec Json → ℕ → ℕ → Request → Option AgentTask
planned j nanos now r =
    if r.method == "POST" then to_save nanos now (path_of r) (j.decode r.body) else none

module _ {Json : Type 0} (j : Codec Json) {kv : Kv Json} (l : IsKv kv) where
  abbrev pub Same : kv.World → kv.World → Type 0
  Same w w' = (i : String) → l.content w' i ≡ l.content w i

  -- The task stands under its key, and every other key holds what it held.
  abbrev pub Written : AgentTask → kv.World → kv.World → Type 0
  Written t w w' =
      (i : String)
      → l.content w' i ≡ (if task_key t.id == i then some (j.marshal t) else l.content w i)

  -- It is saved and the answer is a success, or the answer is 500, and it is saved or not.
  abbrev pub Saving : AgentTask → kv.World → Response → kv.World → Type 0
  Saving t w answer w' =
      ((answer.status ≢ 500) × Written t w w')
      ⊎ ((answer.status ≡ 500) × (Same w w' ⊎ Written t w w'))

  abbrev pub Handled : Option AgentTask → kv.World → Response → kv.World → Type 0
  Handled none w answer w' = (answer.status ≢ 500) × Same w w'
  Handled (some t) w answer w' = Saving t w answer w'

  save-Saving :
      (t : AgentTask) (good : Response) (w : kv.World)
      → good.status ≢ 500
      → let r = save j kv t good w in Saving t w r.0 r.1
  save-Saving t good w differ = elim (Option-cases (kv.put (task_key t.id) (j.marshal t) w).0) [
    | inl e ↦ rw e (inl (differ, l.put_made (task_key t.id) (j.marshal t) w e))
    | inr (m, e) ↦ rw e (inr (refl, l.put_failed (task_key t.id) (j.marshal t) w m e))
  ]

  create_task_handler-Handled :
      (nanos now : ℕ) (r : Request) (w : kv.World)
      → let (answer, w') = create_task_handler j kv nanos now r w in
        Handled (to_save nanos now "" (j.decode r.body)) w answer w'
  unfolding create_task_handler
  create_task_handler-Handled nanos now r w = elim (Option-cases (j.decode r.body)) [
    | inl e ↦ rw e (omega arith, λ i. refl)
    | inr (t, e) ↦
        let new = record t { id = new_id nanos; status = "pending"; updated_at = now } in
        rw e (save-Saving new (record { status = 201; body = json new }) w (omega arith))
  ]

  update_task_handler-Handled :
      (nanos now : ℕ) (path : String) (r : Request) (w : kv.World)
      → (path == "") ≡ false
      → let (answer, w') = update_task_handler j kv now r path w in
        Handled (to_save nanos now path (j.decode r.body)) w answer w'
  unfolding update_task_handler
  update_task_handler-Handled nanos now path r w full = elim (Option-cases (j.decode r.body)) [
    | inl e ↦ rw e (omega arith, λ i. refl)
    | inr (t, e) ↦
        rw (e, full, to_save)
          (save-Saving (record t { id = path; updated_at = now })
            (record { status = 200; body = empty }) w (omega arith))
  ]

  get_task_handler-Handled :
      (path : String) (w : kv.World)
      → let (answer, w') = get_task_handler j kv path w in Handled none w answer w'
  unfolding get_task_handler
  get_task_handler-Handled path w =
      (found (kv.get (task_key path) w).0, l.get_keeps (task_key path) w)
    where
      found : (a : Outcome String (Option Json)) → (get_answer j kv a).status ≢ 500
      found (value none) = omega arith
      found (value (some v)) = omega arith
      found (failure e) = omega arith

  pub tasks_handler-Handled :
      (nanos now : ℕ) (r : Request) (w : kv.World)
      → let (answer, w') = tasks_handler j kv nanos now r w in
        Handled (planned j nanos now r) w answer w'
  unfolding tasks_handler
  tasks_handler-Handled nanos now r w = elim (String-cases r.method "POST") [
    | inl (m, post) ↦ elim (String-cases (path_of r) "") [
      | inl (p, none_given) ↦ rw (post, p) (create_task_handler-Handled nanos now r w)
      | inr (p, given) ↦
          let not_get : (r.method == "GET") ≡ false = rw m refl in
          rw (post, given, not_get) (update_task_handler-Handled nanos now (path_of r) r w given)
    ]
    | inr (m, other) ↦ elim (String-cases (path_of r) "") [
      | inl (p, none_given) ↦ rw (other, none_given) (omega arith, λ i. refl)
      | inr (p, given) ↦ elim (Bool-cases (r.method == "GET")) [
        | inl get ↦ rw (other, given, get) (get_task_handler-Handled (path_of r) w)
        | inr odd ↦ rw (other, given, odd) (omega arith, λ i. refl)
      ]
    ]
  ]

some-inj : {A : Type 0} (a b : A) → ◌≡◌ {A = Option A} (some a) (some b) → a ≡ b
some-inj a b e = cc

none-ne-some : {A : Type 0} (a : A) → ◌≡◌ {A = Option A} none (some a) → ⊥
none-ne-some a e = cc

new_id-full : (nanos : ℕ) → (new_id nanos == "") ≡ false
new_id-full nanos = elim (String-cases (new_id nanos) "") [
  | inl same ↦ absurd (append-ne-empty "t" "ask-" (show (pos nanos)) same.0)
  | inr differ ↦ differ.1
]

-- What is to be saved comes from the body, and its id is not empty.
abbrev Saved : {Json : Type 0} → Codec Json → ℕ → Request → AgentTask → Type 0
Saved j now r t =
    ((t.id == "") ≡ false)
    × (b : AgentTask) × (j.decode r.body ≡ some b)
    × (record b { id = t.id; status = t.status; updated_at = now } ≡ t)

planned-Saved :
    {Json : Type 0} (j : Codec Json) (nanos now : ℕ) (r : Request) (t : AgentTask)
    → planned j nanos now r ≡ some t
    → Saved j now r t
planned-Saved j nanos now r t plan = elim (Bool-cases (r.method == "POST")) [
  | inr e ↦ absurd (none-ne-some t (rw e at plan))
  | inl e ↦ elim (Option-cases (j.decode r.body)) [
    | inl d ↦ absurd (none-ne-some t (rw (e, d) at plan))
    | inr (b, d) ↦ elim (String-cases (path_of r) "") [
      | inl (p, none_given) ↦
          subst (Saved j now r) (some-inj _ t (rw (e, d, to_save, none_given) at plan))
            (new_id-full nanos, b, d, refl)
      | inr (p, given) ↦
          subst (Saved j now r) (some-inj _ t (rw (e, d, to_save, given) at plan))
            (given, b, d, refl)
    ]
  ]
]

abbrev pub get_request : String → Request
get_request id = record { method = "GET"; path = "/tasks/" ++ id; body = "" }

module _ {Json : Type 0} {j : Codec Json} {kv : Kv Json} (l : IsKv kv) (k : IsJson j) where
  read-back :
      (later at : ℕ) (t : AgentTask) (w : kv.World)
      → (t.id == "") ≡ false
      → l.content w (task_key t.id) ≡ some (j.marshal t)
      → j.unmarshal (j.marshal t) ≡ t
      → let answer = (tasks_handler j kv later at (get_request t.id) w).0 in
        (answer ≡ record { status = 200; body = json t })
        ⊎ ((e : String) × ((kv.get (task_key t.id) w).0 ≡ failure e)
            × (answer ≡ refuse 404 "Task not found"))
  unfolding tasks_handler get_task_handler
  read-back later at t w full held reads =
      rw (trim_prefix-append "/tasks/" t.id, full)
        (elim (Outcome-cases (kv.get (task_key t.id) w).0) [
          | inr (e, failed) ↦ inr (e, failed, rw failed refl)
          | inl (v, found) ↦
              let whole : v ≡ some (j.marshal t) = l.get_found (task_key t.id) w v found ∙ held in
              inl (
                rw (found, whole)
                  (ap (λ (u : AgentTask). record { status = 200; body = json u }) reads))
        ])

  -- A task that a request saves, under the id of its path or as a new task, is what the next request
  -- for that id answers, or the client fails.
  pub tasks_handler-get :
      (nanos now later at : ℕ) (r : Request) (w : kv.World) (t : AgentTask)
      → planned j nanos now r ≡ some t
      → (tasks_handler j kv nanos now r w).0.status ≢ 500
      → let w' = (tasks_handler j kv nanos now r w).1 in
        let answer = (tasks_handler j kv later at (get_request t.id) w').0 in
        (answer ≡ record { status = 200; body = json t })
        ⊎ ((e : String) × ((kv.get (task_key t.id) w').0 ≡ failure e)
            × (answer ≡ refuse 404 "Task not found"))
  tasks_handler-get nanos now later at r w t plan good =
      let (full, b, d, same) = planned-Saved j nanos now r t plan in
      let w' = (tasks_handler j kv nanos now r w).1 in
      elim (rw plan at (tasks_handler-Handled j l nanos now r w)) [
        | inr (bad, left) ↦ absurd (good bad)
        | inl (fine, written) ↦
            read-back later at t w' full (rw eq_refl at (written (task_key t.id))) (
              subst (λ (u : AgentTask). j.unmarshal (j.marshal u) ≡ u) same
                (k.reads r.body b t.id t.status now d))
      ]

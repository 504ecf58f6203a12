-- ===== src/Runner/Cycle/Search.antt =====
-- What one call of `findCycleDFS` does: it proves its task well founded and restores the stack, or
-- names a real defect of the graph; and it never runs out of fuel.
use mrmfactorytest.Prelude.{
  ℕ, zero, suc, ◌<◌, String, List, [], ◌∷◌, ◌++◌, some, none, true, ◌≡◌, ◌≢◌, ◌∙◌, All-mono,
  All-mem, mem-All, Option-cases, ◌⊎◌, inl, inr, refl, ap, subst, eq_iff, mem, keys,
  mem-keys_of_lookup, lookup, insert, arith, All, String-cases,
}
use mrmfactorytest.Config.{Task, deps}
use mrmfactorytest.Runner.Cycle.{
  Mark, unvisited, visiting, visited, CycleError, undefined_dependency, cycle, Outcome, returns,
  fails, timeout, TaskMap, Visitation, mark, Search, visit_deps, visit_task, find_cycle_dfs, pop,
  ◌>>=◌,
}
use mrmfactorytest.Runner.Cycle.Graph.{Edge, Chain, here, next, Cyclic, Grounded, grounded}
use mrmfactorytest.Runner.Cycle.Marks.{
  mark-insert, count_unvisited, count_unvisited-le, count_unvisited-lt,
}

-- What an error says is true of the graph.
abbrev pub Explains : TaskMap → CycleError → Type 0
Explains m (undefined_dependency root d) = (lookup d m ≡ none) × ((p : String) × Edge m p d)
Explains m (cycle path d) = Cyclic m d

pub record Sound (m : TaskMap) (vis : Visitation) : Type 0 where
  pub visited_grounded : (k : String) → mark vis k ≡ visited → Grounded m k

pub record Kept (vis vis' : Visitation) : Type 0 where
  pub no_new_unvisited : (k : String) → mark vis' k ≡ unvisited → mark vis k ≡ unvisited
  pub no_new_visiting : (k : String) → mark vis' k ≡ visiting → mark vis k ≡ visiting

-- The ids that are being visited lead to the current one.
pub record Ancestors (m : TaskMap) (id : String) (vis : Visitation) : Type 0 where
  pub leads : (k : String) → mark vis k ≡ visiting → Chain m k id

abbrev pub Known : TaskMap → String → Type 0
Known m id = (lookup id m ≢ none) ⊎ ((p : String) × Edge m p id)

abbrev pub Post :
    TaskMap → Type 0 → Visitation → List String → Outcome (Visitation × List String) → Type 0
Post m P vis stack (returns r) = P × Sound m r.0 × Kept vis r.0 × (r.1 ≡ stack)
Post m P vis stack (fails e) = Explains m e
Post m P vis stack timeout = ⊥

-- The contract of a search with fuel `n`.
abbrev pub Contract : TaskMap → ℕ → Search → Type 0
Contract m n dfs =
    (id : String) (vis : Visitation) (stack : List String)
    → Sound m vis
    → Ancestors m id vis
    → mark vis id ≡ unvisited
    → Known m id
    → count_unvisited (keys m) vis < n
    → Post m (Grounded m id) vis stack (dfs id vis stack)

pub Mark-cases : (k : Mark) → (k ≡ unvisited) ⊎ ((k ≡ visiting) ⊎ (k ≡ visited))
Mark-cases unvisited = inl refl
Mark-cases visiting = inr (inl refl)
Mark-cases visited = inr (inr refl)

Kept-refl : (vis : Visitation) → Kept vis vis
Kept-refl vis = record { no_new_unvisited = λ k e. e; no_new_visiting = λ k e. e }

Kept-trans : {a b c : Visitation} → Kept a b → Kept b c → Kept a c
Kept-trans p q = record {
  no_new_unvisited = λ k e. p.no_new_unvisited k (q.no_new_unvisited k e);
  no_new_visiting = λ k e. p.no_new_visiting k (q.no_new_visiting k e);
}

Ancestors-Kept :
    {m : TaskMap} {id : String} {a b : Visitation} → Kept a b → Ancestors m id a → Ancestors m id b
Ancestors-Kept k h = record { leads = λ j e. h.leads j (k.no_new_visiting j e) }

-- A dependency that is searched first, and the rest of the loop.
Post-bind :
    (m : TaskMap) (P Q : Type 0) (vis : Visitation) (stack : List String)
    (r : Outcome (Visitation × List String))
    (f : Visitation × List String → Outcome (Visitation × List String))
    → Post m P vis stack r
    → ((s : Visitation × List String)
        → P
        → Sound m s.0
        → Kept vis s.0
        → s.1 ≡ stack
        → Post m Q vis stack (f s))
    → Post m Q vis stack (r >>= f)
Post-bind m P Q vis stack (returns s) f h k = k s h.0 h.1 h.2 h.3
Post-bind m P Q vis stack (fails e) f h k = h
Post-bind m P Q vis stack timeout f h k = h

-- The result of the rest, seen from an earlier state and with one more dependency.
Post-weaken :
    (m : TaskMap) (P Q : Type 0) (vis vis' : Visitation) (stack stack' : List String)
    (r : Outcome (Visitation × List String))
    → (P → Q)
    → Kept vis vis'
    → stack' ≡ stack
    → Post m P vis' stack' r
    → Post m Q vis stack r
Post-weaken m P Q vis vis' stack stack' (returns s) f k e h =
    (f h.0, h.1, Kept-trans k h.2, h.3 ∙ e)
Post-weaken m P Q vis vis' stack stack' (fails x) f k e h = h
Post-weaken m P Q vis vis' stack stack' timeout f k e h = h

module _ (m : TaskMap) (n : ℕ) (dfs : Search) (spec : Contract m n dfs) (id : String) where
  visit_deps-Post :
      (ds : List String) (vis : Visitation) (stack : List String)
      → All (Edge m id) ds
      → Sound m vis
      → Ancestors m id vis
      → count_unvisited (keys m) vis < n
      → Post m (All (Grounded m) ds) vis stack (visit_deps dfs ds vis stack)
  unfolding visit_deps
  visit_deps-Post [] vis stack es s a c = (tt, s, Kept-refl vis, refl)
  visit_deps-Post (d ∷ ds) vis stack es s a c = elim (Mark-cases (mark vis d)) [
    | inl new ↦
        rw (new, visit_deps)
          (Post-bind m (Grounded m d) (All (Grounded m) (d ∷ ds)) vis stack (dfs d vis stack) _
            (spec d vis stack s (record { leads = λ k e. next (a.leads k e) es.0 }) new
              (inr (id, es.0)) c)
            (λ r g s' k e.
              Post-weaken m _ _ vis r.0 stack r.1 _ (λ gs. (g, gs)) k e
                (visit_deps-Post ds r.0 r.1 es.1 s' (Ancestors-Kept k a) (
                  omega (
                    arith,
                    c,
                    count_unvisited-le (keys m) vis r.0
                        (record { no_new_unvisited = k.no_new_unvisited }),
                  )))))
    | inr (inl open_) ↦ rw (open_, visit_deps) (id, a.leads d open_, es.0)
    | inr (inr done) ↦
        rw (done, visit_deps)
          (Post-weaken m _ _ vis vis stack stack _ (λ gs. (s.visited_grounded d done, gs))
            (Kept-refl vis) refl (visit_deps-Post ds vis stack es.1 s a c))
  ]

pop-append : (xs : List String) (x : String) → pop (xs ++ x ∷ []) ≡ xs
pop-append [] x = refl
pop-append (y ∷ []) x = refl
pop-append (y ∷ z ∷ xs) x = ap (λ l. y ∷ l) (pop-append (z ∷ xs) x)

Sound-insert :
    {m : TaskMap} (id : String) (v : Mark) {vis : Visitation}
    → (v ≡ visited → Grounded m id)
    → Sound m vis
    → Sound m (insert id v vis)
Sound-insert {m} id v {vis} g s = record {
  visited_grounded = λ k e. elim (String-cases id k) [
    | inl same ↦ subst (Grounded m) same.0 (g (ground (arith, mark-insert id k v vis)))
    | inr differ ↦ s.visited_grounded k (ground (arith, mark-insert id k v vis))
  ];
}

Ancestors-insert :
    {m : TaskMap} (id : String) {vis : Visitation}
    → Ancestors m id vis
    → Ancestors m id (insert id visiting vis)
Ancestors-insert {m} id {vis} a = record {
  leads = λ k e. elim (String-cases id k) [
    | inl same ↦ subst (λ j. Chain m j id) same.0 here
    | inr differ ↦ a.leads k (ground (arith, mark-insert id k visiting vis))
  ];
}

-- Leaving a task undoes the mark that entering it made.
Kept-leave :
    (id : String) (vis vis' : Visitation)
    → mark vis id ≡ unvisited
    → Kept (insert id visiting vis) vis'
    → Kept vis (insert id visited vis')
Kept-leave id vis vis' u k = record {
  no_new_unvisited = λ j e. ground (
    arith,
    mark-insert id j visited vis',
    mark-insert id j visiting vis,
    k.no_new_unvisited j,
    eq_iff id j,
  );
  no_new_visiting = λ j e. ground (
    arith,
    mark-insert id j visited vis',
    mark-insert id j visiting vis,
    k.no_new_visiting j,
    eq_iff id j,
  );
}

module _ (m : TaskMap) (n : ℕ) (dfs : Search) (spec : Contract m n dfs) where
  visit_task-Post :
      (id : String) (vis : Visitation) (stack : List String)
      → Sound m vis
      → Ancestors m id vis
      → mark vis id ≡ unvisited
      → Known m id
      → count_unvisited (keys m) vis < suc n
      → Post m
          (Grounded m id)
          vis
          stack
          (visit_task dfs (lookup id m) id (insert id visiting vis) (stack ++ id ∷ []))
  unfolding visit_task
  visit_task-Post id vis stack s a u known c = elim (Option-cases (lookup id m)) [
    | inl missing ↦
        rw (missing, visit_task)
          (missing, elim known [ inl defined ↦ absurd (defined missing) | inr parent ↦ parent ])
    | inr (t, found) ↦
        rw (found, visit_task)
          (leave t found (visit_deps dfs (deps t) (insert id visiting vis) (stack ++ id ∷ [])) (
            visit_deps-Post m n dfs spec id (deps t) (insert id visiting vis) (stack ++ id ∷ [])
              (All-mono (λ d. mem d (deps t) ≡ true) (Edge m id) (λ d h. (t, found, h)) (deps t)
                (mem-All (deps t)))
              (Sound-insert id visiting (λ e. absurd (visiting-ne e)) s) (Ancestors-insert id a)
              (omega (
                arith,
                c,
                count_unvisited-lt (keys m) id vis (mem-keys_of_lookup id m (λ e. cc (found, e))) u,
              ))))
  ]
    where
      visiting-ne : visiting ≡ visited → ⊥
      visiting-ne e = cc

      leave :
          (t : Task)
          → lookup id m ≡ some t
          → (r : Outcome (Visitation × List String))
          → Post m (All (Grounded m) (deps t)) (insert id visiting vis) (stack ++ id ∷ []) r
          → Post m (Grounded m id) vis stack (r >>= λ w. returns (insert id visited w.0, pop w.1))
      leave t found (returns w) h = (
        grounded id t found (λ d listed. All-mem (Grounded m) d (deps t) h.0 listed),
        Sound-insert id visited
            (λ e. grounded id t found (λ d listed. All-mem (Grounded m) d (deps t) h.0 listed)) h.1,
        Kept-leave id vis w.0 u h.2,
        ap pop h.3 ∙ pop-append stack id,
      )
      leave t found (fails e) h = h
      leave t found timeout h = h

-- With fuel above the number of unvisited tasks, a search meets its contract.
pub find_cycle_dfs-Contract : (m : TaskMap) (n : ℕ) → Contract m n (find_cycle_dfs n m)
unfolding find_cycle_dfs
find_cycle_dfs-Contract m zero id vis stack s a u known c = elim c [ ]
find_cycle_dfs-Contract m (suc n) id vis stack s a u known c =
    visit_task-Post m n (find_cycle_dfs n m) (find_cycle_dfs-Contract m n) id vis stack s a u known
      c

-- ===== src/Runner/Cycle/Graph.antt =====
-- The dependency graph of a task map, and what it means for a task to be well founded in it.
use mrmfactorytest.Prelude.{String, Option, some, true, ◌≡◌, sym, subst, mem, lookup}
use mrmfactorytest.Config.{Task, deps}
use mrmfactorytest.Runner.Cycle.{TaskMap}

-- `a` is defined and lists `b` among its dependencies.
abbrev pub Edge : TaskMap → String → String → Type 0
Edge m a b = (t : Task) × (lookup a m ≡ some t) × (mem b (deps t) ≡ true)

pub data Chain (m : TaskMap) (a : String) : String → Type 0 where
  here : Chain m a a
  next : {b c : String} → Chain m a b → Edge m b c → Chain m a c

-- At least one edge leads from `a` back to `a`.
abbrev pub Cyclic : TaskMap → String → Type 0
Cyclic m a = (b : String) × Chain m a b × Edge m b a

-- The task is defined, and so is each task that it needs, at any depth, without end nowhere.
pub data Grounded (m : TaskMap) : String → Type 0 where
  grounded :
      (id : String) (t : Task)
      → lookup id m ≡ some t
      → ((d : String) → mem d (deps t) ≡ true → Grounded m d)
      → Grounded m id

same_task :
    (o : Option Task) {t u : Task} (d : String)
    → o ≡ some t
    → o ≡ some u
    → mem d (deps u) ≡ true
    → mem d (deps t) ≡ true
same_task o {t} {u} d p q h = let e : t ≡ u = cc in subst (λ w. mem d (deps w) ≡ true) (sym e) h

module _ {m : TaskMap} where
  pub prepend : {a b c : String} → Edge m a b → Chain m b c → Chain m a c
  prepend e here = next here e
  prepend e (next ch f) = next (prepend e ch) f

  -- A dependency of a well-founded task is well founded.
  pub Grounded-Edge : {a b : String} → Grounded m a → Edge m a b → Grounded m b
  Grounded-Edge {b = b} (grounded id t found below) e = below b (same_task _ b found e.1 e.2)

  pub Grounded-Chain : {a b : String} → Grounded m a → Chain m a b → Grounded m b
  Grounded-Chain g here = g
  Grounded-Chain g (next ch e) = Grounded-Edge (Grounded-Chain g ch) e

  uncons : {a b c : String} → Chain m a b → Edge m b c → (d : String) × Edge m a d × Chain m d c
  uncons here e = (_, e, here)
  uncons (next ch f) e = let (d, g, rest) = uncons ch f in (d, g, next rest e)

  -- A well-founded task lies on no cycle.
  pub not-Cyclic_of_Grounded : {a : String} → Grounded m a → ¬ Cyclic m a
  not-Cyclic_of_Grounded (grounded id t found below) c =
      let (d, g, rest) = uncons c.1 c.2 in
      not-Cyclic_of_Grounded (below d (same_task _ d found g.1 g.2)) (id, rest, g)

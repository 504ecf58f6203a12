-- ===== src/Tests/Handlers.antt =====
-- The endpoints on a request for a restart.
use mrmfactorytest.Prelude.{none, some, [], ◌∷◌, ◌==◌}
use mrmfactorytest.Handlers.{Request, assignments, execute, restart}
use mrmfactorytest.Handlers.Accepting.{Accepts, handlers-Accepts}

abbrev request : Request
request = record { method = "POST"; body = ""; query = ("sid", "s1") ∷ ("eid", "e1") ∷ [] }

execute_accepted :
    let is_post = request.method == "POST" in
    Accepts is_post (assignments (λ body. none) request)
    × Accepts is_post (execute (λ body. some ("failover", "shop")) request)
    × Accepts is_post (restart request)
execute_accepted = handlers-Accepts (λ body. none) (λ body. some ("failover", "shop")) request

-- ===== src/Store/Execution.antt =====
-- The header, the batch counter and the creation of an execution's records.
use mrmfactorytest.Prelude.{
  ℕ, suc, ◌+◌, ◌^◌, ◌<◌, String, none, some, List, [], ◌∷◌, map, Map, lookup, insert, lookup-insert,
  ◌≡◌, ◌⊎◌, inl, inr, refl, ◌∙◌, ap, arith, eq_refl, mem, String-cases, if◌then◌else◌,
}
use mrmfactorytest.Config.{Task}
use mrmfactorytest.Value.{end}
use mrmfactorytest.Errors.{Error, ok, err, continue}
use mrmfactorytest.Etcd.{Client, IsEtcd}
use mrmfactorytest.Etcd.Laws.{get_outcome, put_outcome}
use mrmfactorytest.Store.Decimal.{pos, show, increment, atoi, atoi-show}
use mrmfactorytest.Store.Models.{
  ExecutionHeader, TaskDetail, plain, header_json, decode_header, as_string,
}
use mrmfactorytest.Store.Keys.{ExecutionStore, execution_header_key, batch_counter_key}
use mrmfactorytest.Store.Operations.{
  initial_detail, initial_details, initial_header, get_header, update_header,
  increment_batch_counter,
}
use mrmfactorytest.Store.Details.{Holds, AnswersOrFails}

abbrev pub task_id : Task → String
task_id t = t.id

-- The record of a task that has not started.
abbrev pub fresh_detail : String → TaskDetail
fresh_detail id = initial_detail (record {
  id = id;
  package_path = "";
  method = "";
  output_variable = "";
  context = end;
  dependencies = none;
})

-- The initial details are those of the tasks' ids, each pending, and of no other id.
pub lookup-initial_details :
    (k : String) (ts : List Task) (m : Map TaskDetail)
    → lookup k (initial_details ts m)
      ≡ (if mem k (map task_id ts) then some (fresh_detail k) else lookup k m)
unfolding initial_details
lookup-initial_details k [] m = refl
lookup-initial_details k (t ∷ ts) m = elim (String-cases t.id k) [
  | inl same ↦
      lookup-initial_details k ts (insert t.id (initial_detail t) m)
      ∙ ground (arith, lookup-insert t.id k (initial_detail t) m, ap fresh_detail same.0)
  | inr differ ↦
      lookup-initial_details k ts (insert t.id (initial_detail t) m) ∙ rw (lookup-insert, differ.1)
]

-- The three records of a new execution stand in the cluster.
abbrev pub Initialized :
    (c : Client) → ExecutionStore → String → String → List Task → ℕ → c.Server → Type 0
Initialized c st from to ts now s =
    (c.content s (execution_header_key st) ≡ some (header_json (initial_header st from to now)))
    × Holds c st s (initial_details ts [])
    × (c.content s (batch_counter_key st) ≡ some (plain "0"))

increment-show : (n : ℕ) → n + 1 < 2 ^ 63 → increment (atoi (show (pos n))) ≡ pos (suc n)
unfolding increment
increment-show n h = rw (atoi-show n (omega arith)) (ground arith)

module _ (c : Client) (law : IsEtcd c) (st : ExecutionStore) (s : c.Server) where
  -- After a successful update the header is read back as it was written, or the client fails.
  pub get_header-update_header :
      (h : ExecutionHeader)
      → (update_header c st h s).0 ≡ ok tt
      → AnswersOrFails
          (ok h)
          (get_header c st (update_header c st h s).1).0
          (c.get (execution_header_key st) (update_header c st h s).1).0
  unfolding get_header update_header decode_header
  get_header-update_header h done =
      elim (get_outcome law (execution_header_key st)
        (c.put (execution_header_key st) (header_json h) s).1) [
          | inl e ↦
              let written : c.content (c.put (execution_header_key st) (header_json h) s).1
                    (execution_header_key st)
                  ≡ some (header_json h) =
                rw (
                  law.put_content (execution_header_key st) (header_json h) s done
                      (execution_header_key st),
                  eq_refl,
                ) in
              inl (rw (e ∙ ap ok written, continue))
          | inr (x, e) ↦ inr (x, rw (e, continue), e)
        ]

  -- A counter that stands at `n`, with `n + 1` below 2^63, goes to `n + 1`, which the caller
  -- gets, or a client call fails; then it stands at one of the two.
  pub increment_batch_counter-next :
      (n : ℕ)
      → n + 1 < 2 ^ 63
      → c.content s (batch_counter_key st) ≡ some (plain (show (pos n)))
      → let r = increment_batch_counter c st s in
        ((r.0 ≡ ok (pos (suc n)))
          × (c.content r.1 (batch_counter_key st) ≡ some (plain (show (pos (suc n))))))
        ⊎ ((e : Error) × (r.0 ≡ err e)
            × ((c.content r.1 (batch_counter_key st) ≡ some (plain (show (pos n))))
                ⊎ (c.content r.1 (batch_counter_key st) ≡ some (plain (show (pos (suc n)))))))
  unfolding increment_batch_counter as_string
  increment_batch_counter-next n small held = elim (get_outcome law (batch_counter_key st) s) [
    | inl e ↦
        rw (e ∙ ap ok held, continue, increment-show n small)
          (elim (put_outcome law (batch_counter_key st) (plain (show (pos (suc n))))
            (c.get (batch_counter_key st) s).1) [
              | inl (f, made) ↦ rw (f, continue) (inl (refl, made))
              | inr (x, f, inl same) ↦
                  rw (f, continue)
                    (inr (x, refl, inl (same ∙ law.get_content (batch_counter_key st) s _ ∙ held)))
              | inr (x, f, inr made) ↦ rw (f, continue) (inr (x, refl, inr made))
            ])
    | inr (x, e) ↦
        rw (e, continue) (inr (x, refl, inl (law.get_content (batch_counter_key st) s _ ∙ held)))
  ]

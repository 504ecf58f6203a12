-- ===== src/Runner/Scan/Ending.antt =====
-- When a pass of the dispatcher ends the run.
use mrmfactorytest.Prelude.{
  suc, ◌+◌, ◌≤◌, ◌<◌, String, none, List, [], ◌∷◌, map, length, Map, lookup, insert, lookup-insert,
  mem, true, false, leb, ◌≡◌, ◌≢◌, ◌⊎◌, inl, inr, refl, arith, eq_iff, String-cases,
}
use mrmfactorytest.Config.{Task}
use mrmfactorytest.Errors.{Result-cases}
use mrmfactorytest.Etcd.{Client}
use mrmfactorytest.Store.Models.{TaskDetail}
use mrmfactorytest.Store.Keys.{ExecutionStore}
use mrmfactorytest.Store.Operations.{increment_batch_counter, initial_detail, initial_details}
use mrmfactorytest.Runner.Cycle.Keys.{task_id}
use mrmfactorytest.Runner.Scan.{
  Dispatcher, is_terminal, finished_count, dispatch_batch, dispatch_pass,
}

-- Completed, failed, skipped or blocked.
abbrev pub Terminal : TaskDetail → Type 0
Terminal d = is_terminal d.status ≡ true

finished_count_le : (ds : List TaskDetail) → finished_count ds ≤ length ds
unfolding finished_count
finished_count_le [] = omega arith
finished_count_le (d ∷ ds) = ground (arith, finished_count_le ds)

module _ (c : Client) (st : ExecutionStore) where
  dispatch_batch-goes_on : (ts : List Task) (w : Dispatcher c) → (dispatch_batch c st ts w).0 ≡ true
  dispatch_batch-goes_on [] w = refl
  dispatch_batch-goes_on (t ∷ ts) w =
      elim (Result-cases (increment_batch_counter c st w.server).0) [
        | inl (n, e) ↦ rw (e, dispatch_batch) refl
        | inr (x, e) ↦ rw (e, dispatch_batch) refl
      ]

  module _ (ts : List Task) (details : List TaskDetail) (w : Dispatcher c) where
    goes_on : finished_count details < length ts → (dispatch_pass c st ts details w).0 ≡ true
    unfolding dispatch_pass
    goes_on h =
        let open_ : leb (length ts) (finished_count details) ≡ false = ground arith in
        rw (open_, dispatch_pass) (dispatch_batch-goes_on _ _)

-- Some id is that of two tasks.
abbrev pub HasDuplicate : List Task → Type 0
HasDuplicate [] = ⊥
HasDuplicate (t ∷ ts) = (mem t.id (map task_id ts) ≡ true) ⊎ HasDuplicate ts

length-insert_le :
    (k : String) (d : TaskDetail) (m : Map TaskDetail) → length (insert k d m) ≤ suc (length m)
unfolding insert
length-insert_le k d [] = omega arith
length-insert_le k d ((j, w) ∷ m) = ground (arith, length-insert_le k d m)

length-insert_known :
    (k : String) (d : TaskDetail) (m : Map TaskDetail)
    → lookup k m ≢ none
    → length (insert k d m) ≡ length m
unfolding insert lookup
length-insert_known k d [] h = absurd (h refl)
length-insert_known k d ((j, w) ∷ m) h = elim (String-cases j k) [
  | inl same ↦ rw same.1 refl
  | inr differ ↦ rw differ.1 (omega (arith, length-insert_known k d m (λ e. h (rw differ.1 e))))
]

length-initial_details_le :
    (ts : List Task) (m : Map TaskDetail) → length (initial_details ts m) ≤ length m + length ts
unfolding initial_details
length-initial_details_le [] m = omega arith
length-initial_details_le (t ∷ ts) m = omega (
  arith,
  length-initial_details_le ts (insert t.id (initial_detail t) m),
  length-insert_le t.id (initial_detail t) m,
)

length-initial_details_known :
    (k : String) (ts : List Task) (m : Map TaskDetail)
    → lookup k m ≢ none
    → mem k (map task_id ts) ≡ true
    → length (initial_details ts m) < length m + length ts
unfolding initial_details
length-initial_details_known k [] m known listed = cc
length-initial_details_known k (t ∷ ts) m known listed = elim (String-cases t.id k) [
  | inl same ↦ omega (
    arith,
    length-initial_details_le ts (insert t.id (initial_detail t) m),
    length-insert_known t.id (initial_detail t) m (rw same.0 known),
  )
  | inr differ ↦ omega (
    arith,
    length-insert_le t.id (initial_detail t) m,
    length-initial_details_known k ts (insert t.id (initial_detail t) m)
        (λ e. known (ground (arith, lookup-insert t.id k (initial_detail t) m, differ.1, e)))
        (rw differ.1 at listed),
  )
]

length-initial_details_lt :
    (ts : List Task) (m : Map TaskDetail)
    → HasDuplicate ts
    → length (initial_details ts m) < length m + length ts
unfolding initial_details
length-initial_details_lt [] m h = absurd h
length-initial_details_lt (t ∷ ts) m (inl listed) = omega (
  arith,
  length-insert_le t.id (initial_detail t) m,
  length-initial_details_known t.id ts (insert t.id (initial_detail t) m)
      (λ e. ground (arith, lookup-insert t.id t.id (initial_detail t) m, eq_iff t.id t.id, e))
      listed,
)
length-initial_details_lt (t ∷ ts) m (inr later) = omega (
  arith,
  length-insert_le t.id (initial_detail t) m,
  length-initial_details_lt ts (insert t.id (initial_detail t) m) later,
)

-- With two tasks of one id there are fewer records than tasks, and no pass ever ends the run,
-- whatever the records' statuses.
pub dispatch_pass-never_ends :
    (c : Client) (st : ExecutionStore) (ts : List Task) (details : List TaskDetail)
    (w : Dispatcher c)
    → HasDuplicate ts
    → length details ≤ length (initial_details ts [])
    → (dispatch_pass c st ts details w).0 ≡ true
dispatch_pass-never_ends c st ts details w twice few =
    goes_on c st ts details w
      (omega (arith, few, finished_count_le details, length-initial_details_lt ts [] twice))

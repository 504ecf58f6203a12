-- ===== src/Store/Keys.antt =====
-- The etcd keys of _archive/store/store.go, and that those of one execution differ.
use Prim.Native.Char.{Char, code}
use Prim.Native.String.{◌++◌, ◌∷◌}
use text.Mathlib.TextLemmas.{
  append_cancel_left, cons-append, head-eq_of_cons-eq, tail-eq_of_cons-eq,
}
use mrmfactorytest.Prelude.{String, ◌≡◌, ◌≢◌, false, ap, sym, ◌∙◌, arith, eq_iff, ◌==◌}

pub record ExecutionStore : Type 0 where
  pub sid : String
  pub eid : String

abbrev scenario_key : String → String → String
scenario_key sid suffix = "mrm/scenario/" ++ (sid ++ suffix)

abbrev execution_suffix : String → String → String
execution_suffix eid suffix = "/execution/" ++ (eid ++ suffix)

unfoldable pub fsm_state_key : ExecutionStore → String
fsm_state_key s = scenario_key s.sid "/current_state"

unfoldable pub fsm_config_key : ExecutionStore → String
fsm_config_key s = scenario_key s.sid "/fsm_config"

unfoldable pub execution_header_key : ExecutionStore → String
execution_header_key s = scenario_key s.sid (execution_suffix s.eid "/header")

unfoldable pub execution_details_key : ExecutionStore → String
execution_details_key s = scenario_key s.sid (execution_suffix s.eid "/details")

unfoldable pub batch_counter_key : ExecutionStore → String
batch_counter_key s = scenario_key s.sid (execution_suffix s.eid "/batch_counter")

unfoldable pub active_eid_key : ExecutionStore → String
active_eid_key s = scenario_key s.sid "/active_eid"

scenario_key-ne : (sid : String) {a b : String} → a ≢ b → scenario_key sid a ≢ scenario_key sid b
scenario_key-ne sid h e = h (append_cancel_left sid _ _ (append_cancel_left "mrm/scenario/" _ _ e))

execution_key-ne :
    (sid eid : String) {a b : String}
    → a ≢ b
    → scenario_key sid (execution_suffix eid a) ≢ scenario_key sid (execution_suffix eid b)
execution_key-ne sid eid h =
    scenario_key-ne sid
      (λ e. h (append_cancel_left eid _ _ (append_cancel_left "/execution/" _ _ e)))

slash_e : (s : String) → "/execution/" ++ s ≡ "/" ∷ ("e" ∷ ("xecution/" ++ s))
slash_e s = cons-append "/" "execution/" s ∙ ap (λ t. "/" ∷ t) (cons-append "e" "xecution/" s)

-- A text whose second character is no `e` is not the suffix of an execution.
suffix-ne : (s : String) (c d : Char) (t : String) → code d ≢ 101 → "/execution/" ++ s ≢ c ∷ (d ∷ t)
suffix-ne s c d t h e =
    h (sym (ap code (head-eq_of_cons-eq (tail-eq_of_cons-eq (sym (slash_e s) ∙ e)))))

ne_test : {a b : String} → a ≢ b → (a == b) ≡ false
ne_test {a} {b} h = ground (arith, (eq_iff a b).0)

module _ (s : ExecutionStore) where
  pub header-ne-details : (execution_header_key s == execution_details_key s) ≡ false
  unfolding execution_header_key execution_details_key
  header-ne-details =
      ne_test (execution_key-ne s.sid s.eid (ground (arith, eq_iff "/header" "/details")))

  pub header-ne-batch : (execution_header_key s == batch_counter_key s) ≡ false
  unfolding execution_header_key batch_counter_key
  header-ne-batch =
      ne_test (execution_key-ne s.sid s.eid (ground (arith, eq_iff "/header" "/batch_counter")))

  pub details-ne-header : (execution_details_key s == execution_header_key s) ≡ false
  unfolding execution_header_key execution_details_key
  details-ne-header =
      ne_test (execution_key-ne s.sid s.eid (ground (arith, eq_iff "/details" "/header")))

  pub details-ne-batch : (execution_details_key s == batch_counter_key s) ≡ false
  unfolding execution_details_key batch_counter_key
  details-ne-batch =
      ne_test (execution_key-ne s.sid s.eid (ground (arith, eq_iff "/details" "/batch_counter")))

  pub batch-ne-header : (batch_counter_key s == execution_header_key s) ≡ false
  unfolding execution_header_key batch_counter_key
  batch-ne-header =
      ne_test (execution_key-ne s.sid s.eid (ground (arith, eq_iff "/batch_counter" "/header")))

  pub batch-ne-details : (batch_counter_key s == execution_details_key s) ≡ false
  unfolding execution_details_key batch_counter_key
  batch-ne-details =
      ne_test (execution_key-ne s.sid s.eid (ground (arith, eq_iff "/batch_counter" "/details")))

  pub details-ne-state : (execution_details_key s == fsm_state_key s) ≡ false
  unfolding execution_details_key fsm_state_key
  details-ne-state =
      ne_test (scenario_key-ne s.sid (suffix-ne _ "/" "c" "urrent_state" (λ e. omega arith)))

  pub header-ne-state : (execution_header_key s == fsm_state_key s) ≡ false
  unfolding execution_header_key fsm_state_key
  header-ne-state =
      ne_test (scenario_key-ne s.sid (suffix-ne _ "/" "c" "urrent_state" (λ e. omega arith)))

  pub config-ne-header : (fsm_config_key s == execution_header_key s) ≡ false
  unfolding execution_header_key fsm_config_key
  config-ne-header =
      ne_test
        (scenario_key-ne s.sid (λ e. suffix-ne _ "/" "f" "sm_config" (λ f. omega arith) (sym e)))

  pub config-ne-details : (fsm_config_key s == execution_details_key s) ≡ false
  unfolding execution_details_key fsm_config_key
  config-ne-details =
      ne_test
        (scenario_key-ne s.sid (λ e. suffix-ne _ "/" "f" "sm_config" (λ f. omega arith) (sym e)))

  pub batch-ne-state : (batch_counter_key s == fsm_state_key s) ≡ false
  unfolding batch_counter_key fsm_state_key
  batch-ne-state =
      ne_test (scenario_key-ne s.sid (suffix-ne _ "/" "c" "urrent_state" (λ e. omega arith)))

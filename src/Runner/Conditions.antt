-- ===== src/Runner/Conditions.antt =====
-- _archive/taskrunner/conditions.go: the functions of condition expressions, and the placeholders
-- of a task's context. govaluate and text/template are arguments.
pub mod Access
use mrmfactorytest.Prelude.{
  ℕ, String, Option, none, some, List, [], ◌∷◌, Map, lookup, Bool, true, false, ◌&&◌, ◌==◌,
  contains, if◌then◌else◌,
}
use mrmfactorytest.Value.{
  Value, Entries, null, text, bool, other, unencodable, object, end, entry, field, set_field,
  as_text, as_object, as_bool,
}

pub data ConditionError : Type 0 where
  too_few_arguments key_not_text wrong_arity argument_not_text : ConditionError
  invalid_expression not_a_boolean bad_template : String → ConditionError

pub data Evaluated (A : Type 0) : Type 0 where
  value : A → Evaluated A
  failure : ConditionError → Evaluated A

abbrev pub entry_of : Option Entries → String → Option Value
entry_of none k = none
entry_of (some m) k = field k m

-- The loop over the keys. What is no map, or has no such key, ends it with nil.
unfoldable pub get_from : Value → List Value → Evaluated Value
get_from current [] = value current
get_from current (key ∷ keys) = elim (as_text key) [
  | none ↦ failure key_not_text
  | some k ↦ elim (entry_of (as_object current) k) [ none ↦ value null | some v ↦ get_from v keys ]
]

unfoldable pub get : List Value → Evaluated Value
get [] = failure too_few_arguments
get (v ∷ []) = failure too_few_arguments
get (v ∷ k ∷ keys) = get_from v (k ∷ keys)

abbrev status_text : Option String → Evaluated Value
status_text none = value (text "")
status_text (some s) = value (text s)

abbrev status_of : Map String → Option String → Evaluated Value
status_of statuses none = failure argument_not_text
status_of statuses (some id) = status_text (lookup id statuses)

-- The closure `statusFunc`.
unfoldable pub status : Map String → List Value → Evaluated Value
status statuses (v ∷ []) = status_of statuses (as_text v)
status statuses _ = failure wrong_arity

-- `parse` is govaluate.NewEvaluableExpressionWithFunctions, and `evaluate` Evaluate, with the two
-- functions and the outputs that are the parameter "outputs".
module _ (Expression : Type 0) (parse : String → Option Expression)
    (evaluate : Expression
      → (List Value → Evaluated Value)
      → (List Value → Evaluated Value)
      → Entries
      → Option Value) where
  abbrev truth_of : String → Option Bool → Evaluated Bool
  truth_of condition none = failure (not_a_boolean condition)
  truth_of condition (some b) = value b

  -- An error of the evaluation counts as false.
  abbrev result_of : String → Option Value → Evaluated Bool
  result_of condition none = value false
  result_of condition (some v) = truth_of condition (as_bool v)

  abbrev parsed : String → Map String → Entries → Option Expression → Evaluated Bool
  parsed condition statuses outputs none = failure (invalid_expression condition)
  parsed condition statuses outputs (some e) =
      result_of condition (evaluate e get (status statuses) outputs)

  unfoldable pub evaluate_condition : String → Map String → Entries → Evaluated Bool
  evaluate_condition condition statuses outputs =
      if condition == "" then value true else parsed condition statuses outputs (parse condition)

-- `parse` is the parsing of a template, and `execute` its execution with the outputs.
module _ (Template : Type 0) (parse : String → Option Template)
    (execute : Template → Entries → Option String) where
  abbrev executed : String → Option String → Value
  executed original none = text original
  executed original (some s) = text s

  abbrev rendered : String → Entries → String → Option Template → Evaluated Value
  rendered key outputs s none = failure (bad_template key)
  rendered key outputs s (some t) = value (executed s (execute t outputs))

  unfoldable pub resolve_value : String → Entries → Value → Evaluated Value
  resolve_value key outputs (text s) =
      if contains "{{" s && contains "}}" s
      then rendered key outputs s (parse s)
      else value (text s)
  resolve_value key outputs v = value v

  -- The loop over the context; a template that does not parse ends it.
  unfoldable pub resolve_context : Entries → Entries → Entries → Evaluated Entries
  resolve_context outputs end resolved = value resolved
  resolve_context outputs (entry k v rest) resolved = elim (resolve_value k outputs v) [
    | value w ↦ resolve_context outputs rest (set_field k w resolved)
    | failure e ↦ failure e
  ]

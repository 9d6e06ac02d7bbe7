-- ===== src/Conditions.antt =====
-- internal/controller/controller_helpers.go: the list of conditions of a status, which holds one
-- condition of each type.
pub mod Laws
use dorgu_operator.Common.{
  ℕ, String, Bool, true, false, Option, none, some, ◌||◌, not, List, [], ◌∷◌, ◌==◌, if◌then◌else◌,
}
use dorgu_operator.Api.{ConditionStatus, is_true, is_false, is_unknown, Condition, Message}

abbrev pub status_eq : ConditionStatus → ConditionStatus → Bool
status_eq is_true is_true = true
status_eq is_false is_false = true
status_eq is_unknown is_unknown = true
status_eq _ _ = false

-- What setCondition does with the condition of its type: nothing, if neither the status nor the
-- reason changes.
unfoldable pub refresh : ℕ → ConditionStatus → String → Message → Condition → Condition
refresh now status reason message c =
    if not (status_eq c.status status) || not (c.reason == reason)
    then record c {
      status = status;
      reason = reason;
      message = message;
      last_transition_time = now;
    }
    else c

unfoldable pub set_condition :
    ℕ → List Condition → String → ConditionStatus → String → Message → List Condition
unfolding refresh
set_condition now [] type status reason message =
    record {
      type = type;
      status = status;
      reason = reason;
      message = message;
      last_transition_time = now;
    }
    ∷ []
set_condition now (c ∷ cs) type status reason message =
    if c.type == type
    then refresh now status reason message c ∷ cs
    else c ∷ set_condition now cs type status reason message

-- The first condition of a type.
unfoldable pub find_condition : List Condition → String → Option Condition
find_condition [] type = none
find_condition (c ∷ cs) type = if c.type == type then some c else find_condition cs type

unfoldable pub has_condition : List Condition → String → Bool
has_condition [] type = false
has_condition (c ∷ cs) type = c.type == type || has_condition cs type

-- ===== src/Safety/BlastRadius.antt =====
-- The cap on how far one remediation moves a resource value, by the float64 ratio of the two values.
pub mod Laws
use Prim.Native.String
use dorgu_operator.Common.{
  ℕ, zero, suc, ◌*◌, ltb, String, Bool, true, false, ◌||◌, not, Option, none, some, List, [], ◌∷◌,
  ◌==◌, if◌then◌else◌,
}
use dorgu_operator.Common.Int.{ℤ, pos, negsuc, not_positive, is_zero, pos_part}
use dorgu_operator.Common.Maps.{lookup, insert, keys}
use dorgu_operator.Common.Sort.{sort}
use dorgu_operator.Json.{Json, str, obj, Fields, end, field, Raw, unmarshal_object}
use dorgu_operator.Api.{word, Message, sprintf, RemediationAction}
use dorgu_operator.Safety.Readings.{Quantities, Quantity, SafetyViolation, BlastRadiusViolation}

abbrev full_key : String → String → String
full_key prefix key = if prefix == "" then key else String.◌++◌ prefix (String.◌++◌ "." key)

abbrev note : String → Option Quantity → List (String × Quantity) → List (String × Quantity)
note key none result = result
note key (some q) result = insert key q result

-- `parse` is resource.ParseQuantity.
unfoldable pub extract_resources :
    (String → Option Quantity)
    → Fields
    → String
    → List (String × Quantity)
    → List (String × Quantity)
unfolding insert
extract_resources parse end prefix result = result
extract_resources parse (field key (obj m) rest) prefix result =
    extract_resources parse rest prefix (extract_resources parse m (full_key prefix key) result)
extract_resources parse (field key (str s) rest) prefix result =
    extract_resources parse rest prefix (note (full_key prefix key) (parse s) result)
extract_resources parse (field key _ rest) prefix result =
    extract_resources parse rest prefix result

unfoldable pub parse_resource_patch :
    (String → Option Quantity) → Raw → Option (List (String × Quantity))
unfolding extract_resources unmarshal_object
parse_resource_patch parse raw = elim (unmarshal_object raw) [
  | none ↦ none
  | some patch ↦ some (extract_resources parse patch "" [])
]

-- What is wrong with a change, if anything.
pub data Breach : Type 0 where
  increase : Breach
  decrease : Breach
  no_value : Breach

abbrev pub zero_float : ℕ
zero_float = 0

-- MaxBlastRadiusMultiplier, 2.0
abbrev pub max_blast_radius_multiplier : ℕ
max_blast_radius_multiplier = 0x4000000000000000

-- MaxResourceDecrease, 0.5
abbrev pub max_resource_decrease : ℕ
max_resource_decrease = 0x3fe0000000000000

abbrev pub ratio_of : Quantities → Quantity → Quantity → ℕ
ratio_of q new old = q.quotient (q.as_approximate_float64 new) (q.as_approximate_float64 old)

-- The switch of the loop, for a baseline that is present; `none` is a change that may pass.
unfoldable pub breach : Quantities → Quantity → Quantity → Option Breach
breach q new old =
    if is_zero old.amount || q.at_most (q.as_approximate_float64 old) zero_float
    then none
    else if q.less max_blast_radius_multiplier (ratio_of q new old)
    then some increase
    else if q.less (ratio_of q new old) max_resource_decrease
    then some decrease
    else if q.at_most (q.as_approximate_float64 new) zero_float
    then some no_value
    else none

abbrev breach_message : Breach → String
breach_message increase = "resource change for %s exceeds maximum: %.1fx increase (max %.1fx)"
breach_message decrease = "resource change for %s exceeds maximum: %.0f%% decrease (max %.0f%%)"
breach_message no_value = "resource value for %s must be positive, got %s"

-- The message's ratios, which follow from the two quantities, are left out of its arguments.
abbrev blast_violation : Quantities → String → Quantity → Quantity → Breach → SafetyViolation
blast_violation q key new old b = record {
  rule = "blast-radius";
  message = sprintf (breach_message b) (word key ∷ word new.text ∷ []);
  blast_radius = some record {
    field = key;
    baseline = old;
    requested = new;
    ratio = ratio_of q new old;
    max_ratio = max_blast_radius_multiplier;
  };
}

-- A field of the patch is always found in it; a Go map yields the zero value otherwise.
abbrev value_of : Option Quantity → Quantity
value_of none = record { amount = pos 0; text = "0" }
value_of (some q) = q

unfoldable pub field_breach :
    Quantities → List (String × Quantity) → List (String × Quantity) → String → Option Breach
field_breach q patch pre f = elim (lookup f pre) [
  | none ↦ none
  | some old ↦ breach q (value_of (lookup f patch)) old
]

-- The loop over the sorted fields.
unfoldable pub violations :
    Quantities
    → List (String × Quantity)
    → List (String × Quantity)
    → List String
    → List SafetyViolation
violations q patch pre [] = []
violations q patch pre (f ∷ fs) =
    let rest = violations q patch pre fs in
    elim (field_breach q patch pre f) [
      | none ↦ rest
      | some b ↦ blast_violation q f (value_of (lookup f patch)) (value_of (lookup f pre)) b ∷ rest
    ]

unfoldable pub check_blast_radius : Quantities → RemediationAction → List SafetyViolation
check_blast_radius q a =
    if not (a.spec.action.type == "persona-update") then [] else elim a.spec.action.patch [
      | none ↦ []
      | some patch ↦ elim a.spec.action.pre_patch_state [
        | none ↦ []
        | some pre ↦ elim (parse_resource_patch q.parse_quantity patch) [
          | none ↦ []
          | some patch_values ↦ elim (parse_resource_patch q.parse_quantity pre) [
            | none ↦ []
            | some pre_values ↦ violations q patch_values pre_values (sort (keys patch_values))
          ]
        ]
      ]
    ]

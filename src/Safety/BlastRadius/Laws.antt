-- ===== src/Safety/BlastRadius/Laws.antt =====
-- Which changes pass the blast radius, and that none that breaches it goes unreported.
use dorgu_operator.Common.{
  ℕ, String, ◌≡◌, ◌↔◌, ◌⊎◌, inl, inr, refl, ap, ◌∙◌, text-cases, true, false, none, some, List, [],
  ◌∷◌, All, eq_iff, arith, Option-cases, Option, ◌≢◌,
}
use dorgu_operator.Common.Int.{is_zero}
use dorgu_operator.Common.Maps.{lookup, keys}
use dorgu_operator.Common.Sort.{sort, All-sort}
use dorgu_operator.Json.{Raw}
use dorgu_operator.Api.{RemediationAction}
use dorgu_operator.Safety.Readings.{Quantities, Quantity}
use dorgu_operator.Safety.BlastRadius.{
  breach, field_breach, violations, check_blast_radius, parse_resource_patch, value_of,
}

-- The baseline is no positive amount; or the ratio of the change, as float64, is neither above 2.0
-- nor below 0.5, and the new amount is positive.
abbrev pub Fits : Quantities → Quantity → Quantity → Type 0
Fits q new old =
    let at : Quantity → ℕ = q.as_approximate_float64 in
    (is_zero old.amount ≡ true)
    ⊎ (q.at_most (at old) 0 ≡ true)
    ⊎ ((q.less 0x4000000000000000 (q.quotient (at new) (at old)) ≡ false)
        × (q.less (q.quotient (at new) (at old)) 0x3fe0000000000000 ≡ false)
        × (q.at_most (at new) 0 ≡ false))

breach_iff : (q : Quantities) (new old : Quantity) → (breach q new old ≡ none) ↔ Fits q new old
unfolding breach
breach_iff q new old = ground arith

module _ (q : Quantities) (patch pre : List (String × Quantity)) where
  -- A field that the state before the patch does not hold is not measured.
  abbrev pub FieldFits : String → Type 0
  FieldFits f =
      (lookup f pre ≡ none)
      ⊎ ((old : Quantity) × (lookup f pre ≡ some old) × Fits q (value_of (lookup f patch)) old)

  field_breach_complete : (f : String) → FieldFits f → field_breach q patch pre f ≡ none
  unfolding field_breach
  field_breach_complete f (inl missing) = ground arith
  field_breach_complete f (inr (old, here, fits)) =
      let passes = (breach_iff q (value_of (lookup f patch)) old).1 fits in ground arith

  field_breach_sound : (f : String) → field_breach q patch pre f ≡ none → FieldFits f
  unfolding field_breach
  field_breach_sound f h = elim (Option-cases (lookup f pre)) [
    | inl missing ↦ inl missing
    | inr (old, here) ↦
        inr (old, here, (breach_iff q (value_of (lookup f patch)) old).0 (ground arith))
  ]

  violations_iff : (fs : List String) → (violations q patch pre fs ≡ []) ↔ All FieldFits fs
  unfolding violations
  violations_iff [] = (λ _. tt, λ _. refl)
  violations_iff (f ∷ fs) =
      let (to, from) = violations_iff fs in
      (
        λ h. (field_breach_sound f (ground arith), to (ground arith)),
        λ h. let here = field_breach_complete f h.0 in let later = from h.1 in ground arith,
      )

-- For a persona-update whose patch and earlier state both parse, the check reports nothing exactly
-- when every field of the patch fits: its value before is unknown or not positive, or the ratio of
-- the change, as float64, is neither above 2.0 nor below 0.5 and the new value is positive.
pub check_blast_radius_iff :
    (q : Quantities) (a : RemediationAction) (patch pre : Raw)
    (patch_values pre_values : List (String × Quantity))
    → a.spec.action.type ≡ "persona-update"
    → a.spec.action.patch ≡ some patch
    → a.spec.action.pre_patch_state ≡ some pre
    → parse_resource_patch q.parse_quantity patch ≡ some patch_values
    → parse_resource_patch q.parse_quantity pre ≡ some pre_values
    → (check_blast_radius q a ≡ []) ↔ All (FieldFits q patch_values pre_values) (keys patch_values)
unfolding check_blast_radius
check_blast_radius_iff q a patch pre patch_values pre_values t p st u v =
    let (to, from) = violations_iff q patch_values pre_values (sort (keys patch_values)) in
    let (to', from') = All-sort (FieldFits q patch_values pre_values) (keys patch_values) in
    let same : check_blast_radius q a
        ≡ violations q patch_values pre_values (sort (keys patch_values)) =
      ground (arith, eq_iff a.spec.action.type "persona-update") in
    rw same (λ h. to' (to h), λ h. from (from' h))

-- The quantities of a patch that is there and is a JSON object.
abbrev pub quantities_of : Quantities → Option Raw → Option (List (String × Quantity))
quantities_of q none = none
quantities_of q (some raw) = parse_resource_patch q.parse_quantity raw

-- The patch and the state before it can be read, and every field of the patch fits.
pub record IsMeasured (q : Quantities) (a : RemediationAction) : Type 0 where
  pub patch : List (String × Quantity)
  pub before : List (String × Quantity)
  pub patch_read : quantities_of q a.spec.action.patch ≡ some patch
  pub before_read : quantities_of q a.spec.action.pre_patch_state ≡ some before
  pub fits : All (FieldFits q patch before) (keys patch)

-- The change was measured and fits, or there was nothing that could be measured.
abbrev pub InRadius : Quantities → RemediationAction → Type 0
InRadius q a =
    (a.spec.action.type ≢ "persona-update")
    ⊎ (quantities_of q a.spec.action.patch ≡ none)
    ⊎ (quantities_of q a.spec.action.pre_patch_state ≡ none)
    ⊎ IsMeasured q a

parsed_cases :
    (q : Quantities) (o : Option Raw)
    → (quantities_of q o ≡ none)
      ⊎ ((raw : Raw) × (values : List (String × Quantity)) × (o ≡ some raw)
          × (parse_resource_patch q.parse_quantity raw ≡ some values))
parsed_cases q none = inl refl
parsed_cases q (some raw) = elim (Option-cases (parse_resource_patch q.parse_quantity raw)) [
  | inl unread ↦ inl unread
  | inr (values, h) ↦ inr (raw, values, refl, h)
]

pub check_blast_radius-InRadius :
    (q : Quantities) (a : RemediationAction) → check_blast_radius q a ≡ [] → InRadius q a
check_blast_radius-InRadius q a h = elim (text-cases a.spec.action.type "persona-update") [
  | inr other ↦ inl other
  | inl update ↦ elim (parsed_cases q a.spec.action.patch) [
    | inl unread ↦ inr (inl unread)
    | inr (patch, pv, p, u) ↦ elim (parsed_cases q a.spec.action.pre_patch_state) [
      | inl unread ↦ inr (inr (inl unread))
      | inr (pre, bv, st, v) ↦ inr (
          inr (
            inr (record {
              patch = pv;
              before = bv;
              patch_read = ap (quantities_of q) p ∙ u;
              before_read = ap (quantities_of q) st ∙ v;
              fits = (check_blast_radius_iff q a patch pre pv bv update p st u v).0 h;
            })))
    ]
  ]
]

-- ===== src/Detection/Correlator.antt =====
-- internal/detection/persona_correlator.go: which persona a signal is about, by the names of the
-- resources that the personas claim.
pub mod Claims
pub mod Laws
use Prim.Native.String.{len, ◌++◌}
use dorgu_operator.Common.{
  ℕ, String, Bool, true, false, ◌&&◌, ◌||◌, not, Option, none, some, List, [], ◌∷◌, ◌++◌ as append,
  ◌==◌, if◌then◌else◌, ltb, leb, eqb, ◌+◌, is_some,
}
use dorgu_operator.Common.Maps.{lookup, insert}
use dorgu_operator.Common.Text.{has_prefix}
use dorgu_operator.Json.{Json, str, get}
use dorgu_operator.Api.{PersonaReference}
use dorgu_operator.Detection.{Signal}
use dorgu_operator.Executor.{ApplicationPersona, Fetched, found, get_error}

-- persona.Spec.Name: the empty text where the encoded spec has none.
unfoldable pub spec_name : ApplicationPersona → String
unfolding get
spec_name p = elim (get "name" p.spec) [ some (str n) ↦ n | _ ↦ "" ]

-- The resource has the name, or one that goes on after it with a dash.
abbrev pub named_after : String → String → Bool
named_after resource name = resource == name || has_prefix resource (name ++ "-")

-- One round of the loop of claimLength.
abbrev pub longer_claim : String → ℕ → String → ℕ
longer_claim resource best name =
    if name == "" || leb (len name) best
    then best
    else if named_after resource name
    then len name
    else best

unfoldable pub claim_length : String → ApplicationPersona → ℕ
unfolding spec_name
claim_length resource p =
    if resource == ""
    then 0
    else longer_claim resource (longer_claim resource 0 p.name) (spec_name p)

-- matchesPersona
unfoldable pub matches_persona : Signal → ApplicationPersona → Bool
unfolding claim_length
matches_persona s p = ltb 0 (claim_length s.resource.name p)

-- NameClaimedByPersona
unfoldable pub name_claimed_by_persona : String → String → Bool
name_claimed_by_persona resource name =
    if resource == "" || name == "" then false else named_after resource name

-- The loop of personasClaiming: the longest claim so far, and the personas that make it.
unfoldable pub claiming_from :
    String → ℕ → List ApplicationPersona → List ApplicationPersona → List ApplicationPersona
claiming_from resource best matched [] = matched
claiming_from resource best matched (p ∷ ps) =
    let length = claim_length resource p in
    let skip = claiming_from resource best matched ps in
    let replace = claiming_from resource length (p ∷ []) ps in
    let add = claiming_from resource best (append matched (p ∷ [])) ps in
    if eqb length 0 || ltb length best then skip else if ltb best length then replace else add

unfoldable pub personas_claiming : Signal → List ApplicationPersona → List ApplicationPersona
unfolding claiming_from
personas_claiming s ps = claiming_from s.resource.name 0 [] ps

abbrev pub attributed_to : Signal → ApplicationPersona → Signal
attributed_to s p = record s {
  persona_ref = some record { kind = "ApplicationPersona"; name = p.name; namespace = p.namespace };
}

-- The switch on the number of personas that claim the signal.
abbrev pub attribute : Signal → List ApplicationPersona → Signal
attribute s (p ∷ []) = attributed_to s p
attribute s _ = s

-- The signal is passed over: a persona is known, or it lies in no namespace.
abbrev pub settled : Signal → Bool
settled s = is_some s.persona_ref || s.resource.namespace == ""

-- Correlate: the signals as it leaves them, and the namespaces whose personas it asked for, in
-- order. The API server's answer is given with the number of requests before it.
unfoldable pub correlate_from :
    (ℕ → String → Fetched (List ApplicationPersona))
    → List (String × List ApplicationPersona)
    → ℕ
    → List Signal
    → List Signal × List String
correlate_from list_personas cache asked [] = ([], [])
correlate_from list_personas cache asked (s ∷ ss) =
    let ns = s.resource.namespace in
    let unread = correlate_from list_personas cache asked ss in
    let after = λ (ps : List ApplicationPersona).
      correlate_from list_personas (insert ns ps cache) (asked + 1) ss in
    if settled s then (s ∷ unread.0, unread.1) else elim (lookup ns cache) [
      | some ps ↦ (attribute s (personas_claiming s ps) ∷ unread.0, unread.1)
      | none ↦ elim (list_personas asked ns) [
        | get_error _ ↦ (s ∷ (after []).0, ns ∷ (after []).1)
        | found ps ↦ (attribute s (personas_claiming s ps) ∷ (after ps).0, ns ∷ (after ps).1)
      ]
    ]

unfoldable pub correlate :
    (ℕ → String → Fetched (List ApplicationPersona)) → List Signal → List Signal × List String
unfolding correlate_from
correlate list_personas ss = correlate_from list_personas [] 0 ss

-- ===== src/Detection/Correlator/Claims.antt =====
-- The personas that claim a resource are those with the longest claim on it.
use dorgu_operator.Common.{
  ℕ, String, ◌≡◌, Bool, List, [], ◌∷◌, ◌++◌, filter, ltb, eqb, arith, if◌then◌else◌, ◌&&◌, subst,
  ◌<◌, ◌∙◌, refl, sym,
}
use mathlib.Core.List.{append-nil, append_assoc}
use Prim.Native.Nat.{max}
use native.Mathlib.Decide.{dec_lt}
use dorgu_operator.Executor.{ApplicationPersona}
use dorgu_operator.Detection.Correlator.{claim_length, claiming_from, Signal, personas_claiming}

-- The longest claim on a resource.
pub longest_claim : String → List ApplicationPersona → ℕ
longest_claim resource [] = 0
longest_claim resource (p ∷ ps) = max (claim_length resource p) (longest_claim resource ps)

unfoldable pub claims_at : String → ℕ → ApplicationPersona → Bool
claims_at resource n p = ltb 0 (claim_length resource p) && eqb (claim_length resource p) n

-- The personas whose claim is the longest one, in order.
abbrev pub longest_claimers : String → List ApplicationPersona → List ApplicationPersona
longest_claimers resource ps = filter (claims_at resource (longest_claim resource ps)) ps

-- What the loop returns where the longest claim is `m`, from the claim and the personas that it
-- starts with.
abbrev outcome :
    String → ℕ → List ApplicationPersona → List ApplicationPersona → ℕ → List ApplicationPersona
outcome resource best matched ps m =
    if ltb best m
    then filter (claims_at resource m) ps
    else matched ++ filter (claims_at resource best) ps

module _ (resource : String) (best : ℕ) (matched : List ApplicationPersona) (p : ApplicationPersona)
    (ps : List ApplicationPersona)
    (skip : claiming_from resource best matched ps
      ≡ outcome resource best matched ps (longest_claim resource ps))
    (replace : claiming_from resource (claim_length resource p) (p ∷ []) ps
      ≡ outcome resource (claim_length resource p) (p ∷ []) ps (longest_claim resource ps))
    (add : claiming_from resource best (matched ++ p ∷ []) ps
      ≡ outcome resource best (matched ++ p ∷ []) ps (longest_claim resource ps)) where
  shorter :
      claim_length resource p < longest_claim resource ps
      → claiming_from resource best matched (p ∷ ps)
        ≡ outcome resource best matched (p ∷ ps) (longest_claim resource ps)
  unfolding claiming_from claims_at
  shorter below =
      ground (arith, append_assoc matched (p ∷ []) (filter (claims_at resource best) ps))

  longer :
      ¬ (claim_length resource p < longest_claim resource ps)
      → claiming_from resource best matched (p ∷ ps)
        ≡ outcome resource best matched (p ∷ ps) (claim_length resource p)
  unfolding claiming_from claims_at
  longer above = ground (arith, append_assoc matched (p ∷ []) (filter (claims_at resource best) ps))

claiming_from-eq :
    (resource : String) (best : ℕ) (matched ps : List ApplicationPersona)
    → claiming_from resource best matched ps
      ≡ outcome resource best matched ps (longest_claim resource ps)
unfolding claiming_from longest_claim claims_at
claiming_from-eq resource best matched [] = ground (arith, append-nil matched)
claiming_from-eq resource best matched (p ∷ ps) =
    let c = claim_length resource p in
    let l = longest_claim resource ps in
    let skip = claiming_from-eq resource best matched ps in
    let replace = claiming_from-eq resource c (p ∷ []) ps in
    let add = claiming_from-eq resource best (matched ++ p ∷ []) ps in
    let goal = λ (m : ℕ).
      claiming_from resource best matched (p ∷ ps) ≡ outcome resource best matched (p ∷ ps) m in
    elim (dec_lt c l) [
      | yes below ↦
          subst goal (omega arith) (shorter resource best matched p ps skip replace add below)
      | no above ↦
          subst goal (omega arith) (longer resource best matched p ps skip replace add above)
    ]

pub personas_claiming-eq :
    (s : Signal) (ps : List ApplicationPersona)
    → personas_claiming s ps ≡ longest_claimers s.resource.name ps
unfolding personas_claiming
personas_claiming-eq s ps =
    let m = longest_claim s.resource.name ps in
    elim (dec_lt 0 m) [
      | yes positive ↦ claiming_from-eq s.resource.name 0 [] ps ∙ ground arith
      | no none_claims ↦
          let e : m ≡ 0 = omega arith in
          claiming_from-eq s.resource.name 0 [] ps
          ∙ subst
              (λ (n : ℕ).
                outcome s.resource.name 0 [] ps n ≡ filter (claims_at s.resource.name n) ps)
              (sym e) refl
    ]

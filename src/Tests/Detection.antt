-- ===== src/Tests/Detection.antt =====
-- The theorems on the grouping and the attribution of signals, at sample signals.
use dorgu_operator.Common.{
  is_some, ◌||◌, ◌⊎◌, contains, true, ◌==◌, String, ◌≡◌, none, List, [], ◌∷◌, map, All, NoRepeat,
}
use dorgu_operator.Detection.{Signal}
use dorgu_operator.Detection.Grouping.{group_signals}
use dorgu_operator.Detection.Grouping.Laws.{IsPartition, group_signals-IsPartition}
use dorgu_operator.Detection.Correlator.{correlate}
use dorgu_operator.Detection.Correlator.Laws.{IsAnswer, judged, correlate-judged}
use dorgu_operator.Executor.{ApplicationPersona, found}
use dorgu_operator.Tests.{signal, web}

-- A signal that no persona is known for.
abbrev stray : Signal
stray = record (signal "NotReady" "web") { persona_ref = none }

abbrev cycle : List Signal
cycle = signal "OOMKilled" "web" ∷ stray ∷ signal "CrashLoopBackOff" "web" ∷ []

group_signals-IsPartition_example : IsPartition cycle (group_signals cycle)
group_signals-IsPartition_example = group_signals-IsPartition cycle

abbrev owned : Signal
owned = signal "OOMKilled" "web"

correlate-judged_example :
    (personas : String → List ApplicationPersona) × All
      (λ ns. IsAnswer (λ n ns. found (web ∷ [])) ns (personas ns))
      (correlate (λ n ns. found (web ∷ [])) cycle).1
    × All
        (λ s.
          ((is_some s.persona_ref || s.resource.namespace == "") ≡ true)
          ⊎ (contains (correlate (λ n ns. found (web ∷ [])) cycle).1 s.resource.namespace ≡ true))
        cycle
    × ((correlate (λ n ns. found (web ∷ [])) cycle).0 ≡ map (judged personas) cycle)
    × NoRepeat (correlate (λ n ns. found (web ∷ [])) cycle).1
correlate-judged_example = correlate-judged (λ n ns. found (web ∷ [])) cycle

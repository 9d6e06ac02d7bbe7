-- ===== src/Incident/Diagnosed/Laws.antt =====
-- When a recorded root cause is replaced by an equally confident one.
use dorgu_operator.Common.{
  ℕ, ◌<◌, ◌≤◌, false, ◌≡◌, refl, arith, Option, some, Bool-cases, inl, inr, eqb,
}
use dorgu_operator.Diagnosis.{Diagnosis}
use dorgu_operator.Incident.{RootCauseInfo}
use dorgu_operator.Incident.Subject.{IncidentSubject}
use dorgu_operator.Incident.Diagnosed.{
  Decimals, build_root_cause, annotate_unattributed, existing_confidence, refreshed_cause,
}

-- What a diagnosis records as the root cause.
abbrev pub recorded_cause : Decimals → IncidentSubject → Diagnosis → Option RootCauseInfo
recorded_cause f s d = annotate_unattributed (build_root_cause f d) s

existing-recorded :
    (f : Decimals) (s : IncidentSubject) (d : Diagnosis) (c : ℕ)
    → 0 < d.confidence
    → f.parse (f.format d.confidence) ≡ some c
    → existing_confidence f (recorded_cause f s d) ≡ c
unfolding existing_confidence annotate_unattributed build_root_cause
existing-recorded f s d c positive reads =
    let more : eqb d.confidence 0 ≡ false = ground arith in
    elim (Bool-cases s.is_unattributed) [
      | inl set ↦ rw (more, set, reads) refl
      | inr unset ↦ rw (more, unset, reads) refl
    ]

refreshed_over :
    (f : Decimals) (s : IncidentSubject) (d : Diagnosis) (old : Option RootCauseInfo)
    → 0 < d.confidence
    → (existing_confidence f old ≤ d.confidence → refreshed_cause f s d old ≡ recorded_cause f s d)
      × (d.confidence < existing_confidence f old → refreshed_cause f s d old ≡ old)
unfolding refreshed_cause
refreshed_over f s d old positive = (λ le. ground arith, λ lt. ground arith)

-- A second diagnosis of the same confidence, above zero, replaces the root cause that the first
-- recorded where the text of the confidence reads as no more than it was; where the text was rounded
-- up, the first diagnosis stays.
pub refreshed_cause-tie :
    (f : Decimals) (s : IncidentSubject) (first second : Diagnosis) (c : ℕ)
    → 0 < second.confidence
    → first.confidence ≡ second.confidence
    → f.parse (f.format second.confidence) ≡ some c
    → (c ≤ second.confidence
        → refreshed_cause f s second (recorded_cause f s first) ≡ recorded_cause f s second)
      × (second.confidence < c
          → refreshed_cause f s second (recorded_cause f s first) ≡ recorded_cause f s first)
refreshed_cause-tie f s first second c positive tie reads =
    let existing = existing-recorded f s first c (omega arith) (rw tie reads) in
    let (newer, older) = refreshed_over f s second (recorded_cause f s first) positive in
    (λ le. newer (rw existing le), λ lt. older (rw existing lt))

-- ===== src/Proposer/Refused/Laws.antt =====
-- internal/remediation/refused_values.go: what the steps of a plan hold after the scrub.
use dorgu_operator.Common.{
  String, Bool, true, false, ◌≡◌, refl, ◌∙◌, ap, arith, inl, inr, Option, none, some, text-cases,
  ◌&&◌, not, ◌==◌, ne→==, List, [], ◌∷◌,
}
use dorgu_operator.Json.{Raw}
use dorgu_operator.Api.{RemediationStep}
use dorgu_operator.Proposer.Mentions.{
  Reader, RefusedValue, mentions_refused_value, offers_refused_value,
}
use dorgu_operator.Proposer.Refused.Prose.{redact_refused_prose}
use dorgu_operator.Proposer.Refused.{
  refused_from, refused_values, verdicts, with_patch, with_description, with_rationale, scrub_patch,
  scrub_command, scrub_description, scrub_rationale, scrub_step, scrub_steps, safety_messages,
  drop_command, pruned_patch,
}

-- A step as it may be shown: no value of these in its command, the verdicts and the state before it
-- as they were, and a patch that went takes the operator's leave to apply it along.
pub record IsScrubbed (r : Reader) (refused : List RefusedValue) (was now : RemediationStep)
    : Type 0 where
  pub clear_command : offers_refused_value r now.command refused ≡ false
  pub same_safety : now.safety ≡ was.safety
  pub same_state : now.pre_patch_state ≡ was.pre_patch_state
  pub still_written :
      now.auto_executable ≡ true
      → (was.auto_executable ≡ true) × (now.patch ≡ none → was.patch ≡ none)

offers_nothing :
    (r : Reader) (refused : List RefusedValue) → offers_refused_value r "" refused ≡ false
unfolding offers_refused_value mentions_refused_value
offers_nothing r [] = refl
offers_nothing r (v ∷ vs) = ground (arith, offers_nothing r vs)

-- What parts of scrubStep leave as it was.
record IsKept (was now : RemediationStep) : Type 0 where
  same_command : now.command ≡ was.command
  same_safety : now.safety ≡ was.safety
  same_state : now.pre_patch_state ≡ was.pre_patch_state
  still_written :
      now.auto_executable ≡ true
      → (was.auto_executable ≡ true) × (now.patch ≡ none → was.patch ≡ none)

with_patch-IsKept : (s : RemediationStep) (p : Option (Option Raw)) → IsKept s (with_patch s p).0
with_patch-IsKept s none = record {
  same_command = refl;
  same_safety = refl;
  same_state = refl;
  still_written = λ on. (on, λ e. e);
}
with_patch-IsKept s (some none) = record {
  same_command = refl;
  same_safety = refl;
  same_state = refl;
  still_written = λ on. absurd (ground arith);
}
with_patch-IsKept s (some (some raw)) = record {
  same_command = refl;
  same_safety = refl;
  same_state = refl;
  still_written = λ on. (on, λ e. search);
}

with_description-IsKept :
    (s : RemediationStep) (t : Option String) → IsKept s (with_description s t).0
with_description-IsKept s none = record {
  same_command = refl;
  same_safety = refl;
  same_state = refl;
  still_written = λ on. (on, λ e. e);
}
with_description-IsKept s (some t) = record {
  same_command = refl;
  same_safety = refl;
  same_state = refl;
  still_written = λ on. (on, λ e. e);
}

with_rationale-IsKept : (s : RemediationStep) (t : Option String) → IsKept s (with_rationale s t).0
with_rationale-IsKept s none = record {
  same_command = refl;
  same_safety = refl;
  same_state = refl;
  still_written = λ on. (on, λ e. e);
}
with_rationale-IsKept s (some t) = record {
  same_command = refl;
  same_safety = refl;
  same_state = refl;
  still_written = λ on. (on, λ e. e);
}

drop_command-IsScrubbed :
    (r : Reader) (refused : List RefusedValue) (s : RemediationStep) (drop : Bool)
    → (drop ≡ false → offers_refused_value r s.command refused ≡ false)
    → IsScrubbed r refused s (drop_command r s drop).0
drop_command-IsScrubbed r refused s true h = record {
  clear_command = offers_nothing r refused;
  same_safety = refl;
  same_state = refl;
  still_written = λ on. (on, λ e. e);
}
drop_command-IsScrubbed r refused s false h = record {
  clear_command = h refl;
  same_safety = refl;
  same_state = refl;
  still_written = λ on. (on, λ e. e);
}

kept_command_clear :
    (r : Reader) (refused : List RefusedValue) (command : String)
    → (not (command == "") && offers_refused_value r command refused) ≡ false
    → offers_refused_value r command refused ≡ false
kept_command_clear r refused command h = elim (text-cases command "") [
  | inl nothing ↦ rw nothing (offers_nothing r refused)
  | inr given ↦ ground (arith, ne→== command "" given)
]

scrub_command-IsScrubbed :
    (r : Reader) (refused : List RefusedValue) (s : RemediationStep)
    → IsScrubbed r refused s (scrub_command r refused s).0
unfolding scrub_command
scrub_command-IsScrubbed r refused s =
    drop_command-IsScrubbed r refused s
      (not (s.command == "") && offers_refused_value r s.command refused)
      (kept_command_clear r refused s.command)

kept_first :
    (r : Reader) (refused : List RefusedValue) (s t u : RemediationStep)
    → IsKept s t
    → IsScrubbed r refused t u
    → IsScrubbed r refused s u
kept_first r refused s t u k c = record {
  clear_command = c.clear_command;
  same_safety = c.same_safety ∙ k.same_safety;
  same_state = c.same_state ∙ k.same_state;
  still_written = λ on.
      let (at, later) = c.still_written on in
      let (first, earlier) = k.still_written at in (first, λ e. earlier (later e));
}

kept_last :
    (r : Reader) (refused : List RefusedValue) (s t u : RemediationStep)
    → IsScrubbed r refused s t
    → IsKept t u
    → IsScrubbed r refused s u
kept_last r refused s t u c k = record {
  clear_command = rw k.same_command c.clear_command;
  same_safety = k.same_safety ∙ c.same_safety;
  same_state = k.same_state ∙ c.same_state;
  still_written = λ on.
      let (at, later) = k.still_written on in
      let (first, earlier) = c.still_written at in (first, λ e. earlier (later e));
}

scrub_step-IsScrubbed :
    (r : Reader) (refused : List RefusedValue) (s : RemediationStep)
    → IsScrubbed r refused s (scrub_step r refused s).0
unfolding scrub_step scrub_patch scrub_description scrub_rationale
scrub_step-IsScrubbed r refused s =
    let one = (scrub_patch r refused s).0 in
    let two = (scrub_command r refused one).0 in
    let three = (scrub_description r refused two).0 in
    let four = (scrub_rationale r refused three).0 in
    let dropped =
      kept_first r refused s one two (with_patch-IsKept s (pruned_patch r refused s.patch))
        (scrub_command-IsScrubbed r refused one) in
    let told = kept_last r refused s two three dropped (
      with_description-IsKept two
        (redact_refused_prose r two.description (safety_messages two.safety) refused)) in
    kept_last r refused s three four told (
      with_rationale-IsKept three
        (redact_refused_prose r three.rationale (safety_messages three.safety) refused))

-- The steps of a plan before and after, one by one.
unfoldable pub AllScrubbed :
    Reader → List RefusedValue → List RemediationStep → List RemediationStep → Type 0
AllScrubbed r refused [] [] = Unit
AllScrubbed r refused (s ∷ ss) (t ∷ ts) = IsScrubbed r refused s t × AllScrubbed r refused ss ts
AllScrubbed r refused _ _ = ⊥

scrub_steps-AllScrubbed :
    (r : Reader) (refused : List RefusedValue) (steps : List RemediationStep)
    → AllScrubbed r refused steps (scrub_steps r refused steps).0
unfolding scrub_steps AllScrubbed
scrub_steps-AllScrubbed r refused [] = tt
scrub_steps-AllScrubbed r refused (s ∷ ss) =
    (scrub_step-IsScrubbed r refused s, scrub_steps-AllScrubbed r refused ss)

scrub_steps-verdicts :
    (r : Reader) (refused : List RefusedValue) (steps : List RemediationStep)
    → verdicts (scrub_steps r refused steps).0 ≡ verdicts steps
unfolding scrub_steps verdicts
scrub_steps-verdicts r refused [] = refl
scrub_steps-verdicts r refused (s ∷ ss) =
    rw ((scrub_step-IsScrubbed r refused s).same_safety, scrub_steps-verdicts r refused ss) refl

pub scrub_steps-AreClear :
    (r : Reader) (steps : List RemediationStep)
    → let after = (scrub_steps r (refused_values r steps) steps).0 in
      (refused_values r after ≡ refused_values r steps)
      × AllScrubbed r (refused_values r after) steps after
unfolding refused_values
scrub_steps-AreClear r steps =
    let refused = refused_values r steps in
    let same = ap (refused_from r []) (scrub_steps-verdicts r refused steps) in
    (same, rw same (scrub_steps-AllScrubbed r refused steps))

pub scrubbed_unchanged : (r : Reader) (steps : List RemediationStep) → AllScrubbed r [] steps steps
unfolding AllScrubbed offers_refused_value
scrubbed_unchanged r [] = tt
scrubbed_unchanged r (s ∷ ss) = (
  record {
    clear_command = refl;
    same_safety = refl;
    same_state = refl;
    still_written = λ on. (on, λ e. e);
  },
  scrubbed_unchanged r ss,
)

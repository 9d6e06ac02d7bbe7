-- ===== src/Detection/Correlator/Laws.antt =====
-- Which persona a signal is attributed to: the one whose claim on the resource is the longest.
use dorgu_operator.Common.{
  ℕ, String, ◌≡◌, List, [], ◌∷◌, arith, if◌then◌else◌, subst, ◌⊎◌, Option-cases, some, inl, ◌∙◌,
  map, refl, inr, NoRepeat, contains, true, none, text-cases, sym, eq_iff, ne→==, Bool-cases, false,
  ap, ◌+◌, All, is_some, ◌||◌, ◌==◌,
}
use dorgu_operator.Executor.{ApplicationPersona, Fetched-cases}
use dorgu_operator.Common.Maps.{lookup, insert, lookup-insert}
use dorgu_operator.Api.{Error}
use dorgu_operator.Executor.{Fetched, found, get_error}
use dorgu_operator.Detection.Correlator.{
  settled, attribute, correlate_from, correlate, Signal, personas_claiming,
}
use mathlib.Core.Path.{ap₂}
use dorgu_operator.Detection.Correlator.Claims.{longest_claimers, personas_claiming-eq}

abbrev pub of_persona : Signal → List ApplicationPersona → Signal
of_persona s (p ∷ []) = record s {
  persona_ref = some record { kind = "ApplicationPersona"; name = p.name; namespace = p.namespace };
}
of_persona s _ = s

-- What becomes of a signal where the personas of its namespace are `ps`: one that no persona is
-- known for, and that lies in a namespace, goes to the persona with the longest claim on its
-- resource, if there is exactly one.
abbrev pub judged : (String → List ApplicationPersona) → Signal → Signal
judged personas s =
    if is_some s.persona_ref || s.resource.namespace == ""
    then s
    else of_persona s (longest_claimers s.resource.name (personas s.resource.namespace))

attribute-eq : (s : Signal) (ps : List ApplicationPersona) → of_persona s ps ≡ attribute s ps
attribute-eq s [] = refl
attribute-eq s (p ∷ []) = refl
attribute-eq s (p ∷ q ∷ ps) = refl

judged_due :
    (personas : String → List ApplicationPersona) (s : Signal) (ps : List ApplicationPersona)
    → settled s ≡ false
    → personas s.resource.namespace ≡ ps
    → judged personas s ≡ attribute s (personas_claiming s ps)
judged_due personas s ps due e = rw due (
    ap (of_persona s) (ap (longest_claimers s.resource.name) e ∙ sym (personas_claiming-eq s ps))
    ∙ attribute-eq s (personas_claiming s ps))

held :
    (cache : List (String × List ApplicationPersona)) (ns : String) (ps : List ApplicationPersona)
    → lookup ns (insert ns ps cache) ≡ some ps
held cache ns ps = ground (arith, lookup-insert ns ns ps cache, eq_iff ns ns)

module _ (list_personas : ℕ → String → Fetched (List ApplicationPersona)) where
  -- What the API server answered about a namespace in some request, or nothing where it failed.
  abbrev pub IsAnswer : String → List ApplicationPersona → Type 0
  IsAnswer ns ps =
      (n : ℕ) × ((list_personas n ns ≡ found ps)
        ⊎ ((e : Error) × (list_personas n ns ≡ get_error e) × (ps ≡ [])))

  -- The cache holds answers, and the personas of a namespace are those in the cache, if any.
  abbrev IsCache : List (String × List ApplicationPersona) → Type 0
  IsCache cache =
      (ns : String) (ps : List ApplicationPersona) → lookup ns cache ≡ some ps → IsAnswer ns ps

  abbrev Extends :
      List (String × List ApplicationPersona) → (String → List ApplicationPersona) → Type 0
  Extends cache personas =
      (ns : String) (ps : List ApplicationPersona) → lookup ns cache ≡ some ps → personas ns ≡ ps

  -- The signal needs no persona, or those of its namespace were asked for or are in the cache.
  abbrev IsKnown : List (String × List ApplicationPersona) → List String → Signal → Type 0
  IsKnown cache names s =
      (settled s ≡ true)
      ⊎ (contains names s.resource.namespace ≡ true)
      ⊎ (is_some (lookup s.resource.namespace cache) ≡ true)

  record Judges (cache : List (String × List ApplicationPersona)) (ss out : List Signal)
      (names : List String) : Type 0 where
    personas : String → List ApplicationPersona
    genuine : All (λ ns. IsAnswer ns (personas ns)) names
    asked : All (IsKnown cache names) ss
    extends : Extends cache personas
    same : out ≡ map (judged personas) ss
    once : NoRepeat names
    unseen : (ns : String) → contains names ns ≡ true → lookup ns cache ≡ none

  cached : List (String × List ApplicationPersona) → String → List ApplicationPersona
  cached cache ns = elim (lookup ns cache) [ none ↦ [] | some ps ↦ ps ]

  nothing_left :
      (cache : List (String × List ApplicationPersona)) → IsCache cache → Judges cache [] [] []
  unfolding cached
  nothing_left cache genuine = record {
    personas = cached cache;
    genuine = tt;
    asked = tt;
    extends = λ ns ps there. ground arith;
    same = refl;
    once = tt;
    unseen = λ ns h. ground arith;
  }

  keep :
      {cache : List (String × List ApplicationPersona)} {ss out : List Signal} {names : List String}
      (s s' : Signal) (j : Judges cache ss out names)
      → judged j.personas s ≡ s'
      → IsKnown cache names s
      → Judges cache (s ∷ ss) (s' ∷ out) names
  keep s s' j e known = record {
    personas = j.personas;
    genuine = j.genuine;
    asked = (known, j.asked);
    extends = j.extends;
    same = ap₂ ◌∷◌ (sym e) j.same;
    once = j.once;
    unseen = j.unseen;
  }

  insert-IsCache :
      (cache : List (String × List ApplicationPersona)) (ns : String) (ps : List ApplicationPersona)
      → IsCache cache
      → IsAnswer ns ps
      → IsCache (insert ns ps cache)
  insert-IsCache cache ns ps genuine answer k v h = elim (text-cases ns k) [
    | inl same ↦
        let value : ps ≡ v = ground (arith, lookup-insert ns k ps cache, eq_iff ns k) in
        subst (λ (x : String). IsAnswer x v) same (subst (IsAnswer ns) value answer)
    | inr other ↦ genuine k v (ground (arith, lookup-insert ns k ps cache, ne→== ns k other))
  ]

  -- What was known with an entry more in the cache is known where that was asked for.
  asked_here :
      (cache : List (String × List ApplicationPersona)) (names : List String) (ns : String)
      (ps : List ApplicationPersona) (s : Signal)
      → IsKnown (insert ns ps cache) names s
      → IsKnown cache (ns ∷ names) s
  asked_here cache names ns ps s known =
      ground (arith, lookup-insert ns s.resource.namespace ps cache)

  asked_each :
      (cache : List (String × List ApplicationPersona)) (names : List String) (ns : String)
      (ps : List ApplicationPersona) (ss : List Signal)
      → All (IsKnown (insert ns ps cache) names) ss
      → All (IsKnown cache (ns ∷ names)) ss
  asked_each cache names ns ps [] h = tt
  asked_each cache names ns ps (s ∷ ss) h =
      (asked_here cache names ns ps s h.0, asked_each cache names ns ps ss h.1)

  fetched :
      (cache : List (String × List ApplicationPersona)) {ss out : List Signal} {names : List String}
      (s s' : Signal) (ns : String) (ps : List ApplicationPersona)
      → lookup ns cache ≡ none
      → IsAnswer ns ps
      → s.resource.namespace ≡ ns
      → (j : Judges (insert ns ps cache) ss out names) → judged j.personas s ≡ s'
      → Judges cache (s ∷ ss) (s' ∷ out) (ns ∷ names)
  fetched cache {ss} {out} {names} s s' ns ps missing answer own j e = record {
    personas = j.personas;
    genuine = (subst (IsAnswer ns) (sym (j.extends ns ps (held cache ns ps))) answer, j.genuine);
    asked = (
      inr (inl (ground (arith, eq_iff ns s.resource.namespace))),
      asked_each cache names ns ps ss j.asked,
    );
    extends = λ k v h. j.extends k v (ground (arith, lookup-insert ns k ps cache, eq_iff ns k));
    same = ap₂ ◌∷◌ (sym e) j.same;
    once = (
      elim (Bool-cases (contains names ns)) [
        | inl there ↦ ground (arith, lookup-insert ns ns ps cache, eq_iff ns ns, j.unseen ns there)
        | inr absent ↦ absent
      ],
      j.once,
    );
    unseen = λ k h. elim (text-cases ns k) [
      | inl same ↦ rw (← same) missing
      | inr other ↦
          let apart = ne→== ns k other in
          let inside : contains names k ≡ true = ground (arith, apart) in
          ground (arith, j.unseen k inside, lookup-insert ns k ps cache, apart)
    ];
  }

  correlate_from-Judges :
      (ss : List Signal) (cache : List (String × List ApplicationPersona)) (asked : ℕ)
      → IsCache cache
      → Judges cache ss
          (correlate_from list_personas cache asked ss).0
          (correlate_from list_personas cache asked ss).1
  unfolding correlate_from personas_claiming
  correlate_from-Judges [] cache asked genuine = nothing_left cache genuine
  correlate_from-Judges (s ∷ ss) cache asked genuine =
      let ns = s.resource.namespace in
      elim (Bool-cases (settled s)) [
        | inl over ↦
            rw over (keep s s (correlate_from-Judges ss cache asked genuine) (rw over) (inl over))
        | inr due ↦ elim (Option-cases (lookup ns cache)) [
          | inr (ps, there) ↦
              let j = correlate_from-Judges ss cache asked genuine in
              rw (due, there)
                (keep s _ j (judged_due j.personas s ps due (j.extends ns ps there))
                  (inr (inr (ap is_some there))))
          | inl missing ↦ elim (Fetched-cases (list_personas asked ns)) [
            | inl (ps, answer) ↦
                let genuine' = insert-IsCache cache ns ps genuine (asked, inl answer) in
                let j = correlate_from-Judges ss (insert ns ps cache) (asked + 1) genuine' in
                rw (due, missing, answer)
                  (fetched cache s _ ns ps missing (asked, inl answer) refl j
                    (judged_due j.personas s ps due (j.extends ns ps (held cache ns ps))))
            | inr (e, failed) ↦
                let genuine' = insert-IsCache cache ns [] genuine (asked, inr (e, failed, refl)) in
                let j = correlate_from-Judges ss (insert ns [] cache) (asked + 1) genuine' in
                rw (due, missing, failed)
                  (fetched cache s _ ns [] missing (asked, inr (e, failed, refl)) refl j
                    (judged_due j.personas s [] due (j.extends ns [] (held cache ns []))))
          ]
        ]
      ]

-- Nothing is cached before a cycle.
asked_for :
    (list_personas : ℕ → String → Fetched (List ApplicationPersona)) (names : List String)
    (ss : List Signal)
    → All (IsKnown list_personas [] names) ss
    → All
        (λ s.
          ((is_some s.persona_ref || s.resource.namespace == "") ≡ true)
          ⊎ (contains names s.resource.namespace ≡ true))
        ss
unfolding lookup
asked_for list_personas names [] h = tt
asked_for list_personas names (s ∷ ss) h =
    (ground (arith, h.0), asked_for list_personas names ss h.1)

-- Correlating the signals of a cycle judges each of them by one list of personas for its namespace. The
-- namespace of every signal that needs a persona is asked for, none twice; and the list for it is
-- what the API server answered, or empty where it failed.
pub correlate-judged :
    (list_personas : ℕ → String → Fetched (List ApplicationPersona)) (ss : List Signal)
    → (personas : String → List ApplicationPersona) × All
        (λ ns. IsAnswer list_personas ns (personas ns))
        (correlate list_personas ss).1
      × All
          (λ s.
            ((is_some s.persona_ref || s.resource.namespace == "") ≡ true)
            ⊎ (contains (correlate list_personas ss).1 s.resource.namespace ≡ true))
          ss
      × ((correlate list_personas ss).0 ≡ map (judged personas) ss)
      × NoRepeat (correlate list_personas ss).1
unfolding correlate lookup
correlate-judged list_personas ss =
    let j = correlate_from-Judges list_personas ss [] 0 (λ ns ps h. ground arith) in
    (j.personas, j.genuine, asked_for list_personas _ ss j.asked, j.same, j.once)

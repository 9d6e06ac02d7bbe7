-- ===== src/Diagnosis/Engine/Best.antt =====
-- The diagnoses that are kept: one of each key, and the best of it.
use dorgu_operator.Common.{
  ◌<◌, ◌≤◌, ◌⊎◌, String, true, false, ◌≡◌, refl, sym, ap, ◌∙◌, subst, arith, inl, inr, none, some,
  Option-cases, Bool-cases, List, [], ◌∷◌, ◌++◌, Memᴰ, contains, contains-append, NoRepeat,
  NoRepeat-snoc, is_some, ◌==◌, eq_iff, eq_refl, map,
}
use dorgu_operator.Common.Maps.{lookup, insert, lookup-insert}
use dorgu_operator.Diagnosis.Engine.{
  RankedDiagnosis, key_of, supersedes, pick, picked, deduplicate_diagnoses,
}
use dorgu_operator.Diagnosis.Engine.Laws.{Extends, pick-Extends}

-- The keys of the map, each once.
record Orders (order : List String) (best : List (String × RankedDiagnosis)) : Type 0 where
  known : (key : String) → contains order key ≡ is_some (lookup key best)
  once : NoRepeat order

Orders-insert :
    (c : RankedDiagnosis) (order : List String) (best : List (String × RankedDiagnosis))
    (d : RankedDiagnosis)
    → lookup (key_of c) best ≡ some d
    → Orders order best
    → Orders order (insert (key_of c) c best)
Orders-insert c order best d held o = record {
  known = λ key. elim (Bool-cases (key_of c == key)) [
    | inl here ↦
        let same : key_of c ≡ key = (eq_iff (key_of c) key).0 here in
        let before : lookup key best ≡ some d =
          subst (λ (x : String). lookup x best ≡ some d) same held in
        ground (arith, lookup-insert (key_of c) key c best, o.known key, before)
    | inr other ↦ ground (arith, lookup-insert (key_of c) key c best, o.known key)
  ];
  once = o.once;
}

Orders-new :
    (c : RankedDiagnosis) (order : List String) (best : List (String × RankedDiagnosis))
    → lookup (key_of c) best ≡ none
    → Orders order best
    → Orders (order ++ key_of c ∷ []) (insert (key_of c) c best)
Orders-new c order best new o = record {
  known = λ key. ground (
    arith,
    contains-append order (key_of c ∷ []) key,
    lookup-insert (key_of c) key c best,
    o.known key,
  );
  once = NoRepeat-snoc order (key_of c) (o.known (key_of c) ∙ ap is_some new) o.once;
}

pick-Orders :
    (cs : List RankedDiagnosis) (best : List (String × RankedDiagnosis)) (order : List String)
    → Orders order best
    → Orders (pick cs best order).1 (pick cs best order).0
unfolding pick
pick-Orders [] best order o = o
pick-Orders (c ∷ cs) best order o = elim (Option-cases (lookup (key_of c) best)) [
  | inl new ↦
      rw (new, pick)
        (pick-Orders cs (insert (key_of c) c best) (order ++ key_of c ∷ [])
          (Orders-new c order best new o))
  | inr (current, held) ↦ elim (Bool-cases (supersedes c current)) [
    | inl better ↦
        rw (held, better, pick)
          (pick-Orders cs (insert (key_of c) c best) order
            (Orders-insert c order best current held o))
    | inr worse ↦ rw (held, worse, pick) (pick-Orders cs best order o)
  ]
]

picked-Memᴰ :
    (ks : List String) (best : List (String × RankedDiagnosis)) (key : String) {k : RankedDiagnosis}
    → contains ks key ≡ true
    → lookup key best ≡ some k
    → Memᴰ k (picked ks best)
unfolding picked
picked-Memᴰ [] best key h f = cc
picked-Memᴰ (x ∷ ks) best key {k} h f = elim (Bool-cases (x == key)) [
  | inl here ↦
      let own : lookup x best ≡ some k =
        subst (λ (y : String). lookup y best ≡ some k) (sym ((eq_iff x key).0 here)) f in
      rw (own, picked) (Memᴰ.head refl)
  | inr later ↦
      let rest : Memᴰ k (picked ks best) = picked-Memᴰ ks best key (ground arith) f in
      elim (Option-cases (lookup x best)) [
        | inl missing ↦ rw (missing, picked) rest
        | inr (y, there) ↦ rw (there, picked) (Memᴰ.tail rest)
      ]
]

picked-from :
    (ks : List String) (best : List (String × RankedDiagnosis)) {k : RankedDiagnosis}
    → Memᴰ k (picked ks best)
    → (key : String) × (contains ks key ≡ true) × (lookup key best ≡ some k)
unfolding picked
picked-from [] best m = elim m [ ]
picked-from (x ∷ ks) best {k} m = elim (Option-cases (lookup x best)) [
  | inl missing ↦
      let same : picked (x ∷ ks) best ≡ picked ks best = rw (missing, picked) refl in
      let (key, there, f) =
        picked-from ks best (subst (λ (l : List RankedDiagnosis). Memᴰ k l) same m) in
      (key, ground arith, f)
  | inr (y, there) ↦
      let same : picked (x ∷ ks) best ≡ y ∷ picked ks best = rw (there, picked) refl in
      elim (subst (λ (l : List RankedDiagnosis). Memᴰ k l) same m) [
        | Memᴰ.head e ↦ (x, ground (arith, eq_refl x), there ∙ ap some (sym e))
        | Memᴰ.tail t ↦ let (key, inside, f) = picked-from ks best t in (key, ground arith, f)
      ]
]

-- The keys of what is picked are among those looked for.
picked-keys :
    (ks : List String) (best : List (String × RankedDiagnosis))
    → ((key : String) (k : RankedDiagnosis) → lookup key best ≡ some k → key_of k ≡ key)
    → (at : String) → contains ks at ≡ false
    → contains (map key_of (picked ks best)) at ≡ false
unfolding picked
picked-keys [] best keyed at absent = refl
picked-keys (x ∷ ks) best keyed at absent =
    let rest = picked-keys ks best keyed at (ground arith) in
    elim (Option-cases (lookup x best)) [
      | inl missing ↦ rw (missing, picked) rest
      | inr (y, there) ↦ rw (there, picked) (ground (arith, keyed x y there))
    ]

picked-NoRepeat :
    (ks : List String) (best : List (String × RankedDiagnosis))
    → ((key : String) (k : RankedDiagnosis) → lookup key best ≡ some k → key_of k ≡ key)
    → NoRepeat ks
    → NoRepeat (map key_of (picked ks best))
unfolding picked
picked-NoRepeat [] best keyed once = tt
picked-NoRepeat (x ∷ ks) best keyed once =
    let rest = picked-NoRepeat ks best keyed once.1 in
    elim (Option-cases (lookup x best)) [
      | inl missing ↦ rw (missing, picked) rest
      | inr (y, there) ↦
          rw (there, picked) (ground (arith, picked-keys ks best keyed x, keyed x y there), rest)
    ]

-- The second is more confident, or as confident and from the same provider or a later one.
abbrev pub IsNoBetter : RankedDiagnosis → RankedDiagnosis → Type 0
IsNoBetter c k =
    (c.diagnosis.confidence < k.diagnosis.confidence)
    ⊎ ((c.diagnosis.confidence ≡ k.diagnosis.confidence) × (c.stage ≤ k.stage))

no_better : (c k : RankedDiagnosis) → supersedes c k ≡ false → IsNoBetter c k
unfolding supersedes
no_better c k h = ground arith

-- One diagnosis is kept of each key: one of those produced, and none of its key is better.
pub record IsBest (produced kept : List RankedDiagnosis) : Type 0 where
  pub once : NoRepeat (map key_of kept)
  pub produced_there : (k : RankedDiagnosis) → Memᴰ k kept → Memᴰ k produced
  pub best :
      (c : RankedDiagnosis)
      → Memᴰ c produced
      → (k : RankedDiagnosis) × Memᴰ k kept × (key_of k ≡ key_of c) × IsNoBetter c k

comes_from :
    (produced : List RankedDiagnosis) (after : List (String × RankedDiagnosis))
    → Extends produced [] after
    → (key : String) (k : RankedDiagnosis) → lookup key after ≡ some k
    → Memᴰ k produced × (key_of k ≡ key)
unfolding lookup
comes_from produced after extends key k f = elim (extends.comes key k f) [
  | inl never ↦ ground arith
  | inr there ↦ there
]

-- Of the diagnoses that the providers produced, one is kept of each key: one of those produced, and
-- none with its key is more confident, or as confident and from a later provider.
pub deduplicate_diagnoses-IsBest :
    (produced : List RankedDiagnosis) → IsBest produced (deduplicate_diagnoses produced)
unfolding deduplicate_diagnoses
deduplicate_diagnoses-IsBest produced =
    let after = (pick produced [] []).0 in
    let order = (pick produced [] []).1 in
    let extends : Extends produced [] after = pick-Extends produced [] [] in
    let orders : Orders order after =
      pick-Orders produced [] [] (record { known = λ key. refl; once = tt }) in
    let comes = comes_from produced after extends in
    record {
      once = picked-NoRepeat order after (λ key k f. (comes key k f).1) orders.once;
      produced_there = λ k m. let (key, _, f) = picked-from order after m in (comes key k f).0;
      best = λ c m.
          let (k, f, w) = extends.beats c m in
          (
            k,
            picked-Memᴰ order after (key_of c) (orders.known (key_of c) ∙ ap is_some f) f,
            (comes (key_of c) k f).1,
            no_better c k w,
          );
    }

-- ===== src/Diagnosis/Engine/Laws.antt =====
-- Of the diagnoses with one key, the best is kept.
use dorgu_operator.Common.{
  ◌++◌, String, true, false, ◌≡◌, refl, sym, ap, ◌∙◌, subst, arith, ◌⊎◌, inl, inr, some,
  Option-cases, Bool-cases, List, [], ◌∷◌, Memᴰ, ◌==◌, eq_iff, eq_refl,
}
use dorgu_operator.Common.Maps.{lookup, insert, lookup-insert}
use dorgu_operator.Diagnosis.Engine.{RankedDiagnosis, key_of, supersedes, pick}

-- Nothing is better than itself, and what is not better than something is not better than its better.
supersedes_irrefl : (a : RankedDiagnosis) → supersedes a a ≡ false
unfolding supersedes
supersedes_irrefl a = ground arith

supersedes_chain :
    (a b c : RankedDiagnosis)
    → supersedes a b ≡ false
    → supersedes b c ≡ false
    → supersedes a c ≡ false
unfolding supersedes
supersedes_chain a b c ab bc = ground arith

supersedes_asym : (a b : RankedDiagnosis) → supersedes a b ≡ true → supersedes b a ≡ false
unfolding supersedes
supersedes_asym a b h = ground arith

-- What is kept for a candidate's key is not worse.
abbrev pub Beats : List (String × RankedDiagnosis) → RankedDiagnosis → String → Type 0
Beats best c key = (k : RankedDiagnosis) × (lookup key best ≡ some k) × (supersedes c k ≡ false)

-- What the loop makes of the map.
pub record Extends (cs : List RankedDiagnosis) (best after : List (String × RankedDiagnosis))
    : Type 0 where
  pub beats : (c : RankedDiagnosis) → Memᴰ c cs → Beats after c (key_of c)
  pub keeps : (key : String) (c : RankedDiagnosis) → lookup key best ≡ some c → Beats after c key
  pub comes :
      (key : String) (k : RankedDiagnosis)
      → lookup key after ≡ some k
      → (lookup key best ≡ some k) ⊎ (Memᴰ k cs × (key_of k ≡ key))

inserted-Extends :
    (c : RankedDiagnosis) (cs : List RankedDiagnosis) (best after : List (String × RankedDiagnosis))
    → ((k : RankedDiagnosis) → lookup (key_of c) best ≡ some k → supersedes k c ≡ false)
    → Extends cs (insert (key_of c) c best) after
    → Extends (c ∷ cs) best after
inserted-Extends c cs best after beaten rec =
    let own : lookup (key_of c) (insert (key_of c) c best) ≡ some c =
      lookup-insert (key_of c) (key_of c) c best ∙ rw (eq_refl (key_of c)) refl in
    record {
      beats = λ d m. elim m [
        | Memᴰ.head e ↦
            subst (λ (x : RankedDiagnosis). Beats after x (key_of x)) (sym e)
              (rec.keeps (key_of c) c own)
        | Memᴰ.tail t ↦ rec.beats d t
      ];
      keeps = λ key d h. elim (Bool-cases (key_of c == key)) [
        | inl here ↦
            let same : key_of c ≡ key = (eq_iff (key_of c) key).0 here in
            let (k, f, w) = rec.keeps (key_of c) c own in
            (
              k,
              subst (λ (x : String). lookup x after ≡ some k) same f,
              supersedes_chain d c k (beaten d (rw same h)) w,
            )
        | inr other ↦ rec.keeps key d (lookup-insert (key_of c) key c best ∙ rw other h)
      ];
      comes = λ key k h. elim (rec.comes key k h) [
        | inl before ↦ elim (Bool-cases (key_of c == key)) [
          | inl here ↦
              let same : c ≡ k = ground (arith, lookup-insert (key_of c) key c best) in
              inr (Memᴰ.head (sym same), ap key_of (sym same) ∙ (eq_iff (key_of c) key).0 here)
          | inr other ↦ inl (ground (arith, lookup-insert (key_of c) key c best))
        ]
        | inr (m, e) ↦ inr (Memᴰ.tail m, e)
      ];
    }

kept-Extends :
    (c current : RankedDiagnosis) (cs : List RankedDiagnosis)
    (best after : List (String × RankedDiagnosis))
    → lookup (key_of c) best ≡ some current
    → supersedes c current ≡ false
    → Extends cs best after
    → Extends (c ∷ cs) best after
kept-Extends c current cs best after held worse rec = record {
  beats = λ d m. elim m [
    | Memᴰ.head e ↦
        let (k, f, w) = rec.keeps (key_of c) current held in
        subst (λ (x : RankedDiagnosis). Beats after x (key_of x)) (sym e)
          (k, f, supersedes_chain c current k worse w)
    | Memᴰ.tail t ↦ rec.beats d t
  ];
  keeps = rec.keeps;
  comes = λ key k h. elim (rec.comes key k h) [
    | inl before ↦ inl before
    | inr (m, e) ↦ inr (Memᴰ.tail m, e)
  ];
}

pub pick-Extends :
    (cs : List RankedDiagnosis) (best : List (String × RankedDiagnosis)) (order : List String)
    → Extends cs best (pick cs best order).0
unfolding pick
pick-Extends [] best order = record {
  beats = λ c m. elim m [ ];
  keeps = λ key c h. (c, h, supersedes_irrefl c);
  comes = λ key k h. inl h;
}
pick-Extends (c ∷ cs) best order = elim (Option-cases (lookup (key_of c) best)) [
  | inl new ↦
      rw (new, pick)
        (inserted-Extends c cs best _ (λ k h. ground arith)
          (pick-Extends cs (insert (key_of c) c best) (order ++ key_of c ∷ [])))
  | inr (current, held) ↦ elim (Bool-cases (supersedes c current)) [
    | inl better ↦
        rw (held, better, pick)
          (inserted-Extends c cs best _
            (λ k h.
              let same : current ≡ k = ground arith in
              subst (λ x. supersedes x c ≡ false) same (supersedes_asym c current better))
            (pick-Extends cs (insert (key_of c) c best) order))
    | inr worse ↦
        rw (held, worse, pick)
          (kept-Extends c current cs best _ held worse (pick-Extends cs best order))
  ]
]

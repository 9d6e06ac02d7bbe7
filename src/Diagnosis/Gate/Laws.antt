-- ===== src/Diagnosis/Gate/Laws.antt =====
-- What the gate looks at before a diagnosis leaves the cluster.
use dorgu_operator.Common.{
  ℕ, ◌+◌, String, Bool, true, false, ◌≡◌, ◌≢◌, ◌⊎◌, inl, inr, subst, some, List, [], ◌∷◌, Memᴰ,
  contains, eq_iff, arith, Bool-cases, text-cases, ne→==, ◌==◌, ◌||◌, ◌↔◌, ◌&&◌, refl, ◌++◌,
  Option-cases, map, sym, Option, is_some, none,
}
use mathlib.Core.List.Memᴰ
use dorgu_operator.Api.{PersonaReference}
use dorgu_operator.Detection.{ResourceReference}
use dorgu_operator.Safety.Readings.{View}
use dorgu_operator.Safety.DenyList.{namespace_protected}
use dorgu_operator.Safety.DenyList.Laws.{IsCleared, namespace_denied_iff}
use dorgu_operator.Diagnosis.{ContributingSignal, Diagnosis}
use dorgu_operator.Diagnosis.Gate.{
  cluster_scoped, check_namespaces, resource_namespaces, persona_namespaces, related,
  protected_namespace,
}

-- The resource is affected, or is behind a contributing signal.
abbrev pub IsRelated : Diagnosis → ResourceReference → Type 0
IsRelated d ref =
    Memᴰ ref d.affected_resources
    ⊎ ((c : ContributingSignal) × Memᴰ c d.contributing × (c.signal.resource ≡ ref))

-- The namespace is the persona's, or that of a resource that should lie in one.
abbrev pub Touches : Diagnosis → String → Type 0
Touches d ns =
    ((r : PersonaReference) × (d.persona_ref ≡ some r) × (r.namespace ≡ ns))
    ⊎ ((ref : ResourceReference) × IsRelated d ref
        × (ref.namespace ≡ ns)
        × ((ns ≢ "") ⊎ (cluster_scoped ref.kind ≡ false)))

module _ (gate : ℕ → String → Bool) where
  abbrev pub Passed : String → Type 0
  Passed ns = (ns ≢ "") × ((n : ℕ) × (gate n ns ≡ false))

  abbrev pub Stopped : String → Type 0
  Stopped ns = (ns ≡ "") ⊎ ((n : ℕ) × (gate n ns ≡ true))

  check_namespaces_lem :
      (asked : ℕ) (checked rest : List String)
      → ((ns : String) → contains checked ns ≡ true → Passed ns)
      → (((check_namespaces gate asked checked rest).1 ≡ false)
          → (ns : String) → contains rest ns ≡ true
          → Passed ns)
        × (((check_namespaces gate asked checked rest).1 ≡ true)
            → (contains rest (check_namespaces gate asked checked rest).0 ≡ true)
              × Stopped (check_namespaces gate asked checked rest).0)
  unfolding check_namespaces
  check_namespaces_lem asked checked [] passed = (λ h ns m. ground arith, λ h. ground arith)
  check_namespaces_lem asked checked (x ∷ rest) passed = elim (Bool-cases (contains checked x)) [
    | inl seen ↦
        let (clear, stop) = check_namespaces_lem asked checked rest passed in
        rw seen (
          λ h ns m. elim (text-cases x ns) [
            | inl same ↦ passed ns (subst (λ (y : String). contains checked y ≡ true) same seen)
            | inr other ↦ clear h ns (ground (arith, ne→== x ns other))
          ],
          λ h. let (m, s) = stop h in (ground arith, s),
        )
    | inr new ↦ elim (Bool-cases (x == "" || gate asked x)) [
      | inl halt ↦
          rw (new, halt)
            (
              λ h. ground arith,
              λ h. (
                ground (arith, eq_iff x x),
                elim (Bool-cases (x == "")) [
                  | inl empty ↦ inl ((eq_iff x "").0 empty)
                  | inr named ↦ inr (asked, ground arith)
                ],
              ),
            )
      | inr go ↦
          let here : Passed x = (λ e. ground (arith, eq_iff x ""), (asked, ground arith)) in
          let known : (ns : String) → contains (x ∷ checked) ns ≡ true → Passed ns = λ ns m.
            elim (text-cases x ns) [
              | inl same ↦ subst Passed same here
              | inr other ↦ passed ns (ground (arith, ne→== x ns other))
            ] in
          let (clear, stop) = check_namespaces_lem (asked + 1) (x ∷ checked) rest known in
          rw (new, go)
            (
              λ h ns m. elim (text-cases x ns) [
                | inl same ↦ subst Passed same here
                | inr other ↦ clear h ns (ground (arith, ne→== x ns other))
              ],
              λ h. let (m, s) = stop h in (ground arith, s),
            )
    ]
  ]

resource_iff :
    (refs : List ResourceReference) (ns : String)
    → (contains (resource_namespaces refs) ns ≡ true) ↔ (
        (ref : ResourceReference) × Memᴰ ref refs
        × (ref.namespace ≡ ns)
        × ((ns ≢ "") ⊎ (cluster_scoped ref.kind ≡ false)))
unfolding resource_namespaces
resource_iff [] ns = (λ h. ground arith, λ (ref, m, e, s). elim m [ ])
resource_iff (r ∷ refs) ns =
    let (to, from) = resource_iff refs ns in
    (
      λ h. elim (text-cases r.namespace ns) [
        | inl same ↦ elim (Bool-cases (r.namespace == "" && cluster_scoped r.kind)) [
          | inl skipped ↦ let (ref, m, e, s) = to (ground arith) in (ref, Memᴰ.tail m, e, s)
          | inr kept ↦ (
            r,
            Memᴰ.head refl,
            same,
            elim (Bool-cases (r.namespace == "")) [
              | inl empty ↦ inr (ground arith)
              | inr named ↦ inl (λ e. ground (arith, eq_iff r.namespace ""))
            ],
          )
        ]
        | inr other ↦
            let (ref, m, e, s) = to (ground (arith, ne→== r.namespace ns other)) in
            (ref, Memᴰ.tail m, e, s)
      ],
      λ (ref, m, e, s). elim m [
        | Memᴰ.head same ↦ ground (arith, eq_iff r.namespace ns, eq_iff r.namespace "")
        | Memᴰ.tail m' ↦ let rest = from (ref, m', e, s) in ground arith
      ],
    )

related_iff : (d : Diagnosis) (ref : ResourceReference) → Memᴰ ref (related d) ↔ IsRelated d ref
related_iff d ref =
    let resource = λ (c : ContributingSignal). c.signal.resource in
    (
      λ m. elim (Memᴰ.append_cases d.affected_resources m) [
        | inl a ↦ inl a
        | inr c ↦ inr (Memᴰ.of_map resource d.contributing c)
      ],
      λ m. elim m [
        | inl a ↦ Memᴰ.append_left (map resource d.contributing) a
        | inr (c, k, e) ↦
            Memᴰ.append_right d.affected_resources (Memᴰ.cast (sym e) (Memᴰ.map resource k))
      ],
    )

touched_iff :
    (d : Diagnosis) (ns : String)
    → (contains (persona_namespaces d.persona_ref ++ resource_namespaces (related d)) ns ≡ true)
      ↔ Touches d ns
touched_iff d ns =
    let (to, from) = resource_iff (related d) ns in
    let by_resource : contains (resource_namespaces (related d)) ns ≡ true → Touches d ns =
      λ h. let (ref, m, e, s) = to h in inr (ref, (related_iff d ref).0 m, e, s) in
    let resource_in : (ref : ResourceReference)
        → IsRelated d ref
        → ref.namespace ≡ ns
        → (ns ≢ "") ⊎ (cluster_scoped ref.kind ≡ false)
        → contains (resource_namespaces (related d)) ns ≡ true =
      λ ref m e s. from (ref, (related_iff d ref).1 m, e, s) in
    elim (Option-cases d.persona_ref) [
      | inl nobody ↦ (
        λ h. by_resource (ground arith),
        λ t. elim t [
          | inl (r, e, n) ↦ ground arith
          | inr (ref, m, e, s) ↦ let h = resource_in ref m e s in ground arith
        ],
      )
      | inr (r, owner) ↦ (
        λ h. elim (text-cases r.namespace ns) [
          | inl same ↦ inl (r, owner, same)
          | inr other ↦ by_resource (ground (arith, ne→== r.namespace ns other))
        ],
        λ t. elim t [
          | inl (r', e, n) ↦
              let same : r'.namespace ≡ r.namespace = ground arith in
              ground (arith, eq_iff r.namespace ns)
          | inr (ref, m, e, s) ↦ let h = resource_in ref m e s in ground arith
        ],
      )
    ]

is_some-none {ℓ} : {A : Type ℓ} (x : Option A) → is_some x ≡ false → x ≡ none
is_some-none x h = ground arith

-- A diagnosis is let out only if every namespace that it touches is known and was cleared by an
-- answer of the gate; it is held back only for a namespace that it touches and that is unknown or
-- that an answer protected.
pub protected_namespace_cases :
    (gate : ℕ → String → Bool) (d : Diagnosis)
    → (((protected_namespace (some gate) d).1 ≡ false)
        → (ns : String) → Touches d ns
        → Passed gate ns)
      × (((protected_namespace (some gate) d).1 ≡ true)
          → Touches d (protected_namespace (some gate) d).0
            × Stopped gate (protected_namespace (some gate) d).0)
unfolding protected_namespace
protected_namespace_cases gate d =
    let names = persona_namespaces d.persona_ref ++ resource_namespaces (related d) in
    let (clear, stop) = check_namespaces_lem gate 0 [] names (λ ns h. ground arith) in
    (
      λ h ns t. clear h ns ((touched_iff d ns).1 t),
      λ h. let (m, s) = stop h in ((touched_iff d _).0 m, s),
    )

-- Behind the deny list of the safety checker, a diagnosis is let out only if each namespace that it
-- touches was cleared by the deny list, at some reading of the cluster's policies.
pub protected_namespace-IsCleared :
    (protected : List String) (at : ℕ → View) (d : Diagnosis)
    → (protected_namespace (some (λ n ns. namespace_protected (some protected) (at n) ns)) d).1
      ≡ false
    → (ns : String) → Touches d ns
    → (n : ℕ) × IsCleared protected (at n) ns
unfolding namespace_protected
protected_namespace-IsCleared protected at d h ns t =
    let gate = λ (n : ℕ) (ns : String). namespace_protected (some protected) (at n) ns in
    let (named, (n, let_in)) = (protected_namespace_cases gate d).0 h ns t in
    (n, (namespace_denied_iff protected (at n) ns).0 (is_some-none _ let_in))

-- ===== src/Workload/Match/Laws.antt =====
-- When a persona finds its Deployment.
use dorgu_operator.Common.{
  String, ◌≡◌, ◌≢◌, ◌↔◌, refl, false, some, List, [], ◌∷◌, ◌++◌, filter, ◌==◌, All, ap, ne→==, ◌∙◌,
  arith, subst, Bool-cases, inl, All-All, inr, All-map, All-swap,
}
use dorgu_operator.Common.Filter.{
  IsSole, filter-nil, filter_none, filter-IsSole, IsSole-filter, any_none,
}
use dorgu_operator.Workload.{Deployment}
use dorgu_operator.Workload.Match.{
  Rung, rung_matches, chain, matches, Resolved, unfound, resolved, on_rung, resolve_by, resolve,
}

-- No Deployment of the list matches by the rung.
abbrev pub FindsNothing : List Deployment → String → Rung → Type 0
FindsNothing ds name q = All (λ (e : Deployment). rung_matches q name e ≡ false) ds

-- By some rung the Deployment matches and no other of the list does, and by the rungs before it
-- none does.
pub record Chooses (rs : List Rung) (ds : List Deployment) (name : String) (d : Deployment)
    (r : Rung) : Type 0 where
  pub earlier : List Rung
  pub later : List Rung
  pub placed : rs ≡ earlier ++ r ∷ later
  pub passed : All (FindsNothing ds name) earlier
  pub sole : IsSole (rung_matches r name) d ds

module _ (ds : List Deployment) (name : String) where
  -- What a rung makes of the Deployments that it matches.
  on_rung-Chooses :
      (q : Rung) (rs : List Rung) (next : Resolved) (d : Deployment) (r : Rung)
      (own : List Deployment)
      → (next ≡ resolved d r → Chooses rs ds name d r)
      → filter (rung_matches q name) ds ≡ own
      → on_rung q next own ≡ resolved d r
      → Chooses (q ∷ rs) ds name d r
  on_rung-Chooses q rs next d r [] later_rungs e k =
      let rest = later_rungs k in
      record {
        earlier = q ∷ rest.earlier;
        later = rest.later;
        placed = ap (λ x. q ∷ x) rest.placed;
        passed = (filter-nil (rung_matches q name) ds e, rest.passed);
        sole = rest.sole;
      }
  on_rung-Chooses q rs next d r (x ∷ []) later_rungs e k =
      let deployment : x ≡ d = ground arith in
      let rung : q ≡ r = ground arith in
      record {
        earlier = [];
        later = rs;
        placed = ap (λ y. y ∷ rs) rung;
        passed = tt;
        sole = filter-IsSole (rung_matches r name) ds d (
            subst (λ y. filter (rung_matches y name) ds ≡ d ∷ []) rung
              (e ∙ ap (λ y. y ∷ []) deployment));
      }
  on_rung-Chooses q rs next d r (x ∷ y ∷ zs) later_rungs e k = cc

  resolve_by-Chooses :
      (rs : List Rung) (d : Deployment) (r : Rung)
      → resolve_by rs ds name ≡ resolved d r
      → Chooses rs ds name d r
  unfolding resolve_by
  resolve_by-Chooses [] d r h = cc
  resolve_by-Chooses (q ∷ rs) d r h =
      on_rung-Chooses q rs _ d r (filter (rung_matches q name) ds) (resolve_by-Chooses rs d r) refl
        h

  passes_over :
      (earlier rs : List Rung)
      → All (FindsNothing ds name) earlier
      → resolve_by (earlier ++ rs) ds name ≡ resolve_by rs ds name
  unfolding resolve_by
  passes_over [] rs h = refl
  passes_over (q ∷ earlier) rs h =
      rw (filter_none (rung_matches q name) ds h.0) (passes_over earlier rs h.1)

  Chooses-resolve_by :
      (rs : List Rung) (d : Deployment) (r : Rung)
      → Chooses rs ds name d r
      → resolve_by rs ds name ≡ resolved d r
  unfolding resolve_by
  Chooses-resolve_by rs d r c =
      ap (λ x. resolve_by x ds name) c.placed
      ∙ passes_over c.earlier (r ∷ c.later) c.passed
      ∙ ap (on_rung r (resolve_by c.later ds name))
          (IsSole-filter (rung_matches r name) ds d c.sole)

  on_rung_unfound :
      (q : Rung) (next : Resolved) (own : List Deployment)
      → filter (rung_matches q name) ds ≡ own
      → on_rung q next own ≡ unfound
      → FindsNothing ds name q × (next ≡ unfound)
  on_rung_unfound q next [] e h = (filter-nil (rung_matches q name) ds e, h)
  on_rung_unfound q next (x ∷ []) e h = cc
  on_rung_unfound q next (x ∷ y ∷ ys) e h = cc

  resolve_by_unfound :
      (rs : List Rung) → (resolve_by rs ds name ≡ unfound) ↔ All (FindsNothing ds name) rs
  unfolding resolve_by
  resolve_by_unfound [] = (λ _. tt, λ _. refl)
  resolve_by_unfound (q ∷ rs) =
      let (to, from) = resolve_by_unfound rs in
      (
        λ h.
            let (here, rest) = on_rung_unfound q _ (filter (rung_matches q name) ds) refl h in
            (here, to rest),
        λ h. rw (filter_none (rung_matches q name) ds h.0) (from h.1),
      )

-- Resolve answers a Deployment by a rung exactly when that rung matches it alone and no rung before
-- it matches any. The name looked for is not empty.
pub resolve_iff :
    (ds : List Deployment) (name : String) (d : Deployment) (r : Rung)
    → name ≢ ""
    → (resolve ds name ≡ resolved d r) ↔ Chooses chain ds name d r
unfolding resolve
resolve_iff ds name d r h =
    let named = ne→== name "" h in
    rw named (resolve_by-Chooses ds name chain d r, Chooses-resolve_by ds name chain d r)

-- Resolve finds no Deployment exactly when Matches holds of none.
pub resolve_unfound_iff :
    (ds : List Deployment) (name : String)
    → (resolve ds name ≡ unfound) ↔ All (λ (d : Deployment). matches (some d) name ≡ false) ds
unfolding resolve matches
resolve_unfound_iff ds name = elim (Bool-cases (name == "")) [
  | inl nameless ↦ rw nameless (λ _. All-All ds (λ d. refl), λ _. refl)
  | inr named ↦
      let (to, from) = resolve_by_unfound ds name chain in
      let missed = λ (r : Rung) (d : Deployment). rung_matches r name d ≡ false in
      rw named (
        λ h.
            All-map (λ d k. (any_none (λ (r : Rung). rung_matches r name d) chain).1 k) ds
              (All-swap missed chain ds (to h)),
        λ h. from (
            All-swap (λ d r. missed r d) ds chain
              (All-map (λ d k. (any_none (λ (r : Rung). rung_matches r name d) chain).0 k) ds h)),
      )
]

-- ===== src/Common/Filter.antt =====
-- What a filter says of the list: that nothing passes the test, or exactly one element does.
use dorgu_operator.Common.{
  ◌≡◌, ◌↔◌, refl, ap, subst, Bool, true, false, List, [], ◌∷◌, ◌++◌, filter, any, All, Bool-cases,
  inl, inr, arith,
}

module _ {ℓ} {A : Type ℓ} (p : A → Bool) where
  pub filter-nil : (xs : List A) → filter p xs ≡ [] → All (λ x. p x ≡ false) xs
  filter-nil [] h = tt
  filter-nil (x ∷ xs) h = elim (Bool-cases (p x)) [
    | inl kept ↦ ground arith
    | inr dropped ↦ (dropped, filter-nil xs (ground arith))
  ]

  pub filter_none : (xs : List A) → All (λ x. p x ≡ false) xs → filter p xs ≡ []
  filter_none [] h = refl
  filter_none (x ∷ xs) h = rw h.0 (filter_none xs h.1)

  pub any_none : (xs : List A) → (any p xs ≡ false) ↔ All (λ x. p x ≡ false) xs
  any_none [] = (λ _. tt, λ _. refl)
  any_none (x ∷ xs) =
      let (to, from) = any_none xs in
      (λ h. (ground arith, to (ground arith)), λ h. let rest = from h.1 in ground arith)

  -- The element passes the test, and no other place in the list holds one that does.
  pub record IsSole (a : A) (xs : List A) : Type ℓ where
    pub before : List A
    pub after : List A
    pub placed : xs ≡ before ++ a ∷ after
    pub passes : p a ≡ true
    pub none_before : All (λ x. p x ≡ false) before
    pub none_after : All (λ x. p x ≡ false) after

  pub filter-IsSole : (xs : List A) (a : A) → filter p xs ≡ a ∷ [] → IsSole a xs
  filter-IsSole [] a h = cc
  filter-IsSole (x ∷ xs) a h = elim (Bool-cases (p x)) [
    | inl kept ↦
        let e : x ≡ a = ground arith in
        record {
          before = [];
          after = xs;
          placed = ap (λ y. y ∷ xs) e;
          passes = subst (λ y. p y ≡ true) e kept;
          none_before = tt;
          none_after = filter-nil xs (ground arith);
        }
    | inr dropped ↦
        let rest = filter-IsSole xs a (ground arith) in
        record {
          before = x ∷ rest.before;
          after = rest.after;
          placed = ap (λ ys. x ∷ ys) rest.placed;
          passes = rest.passes;
          none_before = (dropped, rest.none_before);
          none_after = rest.none_after;
        }
  ]

  IsSole-filter_at :
      (before after : List A) (a : A)
      → p a ≡ true
      → All (λ x. p x ≡ false) before
      → All (λ x. p x ≡ false) after
      → filter p (before ++ a ∷ after) ≡ a ∷ []
  IsSole-filter_at [] after a h b c = rw h (ap (λ ys. a ∷ ys) (filter_none after c))
  IsSole-filter_at (x ∷ before) after a h b c = rw b.0 (IsSole-filter_at before after a h b.1 c)

  pub IsSole-filter : (xs : List A) (a : A) → IsSole a xs → filter p xs ≡ a ∷ []
  IsSole-filter xs a s =
      rw s.placed (IsSole-filter_at s.before s.after a s.passes s.none_before s.none_after)

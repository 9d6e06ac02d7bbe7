-- ===== src/Workload/Ownership/Benign.antt =====
-- Field managers whose entries say nothing of a Deployment's owner: kubectl, Dorgu itself and the
-- Deployment controller.
use dorgu_operator.Common.{
  String, ◌≡◌, refl, Bool, true, false, ◌&&◌, ◌||◌, not, some, List, [], ◌∷◌, any, ◌==◌, arith,
  Bool-cases, inl, inr, All, ◌++◌,
}
use dorgu_operator.Common.Text.{has_prefix}
use dorgu_operator.Workload.{Deployment, ManagedFieldsEntry}
use dorgu_operator.Workload.Ownership.{
  lower_is, lower_has_prefix, has_manager, is_known_benign_manager, foreign_field_owner,
  detect_owner,
}

-- A text whose lower case is `t` and begins with `p` shows that `t` begins with `p`.
lower_is-has_prefix :
    (s t p : String) → lower_is s t ≡ true → lower_has_prefix s p ≡ true → has_prefix t p ≡ true
unfolding lower_is lower_has_prefix has_prefix
lower_is-has_prefix s t String.[] h k = refl
lower_is-has_prefix String.[] t (String.◌∷◌ e p) h k = cc
lower_is-has_prefix (String.◌∷◌ c s) String.[] (String.◌∷◌ e p) h k = cc
lower_is-has_prefix (String.◌∷◌ c s) (String.◌∷◌ d t) (String.◌∷◌ e p) h k =
    ground (arith, lower_is-has_prefix s t p)

-- Two lower cases of one text agree.
lower_is-lower_is :
    (s t u : String) → lower_is s t ≡ true → lower_is s u ≡ true → has_prefix t u ≡ true
unfolding lower_is has_prefix
lower_is-lower_is s t String.[] h k = refl
lower_is-lower_is String.[] t (String.◌∷◌ e u) h k = cc
lower_is-lower_is (String.◌∷◌ c s) String.[] (String.◌∷◌ e u) h k = cc
lower_is-lower_is (String.◌∷◌ c s) (String.◌∷◌ d t) (String.◌∷◌ e u) h k =
    ground (arith, lower_is-lower_is s t u)

-- No benign manager has the name, or one that begins with it.
abbrev NotBenign : String → Type 0
NotBenign n =
    (has_prefix n "kubectl" || has_prefix n "dorgu" || has_prefix n "kube-controller-manager")
    ≡ false

benign_other :
    (m n : String) → is_known_benign_manager m ≡ true → NotBenign n → lower_is m n ≡ false
unfolding is_known_benign_manager
benign_other m n h k = elim (Bool-cases (lower_is m n)) [
  | inr other ↦ other
  | inl same ↦ ground (
    arith,
    lower_is-has_prefix m n "kubectl" same,
    lower_is-has_prefix m n "dorgu" same,
    lower_is-lower_is m n "kube-controller-manager" same,
  )
]

abbrev named : String → ManagedFieldsEntry → Bool
named n e = not (e.manager == "") && lower_is e.manager n

any-named-past :
    (n : String) (before after : List ManagedFieldsEntry) (e : ManagedFieldsEntry)
    → lower_is e.manager n ≡ false
    → any (named n) (before ++ e ∷ after) ≡ any (named n) (before ++ after)
any-named-past n [] after e h = ground arith
any-named-past n (x ∷ before) after e h = ground (arith, any-named-past n before after e h)

module _ (before after : List ManagedFieldsEntry) (e : ManagedFieldsEntry)
    (benign : is_known_benign_manager e.manager ≡ true) where
  any-named-skip :
      (n : String)
      → NotBenign n
      → any (named n) (before ++ e ∷ after) ≡ any (named n) (before ++ after)
  any-named-skip n h = any-named-past n before after e (benign_other e.manager n benign h)

  has_manager-skip :
      (names : List String)
      → All NotBenign names
      → has_manager (before ++ e ∷ after) names ≡ has_manager (before ++ after) names
  unfolding has_manager
  has_manager-skip [] h = refl
  has_manager-skip (n ∷ names) h = ground (arith, any-named-skip n h.0, has_manager-skip names h.1)

foreign-skip :
    (before after : List ManagedFieldsEntry) (e : ManagedFieldsEntry)
    → is_known_benign_manager e.manager ≡ true
    → foreign_field_owner (before ++ e ∷ after) ≡ foreign_field_owner (before ++ after)
unfolding foreign_field_owner
foreign-skip [] after e h = ground arith
foreign-skip (x ∷ before) after e h = ground (arith, foreign-skip before after e h)

-- An entry of kubectl, of Dorgu or of the Deployment controller, wherever it stands, changes nothing
-- in the answer about the owner.
pub detect_owner-benign :
    (d : Deployment) (before after : List ManagedFieldsEntry) (e : ManagedFieldsEntry)
    → is_known_benign_manager e.manager ≡ true
    → detect_owner (some (record d { managed_fields = before ++ e ∷ after }))
      ≡ detect_owner (some (record d { managed_fields = before ++ after }))
unfolding detect_owner has_prefix
detect_owner-benign d before after e h =
    let skip = has_manager-skip before after e h in
    rw (
      skip ("argocd-controller" ∷ "argocd-application-controller" ∷ []) (refl, (refl, tt)),
      skip ("kustomize-controller" ∷ "helm-controller" ∷ []) (refl, (refl, tt)),
      skip ("helm" ∷ []) (refl, tt),
      foreign-skip before after e h,
    )

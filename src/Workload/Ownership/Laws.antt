-- ===== src/Workload/Ownership/Laws.antt =====
-- When a Deployment counts as unmanaged, and which field managers say nothing of its owner.
use dorgu_operator.Common.{
  String, ◌≡◌, ◌≢◌, ◌↔◌, ◌⊎◌, refl, true, false, none, List, [], ◌∷◌, eq_iff, arith, All, Option,
  some,
}
use dorgu_operator.Common.Maps.{text_at}
use dorgu_operator.Workload.{Deployment, ManagedFieldsEntry}
use dorgu_operator.Workload.Fields.{owns_container_resources}
use dorgu_operator.Workload.Ownership.{
  lower_is, has_manager, managed_by_label, is_kustomize_managed_by, is_known_benign_manager,
  foreign_field_owner, detect_argo_cd, Ownership, or_else, unmanaged, detect_kustomize, detect_flux,
  detect_helm, detect_owner,
}

-- What marks an owner by a text that is not empty.
abbrev pub owner_annotations : List String
owner_annotations =
    "argocd.argoproj.io/tracking-id" ∷ "meta.helm.sh/release-name" ∷ "config.kubernetes.io/origin"
    ∷ "alpha.config.kubernetes.io/transformations" ∷ []

abbrev pub owner_labels : List String
owner_labels =
    "argocd.argoproj.io/instance" ∷ "kustomize.toolkit.fluxcd.io/name"
    ∷ "helm.toolkit.fluxcd.io/name" ∷ []

abbrev pub owner_managers : List String
owner_managers =
    "argocd-controller" ∷ "argocd-application-controller" ∷ "kustomize-controller"
    ∷ "helm-controller" ∷ "helm" ∷ []

-- The entry's manager is missing or benign, or it neither applies nor owns a container's resources.
abbrev pub ClaimsNothing : ManagedFieldsEntry → Type 0
ClaimsNothing e =
    (e.manager ≡ "")
    ⊎ (is_known_benign_manager e.manager ≡ true)
    ⊎ ((e.operation ≢ "Apply") × ((e.operation ≢ "Update") ⊎ (owns_container_resources e ≡ false)))

-- Nothing on the Deployment speaks of an owner.
pub record HasNoOwner (d : Deployment) : Type 0 where
  pub annotations : All (λ (k : String). text_at k d.annotations ≡ "") owner_annotations
  pub labels : All (λ (k : String). text_at k d.labels ≡ "") owner_labels
  pub not_helm : lower_is (text_at managed_by_label d.labels) "helm" ≡ false
  pub not_kustomize : is_kustomize_managed_by (text_at managed_by_label d.labels) ≡ false
  pub managers : has_manager d.managed_fields owner_managers ≡ false
  pub claims : All ClaimsNothing d.managed_fields

foreign_field_owner_iff :
    (es : List ManagedFieldsEntry) → (foreign_field_owner es ≡ none) ↔ All ClaimsNothing es
unfolding foreign_field_owner
foreign_field_owner_iff [] = (λ _. tt, λ _. refl)
foreign_field_owner_iff (e ∷ es) =
    let (to, from) = foreign_field_owner_iff es in
    (
      λ h. (
        ground
            (arith, eq_iff e.manager "", eq_iff e.operation "Apply", eq_iff e.operation "Update"),
        to (ground arith),
      ),
      λ h.
          let later = from h.1 in
          ground (
            arith,
            eq_iff e.manager "",
            eq_iff e.operation "Apply",
            eq_iff e.operation "Update",
            h.0,
          ),
    )

-- Every answer of a detector names an owner.
abbrev NamesOwner : Option Ownership → Type 0
NamesOwner x = (o : Ownership) → x ≡ some o → o.managed_by ≢ unmanaged

argo_cd-NamesOwner : (d : Deployment) → NamesOwner (detect_argo_cd d)
unfolding detect_argo_cd
argo_cd-NamesOwner d o h e = ground arith

flux-NamesOwner : (d : Deployment) → NamesOwner (detect_flux d)
unfolding detect_flux
flux-NamesOwner d o h e = ground arith

helm-NamesOwner : (d : Deployment) → NamesOwner (detect_helm d)
unfolding detect_helm
helm-NamesOwner d o h e = ground arith

kustomize-NamesOwner : (d : Deployment) → NamesOwner (detect_kustomize d)
unfolding detect_kustomize
kustomize-NamesOwner d o h e = ground arith

foreign-NamesOwner : (es : List ManagedFieldsEntry) → NamesOwner (foreign_field_owner es)
unfolding foreign_field_owner
foreign-NamesOwner [] o h e = cc
foreign-NamesOwner (x ∷ es) o h e = ground (arith, foreign-NamesOwner es o)

after_owner :
    (o : Option Ownership) (next : Ownership)
    → NamesOwner o
    → ((or_else o next).managed_by ≡ unmanaged) ↔ ((o ≡ none) × (next.managed_by ≡ unmanaged))
after_owner none next h = (λ e. (refl, e), λ k. k.1)
after_owner (some o) next h = (λ e. absurd (h o refl e), λ k. cc)

argo_cd_iff :
    (d : Deployment)
    → (detect_argo_cd d ≡ none) ↔ (
        (text_at "argocd.argoproj.io/tracking-id" d.annotations ≡ "")
        × ((text_at "argocd.argoproj.io/instance" d.labels ≡ "")
            × (has_manager d.managed_fields
                  ("argocd-controller" ∷ "argocd-application-controller" ∷ [])
                ≡ false)))
unfolding detect_argo_cd
argo_cd_iff d = ground (
  arith,
  eq_iff (text_at "argocd.argoproj.io/tracking-id" d.annotations) "",
  eq_iff (text_at "argocd.argoproj.io/instance" d.labels) "",
)

flux_iff :
    (d : Deployment)
    → (detect_flux d ≡ none) ↔ (
        (text_at "kustomize.toolkit.fluxcd.io/name" d.labels ≡ "")
        × ((text_at "helm.toolkit.fluxcd.io/name" d.labels ≡ "")
            × (has_manager d.managed_fields ("kustomize-controller" ∷ "helm-controller" ∷ [])
                ≡ false)))
unfolding detect_flux
flux_iff d = ground (
  arith,
  eq_iff (text_at "kustomize.toolkit.fluxcd.io/name" d.labels) "",
  eq_iff (text_at "helm.toolkit.fluxcd.io/name" d.labels) "",
)

helm_iff :
    (d : Deployment)
    → (detect_helm d ≡ none) ↔ (
        (text_at "meta.helm.sh/release-name" d.annotations ≡ "")
        × ((lower_is (text_at managed_by_label d.labels) "helm" ≡ false)
            × (has_manager d.managed_fields ("helm" ∷ []) ≡ false)))
unfolding detect_helm
helm_iff d = ground (arith, eq_iff (text_at "meta.helm.sh/release-name" d.annotations) "")

kustomize_iff :
    (d : Deployment)
    → (detect_kustomize d ≡ none) ↔ (
        (is_kustomize_managed_by (text_at managed_by_label d.labels) ≡ false)
        × ((text_at "config.kubernetes.io/origin" d.annotations ≡ "")
            × (text_at "alpha.config.kubernetes.io/transformations" d.annotations ≡ "")))
unfolding detect_kustomize
kustomize_iff d = ground (
  arith,
  eq_iff (text_at "config.kubernetes.io/origin" d.annotations) "",
  eq_iff (text_at "alpha.config.kubernetes.io/transformations" d.annotations) "",
)

managers_split :
    (es : List ManagedFieldsEntry)
    → (has_manager es owner_managers ≡ false) ↔ (
        (has_manager es ("argocd-controller" ∷ "argocd-application-controller" ∷ []) ≡ false)
        × ((has_manager es ("kustomize-controller" ∷ "helm-controller" ∷ []) ≡ false)
            × (has_manager es ("helm" ∷ []) ≡ false)))
unfolding has_manager
managers_split es = ground arith

-- The detectors in their order: the answer is unmanaged where none of them has one.
all_detectors :
    (d : Deployment)
    → ((detect_owner (some d)).managed_by ≡ unmanaged) ↔ (
        (detect_argo_cd d ≡ none)
        × ((detect_flux d ≡ none)
            × ((detect_helm d ≡ none)
                × ((detect_kustomize d ≡ none) × (foreign_field_owner d.managed_fields ≡ none)))))
unfolding detect_owner
all_detectors d =
    let (a, a') = after_owner _ _ (argo_cd-NamesOwner d) in
    let (b, b') = after_owner _ _ (flux-NamesOwner d) in
    let (c, c') = after_owner _ _ (helm-NamesOwner d) in
    let (e, e') = after_owner _ _ (kustomize-NamesOwner d) in
    let (f, f') = after_owner _ _ (foreign-NamesOwner d.managed_fields) in
    (
      λ h.
          let h1 = a h in
          let h2 = b h1.1 in
          let h3 = c h2.1 in let h4 = e h3.1 in (h1.0, (h2.0, (h3.0, (h4.0, (f h4.1).0)))),
      λ k. a' (k.0, b' (k.1.0, c' (k.1.1.0, e' (k.1.1.1.0, f' (k.1.1.1.1, refl))))),
    )

-- A Deployment counts as unmanaged exactly when nothing on it speaks of an owner: no annotation or
-- label of ArgoCD, Flux, Helm or kustomize, no field manager of theirs, and no other field manager
-- that applies it or owns a container's resources.
pub detect_owner_unmanaged_iff :
    (d : Deployment) → ((detect_owner (some d)).managed_by ≡ unmanaged) ↔ HasNoOwner d
detect_owner_unmanaged_iff d =
    let (to, from) = all_detectors d in
    let (a, a') = argo_cd_iff d in
    let (b, b') = flux_iff d in
    let (c, c') = helm_iff d in
    let (e, e') = kustomize_iff d in
    let (f, f') = foreign_field_owner_iff d.managed_fields in
    let (m, m') = managers_split d.managed_fields in
    (
      λ h.
          let h0 = to h in
          let ha = a h0.0 in
          let hb = b h0.1.0 in
          let hc = c h0.1.1.0 in
          let he = e h0.1.1.1.0 in
          record {
            annotations = (ha.0, (hc.0, (he.1.0, (he.1.1, tt))));
            labels = (ha.1.0, (hb.0, (hb.1.0, tt)));
            not_helm = hc.1.0;
            not_kustomize = he.0;
            managers = m' (ha.1.1, (hb.1.1, hc.1.1));
            claims = f h0.1.1.1.1;
          },
      λ n.
          let ms = m n.managers in
          let an = n.annotations in
          let ls = n.labels in
          from (
            a' (an.0, (ls.0, ms.0)),
            (
              b' (ls.1.0, (ls.1.1.0, ms.1.0)),
              (
                c' (an.1.0, (n.not_helm, ms.1.1)),
                (e' (n.not_kustomize, (an.1.1.0, an.1.1.1.0)), f' n.claims),
              ),
            ),
          ),
    )

-- ===== src/Workload/Ownership.antt =====
-- internal/workload/ownership.go: which system owns a Deployment's desired state.
pub mod Laws
pub mod Benign
use Prim.Native.Char.{Char, code}
use dorgu_operator.Common.{
  ℕ, ◌+◌, String, Bool, true, false, ◌&&◌, ◌||◌, not, Option, none, some, List, [], ◌∷◌, any, ◌==◌,
  if◌then◌else◌, leb, eqb,
}
use dorgu_operator.Common.Maps.{text_at}
use dorgu_operator.Common.Text.{trim_space, cut}
use dorgu_operator.Api.{word, Message, sprintf}
use dorgu_operator.Workload.{Deployment, ManagedFieldsEntry}
use dorgu_operator.Workload.Fields.{owns_container_resources}

-- The lower case of a character, as far as it is an ASCII character: of all others only the Kelvin
-- sign and the dotted capital I have one.
abbrev pub lower_code : ℕ → ℕ
lower_code n =
    if leb 65 n && leb n 90
    then n + 32
    else if eqb n 0x212a
    then 0x6b
    else if eqb n 0x130
    then 0x69
    else n

-- strings.ToLower(s) == t, for a lower-case ASCII text t.
unfoldable pub lower_is : String → String → Bool
lower_is String.[] String.[] = true
lower_is String.[] (String.◌∷◌ d t) = false
lower_is (String.◌∷◌ c s) String.[] = false
lower_is (String.◌∷◌ c s) (String.◌∷◌ d t) = eqb (lower_code (code c)) (code d) && lower_is s t

-- strings.HasPrefix(strings.ToLower(s), t), for a lower-case ASCII text t.
unfoldable pub lower_has_prefix : String → String → Bool
lower_has_prefix s String.[] = true
lower_has_prefix String.[] (String.◌∷◌ d t) = false
lower_has_prefix (String.◌∷◌ c s) (String.◌∷◌ d t) =
    eqb (lower_code (code c)) (code d) && lower_has_prefix s t

pub data ManagedBy : Type 0 where
  helm argocd flux kustomize unmanaged owner_unknown : ManagedBy

pub record Ownership : Type 0 where
  pub managed_by : ManagedBy
  pub detail : Message

abbrev pub owned_by : ManagedBy → Message → Option Ownership
owned_by m detail = some record { managed_by = m; detail = detail }

abbrev pub is_unmanaged : ManagedBy → Bool
is_unmanaged unmanaged = true
is_unmanaged _ = false

-- (o Ownership) IsOwned
unfoldable pub is_owned : Ownership → Bool
is_owned o = not (is_unmanaged o.managed_by)

-- hasManager over fieldManagers: some entry's manager, in lower case, is one of the names.
unfoldable pub has_manager : List ManagedFieldsEntry → List String → Bool
has_manager entries names =
    any
      (λ (n : String).
        any (λ (e : ManagedFieldsEntry). not (e.manager == "") && lower_is e.manager n) entries)
      names

-- argoCDAppFromTrackingID
unfoldable pub argo_cd_app : String → String
unfolding cut
argo_cd_app id = elim (cut id b':') [ none ↦ id | some (app, _) ↦ if app == "" then id else app ]

unfoldable pub detect_argo_cd : Deployment → Option Ownership
unfolding argo_cd_app
detect_argo_cd d =
    let tracking = text_at "argocd.argoproj.io/tracking-id" d.annotations in
    let instance_name = text_at "argocd.argoproj.io/instance" d.labels in
    if not (tracking == "")
    then owned_by argocd (sprintf "ArgoCD application %q" (word (argo_cd_app tracking) ∷ []))
    else if not (instance_name == "")
    then owned_by argocd (sprintf "ArgoCD application %q" (word instance_name ∷ []))
    else if has_manager d.managed_fields
        ("argocd-controller" ∷ "argocd-application-controller" ∷ [])
    then owned_by argocd (sprintf "an ArgoCD application" [])
    else none

unfoldable pub detect_flux : Deployment → Option Ownership
detect_flux d =
    let kustomization = text_at "kustomize.toolkit.fluxcd.io/name" d.labels in
    let release = text_at "helm.toolkit.fluxcd.io/name" d.labels in
    if not (kustomization == "")
    then owned_by flux (sprintf "Flux Kustomization %q" (word kustomization ∷ []))
    else if not (release == "")
    then owned_by flux (sprintf "Flux HelmRelease %q" (word release ∷ []))
    else if has_manager d.managed_fields ("kustomize-controller" ∷ "helm-controller" ∷ [])
    then owned_by flux (sprintf "a Flux controller" [])
    else none

abbrev pub managed_by_label : String
managed_by_label = "app.kubernetes.io/managed-by"

-- strings.EqualFold with "helm" is equality in lower case: no letter of it has another fold.
unfoldable pub detect_helm : Deployment → Option Ownership
detect_helm d =
    let release = text_at "meta.helm.sh/release-name" d.annotations in
    let release_namespace = text_at "meta.helm.sh/release-namespace" d.annotations in
    if not (release == "")
    then owned_by helm (
        if release_namespace == ""
        then sprintf "Helm release %q" (word release ∷ [])
        else sprintf "Helm release %q in namespace %s" (word release ∷ word release_namespace ∷ []))
    else if lower_is (text_at managed_by_label d.labels) "helm"
    then owned_by helm (sprintf "a Helm release" [])
    else if has_manager d.managed_fields ("helm" ∷ [])
    then owned_by helm (sprintf "a Helm release" [])
    else none

unfoldable pub is_kustomize_managed_by : String → Bool
is_kustomize_managed_by value =
    lower_is (trim_space value) "kustomize" || lower_has_prefix (trim_space value) "kustomize-"

unfoldable pub detect_kustomize : Deployment → Option Ownership
detect_kustomize d =
    if is_kustomize_managed_by (text_at managed_by_label d.labels)
    then owned_by kustomize (sprintf "a kustomize overlay" [])
    else if any (λ (k : String). not (text_at k d.annotations == ""))
        ("config.kubernetes.io/origin" ∷ "alpha.config.kubernetes.io/transformations" ∷ [])
    then owned_by kustomize (sprintf "a kustomize overlay" [])
    else none

unfoldable pub is_known_benign_manager : String → Bool
is_known_benign_manager manager =
    lower_has_prefix manager "kubectl"
    || lower_has_prefix manager "dorgu"
    || lower_is manager "kube-controller-manager"

-- What one round of the loop finds in an entry whose manager is not benign.
abbrev foreign_claim : ManagedFieldsEntry → Option Ownership
foreign_claim e =
    if e.operation == "Apply"
    then owned_by owner_unknown
        (sprintf "server-side applied by field manager %q" (word e.manager ∷ []))
    else if e.operation == "Update"
    then if owns_container_resources e
      then owned_by owner_unknown
          (sprintf "field manager %q already owns this container's resources" (word e.manager ∷ []))
      else none
    else none

unfoldable pub foreign_field_owner : List ManagedFieldsEntry → Option Ownership
unfolding is_known_benign_manager
foreign_field_owner [] = none
foreign_field_owner (e ∷ es) =
    if e.manager == "" || is_known_benign_manager e.manager
    then foreign_field_owner es
    else elim (foreign_claim e) [ some o ↦ some o | none ↦ foreign_field_owner es ]

-- The answer of the first detector that has one.
abbrev pub or_else : Option Ownership → Ownership → Ownership
or_else (some o) next = o
or_else none next = next

-- DetectOwner; `none` is a nil Deployment.
unfoldable pub detect_owner : Option Deployment → Ownership
unfolding detect_argo_cd detect_flux detect_helm detect_kustomize foreign_field_owner
detect_owner none = record { managed_by = owner_unknown; detail = sprintf "" [] }
detect_owner (some d) = or_else (detect_argo_cd d) (
    or_else (detect_flux d) (
      or_else (detect_helm d) (
        or_else (detect_kustomize d) (
          or_else (foreign_field_owner d.managed_fields)
            (record { managed_by = unmanaged; detail = sprintf "" [] })))))

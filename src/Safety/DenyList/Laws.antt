-- ===== src/Safety/DenyList/Laws.antt =====
-- When the deny list clears a namespace.
use dorgu_operator.Common.{
  String, ◌≡◌, ◌≢◌, ◌↔◌, refl, true, false, none, some, List, [], ◌∷◌, Memᴰ, contains,
  contains-append, All, subst, eq_iff, arith, inl, inr, ◌⊎◌,
}
use dorgu_operator.Executor.{found, Fetched-cases}
use dorgu_operator.Safety.Readings.{View, ClusterPersona}
use dorgu_operator.Safety.DenyList.{
  with_protected_namespaces, with_options, new_safety_checker, all_excluded, excluded_of,
  namespace_denied,
}

-- A namespace that is known and unprotected, with the policies at hand, none of which excludes it.
pub record IsCleared (protected : List String) (v : View) (ns : String) : Type 0 where
  pub known : ns ≢ ""
  pub unprotected : contains protected ns ≡ false
  pub personas : List ClusterPersona
  pub readable : v.list_cluster_personas ≡ found personas
  pub not_excluded :
      All (λ (cp : ClusterPersona). contains (excluded_of cp.policies) ns ≡ false) personas

all_excluded-All :
    (cps : List ClusterPersona) (ns : String)
    → (contains (all_excluded cps) ns ≡ false)
      ↔ All (λ (cp : ClusterPersona). contains (excluded_of cp.policies) ns ≡ false) cps
all_excluded-All [] ns = (λ _. tt, λ _. refl)
all_excluded-All (cp ∷ cps) ns =
    let (to, from) = all_excluded-All cps ns in
    let split = contains-append (excluded_of cp.policies) (all_excluded cps) ns in
    (λ h. (ground arith, to (ground arith)), λ h. let rest = from h.1 in ground arith)

namespace_denied_sound :
    (protected : List String) (v : View) (ns : String)
    → namespace_denied (some protected) v ns ≡ none
    → IsCleared protected v ns
unfolding namespace_denied
namespace_denied_sound protected v ns h = elim (Fetched-cases v.list_cluster_personas) [
  | inl (cps, listed) ↦ record {
    known = λ e. ground (arith, eq_iff ns "");
    unprotected = ground arith;
    personas = cps;
    readable = listed;
    not_excluded = (all_excluded-All cps ns).0 (ground arith);
  }
  | inr (e, unreadable) ↦ ground arith
]

namespace_denied_complete :
    (protected : List String) (v : View) (ns : String)
    → IsCleared protected v ns
    → namespace_denied (some protected) v ns ≡ none
unfolding namespace_denied
namespace_denied_complete protected v ns c =
    let outside = (all_excluded-All c.personas ns).1 c.not_excluded in
    ground (arith, eq_iff ns "", c.known, c.readable, c.unprotected)

-- The deny list clears a namespace exactly when it is known and unprotected, and every
-- ClusterPersona could be read and does not exclude it. So an unreadable policy denies.
pub namespace_denied_iff :
    (protected : List String) (v : View) (ns : String)
    → (namespace_denied (some protected) v ns ≡ none) ↔ IsCleared protected v ns
namespace_denied_iff protected v ns =
    (namespace_denied_sound protected v ns, namespace_denied_complete protected v ns)

module _ (ns : String) where
  with_protected_keeps :
      (names protected : List String)
      → contains protected ns ≡ true
      → contains (with_protected_namespaces names protected) ns ≡ true
  unfolding with_protected_namespaces
  with_protected_keeps [] protected h = h
  with_protected_keeps (n ∷ names) protected h =
      with_protected_keeps names _ (ground (arith, contains-append protected (n ∷ []) ns))

  with_protected_adds :
      (names protected : List String)
      → Memᴰ ns names
      → ns ≢ ""
      → contains (with_protected_namespaces names protected) ns ≡ true
  unfolding with_protected_namespaces
  with_protected_adds [] protected m h = elim m [ ]
  with_protected_adds (n ∷ names) protected (Memᴰ.head e) h =
      with_protected_keeps names _
        (ground (arith, contains-append protected (n ∷ []) ns, eq_iff n "", eq_iff n ns))
  with_protected_adds (n ∷ names) protected (Memᴰ.tail m) h = with_protected_adds names _ m h

  with_options_keeps :
      (opts : List (List String)) (protected : List String)
      → contains protected ns ≡ true
      → contains (with_options opts protected) ns ≡ true
  unfolding with_options
  with_options_keeps [] protected h = h
  with_options_keeps (names ∷ opts) protected h =
      with_options_keeps opts _ (with_protected_keeps names protected h)

  with_options_adds :
      (opts : List (List String)) (protected names : List String)
      → Memᴰ names opts
      → Memᴰ ns names
      → ns ≢ ""
      → contains (with_options opts protected) ns ≡ true
  unfolding with_options
  with_options_adds [] protected names o m h = elim o [ ]
  with_options_adds (names ∷ opts) protected ms (Memᴰ.head e) m h =
      with_options_keeps opts _ (with_protected_adds names protected (subst (λ l. Memᴰ ns l) e m) h)
  with_options_adds (_ ∷ opts) protected ms (Memᴰ.tail o) m h = with_options_adds opts _ ms o m h

  protected_denied :
      (protected : List String) (v : View)
      → contains protected ns ≡ true
      → namespace_denied (some protected) v ns ≢ none
  unfolding namespace_denied
  protected_denied protected v h = ground arith

-- A checker refuses every namespace that one of its options protects, unless its name is empty,
-- and kube-system, whatever the cluster's policies are.
pub new_safety_checker_denies :
    (opts : List (List String)) (v : View) (ns : String)
    → (ns ≡ "kube-system") ⊎ ((names : List String) × Memᴰ names opts × Memᴰ ns names)
    → ns ≢ ""
    → namespace_denied (some (new_safety_checker opts)) v ns ≢ none
unfolding new_safety_checker
new_safety_checker_denies opts v ns (inl e) h =
    protected_denied ns _ v (with_options_keeps ns opts _ (ground (arith, eq_iff "kube-system" ns)))
new_safety_checker_denies opts v ns (inr (names, o, m)) h =
    protected_denied ns _ v (with_options_adds ns opts _ names o m h)

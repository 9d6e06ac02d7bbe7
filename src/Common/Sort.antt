-- ===== src/Common/Sort.antt =====
-- slices.Sort on texts, as an insertion sort: a sorted list of texts has one order.
use Prim.Native.String.{compare}
use text.Mathlib.Text.{is_le}
use dorgu_operator.Common.{
  String, ◌≡◌, refl, ◌∙◌, ◌↔◌, Bool, false, ◌||◌, List, [], ◌∷◌, All, contains, NoRepeat, ◌==◌,
  eq_iff, arith, if◌then◌else◌, Bool-cases, inl, inr,
}

abbrev text_le : String → String → Bool
text_le s t = is_le (compare s t)

unfoldable pub insert_sorted : String → List String → List String
insert_sorted s [] = s ∷ []
insert_sorted s (t ∷ ts) = if text_le s t then s ∷ t ∷ ts else t ∷ insert_sorted s ts

unfoldable pub sort : List String → List String
unfolding insert_sorted
sort [] = []
sort (s ∷ ss) = insert_sorted s (sort ss)

module _ {ℓ} (P : String → Type ℓ) where
  All-insert_sorted :
      (s : String) (ts : List String) → All P (insert_sorted s ts) ↔ (P s × All P ts)
  unfolding insert_sorted
  All-insert_sorted s [] = (λ h. h, λ h. h)
  All-insert_sorted s (t ∷ ts) = elim (Bool-cases (text_le s t)) [
    | inl before ↦ rw before (λ h. h, λ h. h)
    | inr after ↦
        let (to, from) = All-insert_sorted s ts in
        rw after (λ h. let (p, q) = to h.1 in (p, (h.0, q)), λ h. (h.1.0, from (h.0, h.1.1)))
  ]

  -- Sorting neither adds nor drops a text.
  pub All-sort : (ss : List String) → All P (sort ss) ↔ All P ss
  unfolding sort
  All-sort [] = (λ h. h, λ h. h)
  All-sort (s ∷ ss) =
      let (to, from) = All-insert_sorted s (sort ss) in
      let (to', from') = All-sort ss in
      (λ h. let (p, q) = to h in (p, to' q), λ h. from (h.0, from' h.1))

contains-insert_sorted :
    (s : String) (ts : List String) (a : String)
    → contains (insert_sorted s ts) a ≡ (s == a || contains ts a)
unfolding insert_sorted
contains-insert_sorted s [] a = refl
contains-insert_sorted s (t ∷ ts) a = ground (arith, contains-insert_sorted s ts a)

pub contains-sort : (ss : List String) (a : String) → contains (sort ss) a ≡ contains ss a
unfolding sort
contains-sort [] a = refl
contains-sort (s ∷ ss) a = ground (arith, contains-insert_sorted s (sort ss) a, contains-sort ss a)

NoRepeat-insert_sorted :
    (s : String) (ts : List String)
    → contains ts s ≡ false
    → NoRepeat ts
    → NoRepeat (insert_sorted s ts)
unfolding insert_sorted
NoRepeat-insert_sorted s [] h u = (refl, tt)
NoRepeat-insert_sorted s (t ∷ ts) h u = elim (Bool-cases (text_le s t)) [
  | inl before ↦ rw before (h, u)
  | inr after ↦ rw after (
    ground (arith, contains-insert_sorted s ts t, eq_iff s t, eq_iff t s),
    NoRepeat-insert_sorted s ts (ground arith) u.1,
  )
]

pub NoRepeat-sort : (ss : List String) → NoRepeat ss → NoRepeat (sort ss)
unfolding sort
NoRepeat-sort [] u = tt
NoRepeat-sort (s ∷ ss) u =
    NoRepeat-insert_sorted s (sort ss) (contains-sort ss s ∙ u.0) (NoRepeat-sort ss u.1)

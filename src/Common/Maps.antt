-- ===== src/Common/Maps.antt =====
-- A Go map keyed by texts: an association list in one iteration order, with each key once.
use dorgu_operator.Common.{
  String, ◌≡◌, refl, Option, none, some, List, [], ◌∷◌, ◌==◌, if◌then◌else◌, eq_iff, arith,
}

module _ {ℓ} {V : Type ℓ} where
  -- m[k], where the key is there.
  unfoldable pub lookup : String → List (String × V) → Option V
  lookup key [] = none
  lookup key ((own, value) ∷ rest) = if own == key then some value else lookup key rest

  -- m[k] = v: in place where the key is there, and else at the end.
  unfoldable pub insert : String → V → List (String × V) → List (String × V)
  insert key new [] = (key, new) ∷ []
  insert key new ((own, value) ∷ rest) =
      let later = insert key new rest in
      if own == key then (own, new) ∷ rest else (own, value) ∷ later

  abbrev pub keys : List (String × V) → List String
  keys [] = []
  keys ((own, _) ∷ rest) = own ∷ keys rest

  -- What a key holds after another, or the same, was written.
  pub lookup-insert :
      (key at : String) (new : V) (entries : List (String × V))
      → lookup at (insert key new entries) ≡ (if key == at then some new else lookup at entries)
  unfolding lookup insert
  lookup-insert key at new [] = refl
  lookup-insert key at new ((own, value) ∷ rest) =
      let later = lookup-insert key at new rest in
      ground (arith, eq_iff own key, eq_iff own at, eq_iff key at, later)

-- m[k] on a map of texts, which is the empty text where the key is missing.
unfoldable pub text_at : String → List (String × String) → String
text_at key [] = ""
text_at key ((own, value) ∷ rest) = if own == key then value else text_at key rest

pub text_at-insert :
    (key at new : String) (entries : List (String × String))
    → text_at at (insert key new entries) ≡ (if key == at then new else text_at at entries)
unfolding text_at insert
text_at-insert key at new [] = refl
text_at-insert key at new ((own, value) ∷ rest) =
    let later = text_at-insert key at new rest in
    ground (arith, eq_iff own key, eq_iff own at, eq_iff key at, later)

-- ===== src/Common/Lists.antt =====
-- Lists measured by native numbers, tests over lists, and predicates on every and on some element.
use Prim.Native.Nat.{ℕ, suc}
use Prim.Native.String.{String}
use mathlib.Core.Path.{◌≡◌, refl, sym, subst, ap}
use mathlib.Core.Logic.{inl, inr}
use mathlib.Core.Bool.{Bool, true, false, ◌||◌}
use mathlib.Core.Option.{Option, none, some}
use mathlib.Core.List.{List, [], ◌∷◌, ◌++◌, Memᴰ}
use native.Mathlib.Omega.{arith}
use text.Mathlib.Text.{◌==◌}
use text.Mathlib.TextEquality.{eq_iff}
use dorgu_operator.Common.Tests.{if◌then◌else◌, Bool-cases}

module _ {ℓ} {A : Type ℓ} where
  abbrev pub length : List A → ℕ
  length [] = 0
  length (_ ∷ xs) = suc (length xs)

  abbrev pub any : (A → Bool) → List A → Bool
  any p [] = false
  any p (x ∷ xs) = p x || any p xs

  abbrev pub filter : (A → Bool) → List A → List A
  filter p [] = []
  filter p (x ∷ xs) = let rest = filter p xs in if p x then x ∷ rest else rest

  -- The first element that passes the test.
  abbrev pub find : (A → Bool) → List A → Option A
  find p [] = none
  find p (x ∷ xs) = if p x then some x else find p xs

module _ {ℓ κ} {A : Type ℓ} (P : A → Type κ) where
  abbrev pub All : List A → Type κ
  All [] = Unit
  All (x ∷ xs) = P x × All xs

-- `slices.Contains` on texts.
abbrev pub contains : List String → String → Bool
contains [] a = false
contains (x ∷ xs) a = x == a || contains xs a

pub contains→Memᴰ : (xs : List String) (a : String) → contains xs a ≡ true → Memᴰ a xs
contains→Memᴰ [] a h = cc
contains→Memᴰ (x ∷ xs) a h = elim (Bool-cases (x == a)) [
  | inl here ↦ Memᴰ.head (sym ((eq_iff x a).0 here))
  | inr other ↦ Memᴰ.tail (contains→Memᴰ xs a (ground arith))
]

pub Memᴰ→contains : (xs : List String) (a : String) → Memᴰ a xs → contains xs a ≡ true
Memᴰ→contains [] a m = elim m [ ]
Memᴰ→contains (x ∷ xs) a (Memᴰ.head p) = ground (arith, eq_iff x a)
Memᴰ→contains (x ∷ xs) a (Memᴰ.tail m) = ground (arith, Memᴰ→contains xs a m)

module _ {ℓ} {A : Type ℓ} where
  pub find-eq-some :
      (p : A → Bool) (xs : List A) {a : A} → find p xs ≡ some a → Memᴰ a xs × (p a ≡ true)
  find-eq-some p [] h = cc
  find-eq-some p (x ∷ xs) {a} h = elim (Bool-cases (p x)) [
    | inl yes_x ↦
        let e : x ≡ a = ground arith in (Memᴰ.head (sym e), subst (λ y. p y ≡ true) e yes_x)
    | inr no_x ↦ let (m, t) = find-eq-some p xs (ground arith) in (Memᴰ.tail m, t)
  ]

  pub find-eq-none :
      (p : A → Bool) (xs : List A) {a : A} → find p xs ≡ none → Memᴰ a xs → p a ≡ false
  find-eq-none p [] h m = elim m [ ]
  find-eq-none p (x ∷ xs) {a} h (Memᴰ.head e) = subst (λ y. p y ≡ false) (sym e) (ground arith)
  find-eq-none p (x ∷ xs) h (Memᴰ.tail m) = find-eq-none p xs (ground arith) m

pub contains-append :
    (xs ys : List String) (a : String) → contains (xs ++ ys) a ≡ (contains xs a || contains ys a)
contains-append [] ys a = refl
contains-append (x ∷ xs) ys a = ground (arith, contains-append xs ys a)

pub filter-append {ℓ} :
    {A : Type ℓ} (p : A → Bool) (xs ys : List A) → filter p (xs ++ ys) ≡ filter p xs ++ filter p ys
filter-append p [] ys = refl
filter-append p (x ∷ xs) ys = elim (Bool-cases (p x)) [
  | inl kept ↦ rw kept (ap (λ l. x ∷ l) (filter-append p xs ys))
  | inr dropped ↦ rw dropped (filter-append p xs ys)
]

-- Texts of which none occurs twice.
abbrev pub NoRepeat : List String → Type 0
NoRepeat [] = Unit
NoRepeat (x ∷ xs) = (contains xs x ≡ false) × NoRepeat xs

pub NoRepeat-snoc :
    (xs : List String) (x : String) → contains xs x ≡ false → NoRepeat xs → NoRepeat (xs ++ x ∷ [])
NoRepeat-snoc [] x h u = (refl, tt)
NoRepeat-snoc (y ∷ xs) x h u = (
  ground (arith, contains-append xs (x ∷ []) y, eq_iff x y, eq_iff y x),
  NoRepeat-snoc xs x (ground arith) u.1,
)

-- What is kept of a list passes the test, and has what every element of the list has.
pub All-filter {ℓ κ} :
    {A : Type ℓ} (P : A → Type κ) (p : A → Bool) (xs : List A)
    → All P xs
    → All (λ x. P x × (p x ≡ true)) (filter p xs)
All-filter P p [] h = tt
All-filter P p (x ∷ xs) h = elim (Bool-cases (p x)) [
  | inl kept ↦ rw kept ((h.0, kept), All-filter P p xs h.1)
  | inr dropped ↦ rw dropped (All-filter P p xs h.1)
]

pub All-map {ℓ κ μ} :
    {A : Type ℓ} {P : A → Type κ} {Q : A → Type μ} (f : (x : A) → P x → Q x) (xs : List A)
    → All P xs
    → All Q xs
All-map f [] h = tt
All-map f (x ∷ xs) h = (f x h.0, All-map f xs h.1)

-- Whatever holds of every text that a list contains holds all along it.
pub All-contains {κ} :
    (P : String → Type κ) (xs : List String)
    → ((a : String) → contains xs a ≡ true → P a)
    → All P xs
All-contains P [] h = tt
All-contains P (x ∷ xs) h =
    (h x (ground (arith, eq_iff x x)), All-contains P xs (λ a m. h a (ground arith)))

pub All-All {ℓ κ} : {A : Type ℓ} {P : A → Type κ} (xs : List A) → ((x : A) → P x) → All P xs
All-All [] f = tt
All-All (x ∷ xs) f = (f x, All-All xs f)

-- What holds of every pair from two lists may be read from either list first.
pub All-swap {ℓ κ μ} :
    {A : Type ℓ} {B : Type κ} (P : A → B → Type μ) (xs : List A) (ys : List B)
    → All (λ x. All (P x) ys) xs
    → All (λ y. All (λ x. P x y) xs) ys
All-swap P xs [] h = tt
All-swap P xs (y ∷ ys) h = (All-map (λ x k. k.0) xs h, All-swap P xs ys (All-map (λ x k. k.1) xs h))

pub All-append {ℓ κ} :
    {A : Type ℓ} (P : A → Type κ) (xs ys : List A) → All P xs → All P ys → All P (xs ++ ys)
All-append P [] ys hx hy = hy
All-append P (x ∷ xs) ys hx hy = (hx.0, All-append P xs ys hx.1 hy)

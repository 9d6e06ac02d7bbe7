-- ===== src/Proposer/Mentions/Laws.antt =====
-- internal/remediation/refused_values.go: which occurrences of a value count as a mention of it.
use Prim.Native.Char.{Char, code}
use Prim.Native.String
use text.Mathlib.TextEquality.{Char-path}
use text.Mathlib.TextLemmas.{nil-append, cons-append}
use dorgu_operator.Common.{
  String, true, false, ◌≡◌, refl, ap, arith, ◌↔◌, Option, none, some, Option-cases, Bool-cases, inl,
  inr, eqb,
}
use dorgu_operator.Proposer.Mentions.Bytes.{FreeBefore, FreeAfter, left_iff, right_iff}
use dorgu_operator.Proposer.Mentions.{
  after_prefix, alphanumeric_before, alphanumeric_after, stands_here, contains_token_from,
  contains_token, last_after,
}

-- The value stands somewhere in the text, and no character beside it ends, or begins, with a byte that
-- alone reads as a letter or a digit.
pub record IsToken (before : Option Char) (text value : String) : Type 0 where
  pub left : String
  pub right : String
  pub whole : text ≡ String.◌++◌ left (String.◌++◌ value right)
  pub free_left : FreeBefore (last_after before left)
  pub free_right : FreeAfter right

code_same : (c d : Char) → eqb (code c) (code d) ≡ true → c ≡ d
code_same c d same = Char-path c d (ground arith)

after_prefix-some :
    (s t : String) {rest : String} → after_prefix s t ≡ some rest → s ≡ String.◌++◌ t rest
unfolding after_prefix
after_prefix-some s String.[] {rest} eq = rw (nil-append rest) (ground (arith, eq))
after_prefix-some String.[] (String.◌∷◌ d t) eq = search
after_prefix-some (String.◌∷◌ c s) (String.◌∷◌ d t) {rest} eq =
    elim (Bool-cases (eqb (code c) (code d))) [
      | inl same ↦
          let tail = after_prefix-some s t {rest = rest} (ground arith) in
          rw (cons-append d t rest, ← tail, code_same c d same) refl
      | inr other ↦ ground arith
    ]

after_prefix-append : (t rest : String) → after_prefix (String.◌++◌ t rest) t ≡ some rest
unfolding after_prefix
after_prefix-append String.[] rest = rw (nil-append rest) refl
after_prefix-append (String.◌∷◌ d t) rest =
    rw (cons-append d t rest) (ground (arith, after_prefix-append t rest))

stands_here-IsToken :
    (before : Option Char) (text value : String)
    → stands_here before text value ≡ true
    → IsToken before text value
stands_here-IsToken before text value h = elim (Option-cases (after_prefix text value)) [
  | inl missing ↦ absurd (ground arith)
  | inr (rest, eq) ↦ record {
    left = "";
    right = rest;
    whole = rw (nil-append (String.◌++◌ value rest)) (after_prefix-some text value eq);
    free_left = (left_iff before).0 (ground arith);
    free_right = (right_iff rest).0 (ground arith);
  }
]

stands_here-beside :
    (before : Option Char) (value right : String)
    → alphanumeric_before before ≡ false
    → alphanumeric_after right ≡ false
    → stands_here before (String.◌++◌ value right) value ≡ true
stands_here-beside before value right l r = rw (after_prefix-append value right, l, r) refl

stands_here-contains :
    (before : Option Char) (text value : String)
    → stands_here before text value ≡ true
    → contains_token_from before text value ≡ true
unfolding contains_token_from
stands_here-contains before String.[] value h = h
stands_here-contains before (String.◌∷◌ c s) value h = rw h refl

contains_token_from-IsToken :
    (before : Option Char) (text value : String)
    → contains_token_from before text value ≡ true
    → IsToken before text value
unfolding contains_token_from
contains_token_from-IsToken before String.[] value h = stands_here-IsToken before String.[] value h
contains_token_from-IsToken before (String.◌∷◌ c s) value h =
    elim (Bool-cases (stands_here before (String.◌∷◌ c s) value)) [
      | inl here ↦ stands_here-IsToken before (String.◌∷◌ c s) value here
      | inr other ↦
          let t = contains_token_from-IsToken (some c) s value (ground arith) in
          record {
            left = String.◌∷◌ c t.left;
            right = t.right;
            whole =
                rw (cons-append c t.left (String.◌++◌ value t.right)) (ap (String.◌∷◌ c) t.whole);
            free_left = t.free_left;
            free_right = t.free_right;
          }
    ]

token-contains :
    (before : Option Char) (left value right : String)
    → alphanumeric_before (last_after before left) ≡ false
    → alphanumeric_after right ≡ false
    → contains_token_from before (String.◌++◌ left (String.◌++◌ value right)) value ≡ true
unfolding contains_token_from
token-contains before String.[] value right l r = rw (nil-append (String.◌++◌ value right)) (
    stands_here-contains before (String.◌++◌ value right) value
      (stands_here-beside before value right l r))
token-contains before (String.◌∷◌ c s) value right l r =
    rw (cons-append c s (String.◌++◌ value right))
      (ground (arith, token-contains (some c) s value right l r))

-- A value is a token of a text just when the text has it somewhere with, on either side, nothing or a
-- character that is no ASCII letter or digit and, beyond ASCII, does not end (on the left) in the
-- six bits 42, 53 or 58, or lies in U+05C0 to U+05FF (on the right).
pub contains_token_iff :
    (text value : String) → contains_token text value ≡ true ↔ IsToken none text value
unfolding contains_token
contains_token_iff text value = (
  contains_token_from-IsToken none text value,
  λ t. rw t.whole (
      token-contains none t.left value t.right ((left_iff (last_after none t.left)).1 t.free_left)
        ((right_iff t.right).1 t.free_right)),
)

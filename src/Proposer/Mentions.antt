-- ===== src/Proposer/Mentions.antt =====
-- internal/remediation/refused_values.go: when a text names a value that a guardrail refused.
-- resource.ParseQuantity, as the amount of what it parses, and the classes of unicode are
-- parameters.
pub mod Laws
pub mod Bytes
use Prim.Native.Char.{Char, code}
use Prim.Native.Nat.{◌/◌, ◌%◌}
use dorgu_operator.Common.{
  ℕ, ◌+◌, String, Bool, true, false, ◌&&◌, ◌||◌, not, Option, none, some, List, [], ◌∷◌, leb, ltb,
  eqb, ◌==◌, if◌then◌else◌,
}
use dorgu_operator.Common.Int.{ℤ, pos, negsuc}
use dorgu_operator.Common.Text.{close}

pub record Reader : Type 0 where
  pub parse_quantity : String → Option ℤ
  pub is_letter : Char → Bool
  pub is_digit : Char → Bool

abbrev pub amount_eq : ℤ → ℤ → Bool
amount_eq (pos m) (pos n) = eqb m n
amount_eq (negsuc m) (negsuc n) = eqb m n
amount_eq _ _ = false

pub record RefusedValue : Type 0 where
  pub field : String
  pub value : String
  pub quantity : Option ℤ

-- The bytes that UTF-8 begins and ends a character with.
abbrev pub first_byte : Char → ℕ
first_byte c =
    let n = code c in
    if ltb n 0x80
    then n
    else if ltb n 0x800
    then 0xc0 + n / 0x40
    else if ltb n 0x10000
    then 0xe0 + n / 0x1000
    else 0xf0 + n / 0x40000

abbrev pub last_byte : Char → ℕ
last_byte c = let n = code c in if ltb n 0x80 then n else 0x80 + n % 0x40

abbrev pub within : ℕ → ℕ → ℕ → Bool
within low high n = leb low n && leb n high

-- unicode.IsLetter or unicode.IsDigit of a byte, taken for a rune.
abbrev pub alphanumeric : ℕ → Bool
alphanumeric b =
    within 0x30 0x39 b
    || within 0x41 0x5a b
    || within 0x61 0x7a b
    || eqb b 0xaa
    || eqb b 0xb5
    || eqb b 0xba
    || within 0xc0 0xd6 b
    || within 0xd8 0xf6 b
    || within 0xf8 0xff b

-- What follows a prefix, where the text has it.
unfoldable pub after_prefix : String → String → Option String
after_prefix s String.[] = some s
after_prefix String.[] (String.◌∷◌ d t) = none
after_prefix (String.◌∷◌ c s) (String.◌∷◌ d t) =
    let rest = after_prefix s t in if eqb (code c) (code d) then rest else none

-- The last character of a text, after another one.
abbrev pub last_after : Option Char → String → Option Char
last_after before String.[] = before
last_after before (String.◌∷◌ c s) = last_after (some c) s

-- alphanumericAt, just before and just after a value.
abbrev pub alphanumeric_before : Option Char → Bool
alphanumeric_before none = false
alphanumeric_before (some c) = alphanumeric (last_byte c)

abbrev pub alphanumeric_after : String → Bool
alphanumeric_after String.[] = false
alphanumeric_after (String.◌∷◌ c s) = alphanumeric (first_byte c)

-- Nothing alphanumeric stands beside a value, given what follows it where it stands here.
abbrev pub free_beside : Option Char → Option String → Bool
free_beside before none = false
free_beside before (some rest) = not (alphanumeric_before before) && not (alphanumeric_after rest)

abbrev pub stands_here : Option Char → String → String → Bool
stands_here before text value = free_beside before (after_prefix text value)

-- The loop of containsToken, from a place with a character before it. Every place is looked at, where
-- the source goes from one occurrence to the next.
unfoldable pub contains_token_from : Option Char → String → String → Bool
unfolding after_prefix
contains_token_from before String.[] value = stands_here before String.[] value
contains_token_from before (String.◌∷◌ c s) value =
    stands_here before (String.◌∷◌ c s) value || contains_token_from (some c) s value

-- containsToken
unfoldable pub contains_token : String → String → Bool
unfolding contains_token_from
contains_token text value = contains_token_from none text value

-- strings.FieldsFunc: `tokens_from` returns the token that is under way and those after it.
unfoldable pub tokens_from : (Char → Bool) → String → String × List String
tokens_from splits String.[] = ("", [])
tokens_from splits (String.◌∷◌ c s) =
    let (w, ws) = tokens_from splits s in
    if splits c then ("", close w ws) else (String.◌∷◌ c w, ws)

unfoldable pub has_digit : Reader → String → Bool
has_digit r String.[] = false
has_digit r (String.◌∷◌ c s) = r.is_digit c || has_digit r s

abbrev pub splits_quantity : Reader → Char → Bool
splits_quantity r c = not (r.is_letter c) && not (r.is_digit c) && not (eqb (code c) 46)

-- The loop of quantityTokens.
unfoldable pub quantities : Reader → List String → List ℤ
unfolding has_digit
quantities r [] = []
quantities r (f ∷ fs) =
    let rest = quantities r fs in
    if not (has_digit r f)
    then rest
    else elim (r.parse_quantity f) [ none ↦ rest | some q ↦ q ∷ rest ]

unfoldable pub quantity_tokens : Reader → String → List ℤ
unfolding tokens_from quantities
quantity_tokens r text =
    let (w, ws) = tokens_from (splits_quantity r) text in quantities r (close w ws)

unfoldable pub has_amount : List ℤ → ℤ → Bool
has_amount [] a = false
has_amount (q ∷ qs) a = amount_eq q a || has_amount qs a

abbrev pub names_amount : Reader → String → Option ℤ → Bool
names_amount r text none = false
names_amount r text (some a) = has_amount (quantity_tokens r text) a

-- mentionsRefusedValue
unfoldable pub mentions_refused_value : Reader → String → RefusedValue → Bool
unfolding contains_token quantity_tokens has_amount
mentions_refused_value r text v =
    if v.value == "" || text == ""
    then false
    else contains_token text v.value || names_amount r text v.quantity

-- offersRefusedValue and sentenceMentionsRefused
unfoldable pub offers_refused_value : Reader → String → List RefusedValue → Bool
unfolding mentions_refused_value
offers_refused_value r text [] = false
offers_refused_value r text (v ∷ vs) =
    mentions_refused_value r text v || offers_refused_value r text vs

-- sameResourceValue
unfoldable pub same_resource_value : Reader → String → RefusedValue → Bool
same_resource_value r actual v = if actual == v.value then true else elim v.quantity [
  | none ↦ false
  | some a ↦ elim (r.parse_quantity actual) [ none ↦ false | some q ↦ amount_eq q a ]
]

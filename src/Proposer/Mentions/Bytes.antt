-- ===== src/Proposer/Mentions/Bytes.antt =====
-- internal/remediation/refused_values.go, alphanumericAt: of which characters the first and the last
-- byte of UTF-8 reads as a letter or a digit, when it is taken for a code point.
use Prim.Native.Char.{Char, char, code}
use Prim.Native.Nat.{◌%◌}
use dorgu_operator.Common.{
  ℕ, ◌≤◌, ◌<◌, String, false, ◌≡◌, refl, arith, ◌↔◌, ◌⊎◌, Option, none, some,
}
use dorgu_operator.Proposer.Mentions.{
  first_byte, last_byte, alphanumeric, alphanumeric_before, alphanumeric_after,
}

-- An ASCII letter or digit.
abbrev pub IsAsciiAlphanumeric : ℕ → Type 0
IsAsciiAlphanumeric n = ((48 ≤ n) × (n ≤ 57)) ⊎ ((65 ≤ n) × (n ≤ 90)) ⊎ ((97 ≤ n) × (n ≤ 122))

-- An ASCII letter or digit, or any character beyond ASCII but U+05C0 to U+05FF.
abbrev pub Begins : ℕ → Type 0
Begins n = IsAsciiAlphanumeric n ⊎ ((128 ≤ n) × ((n < 1472) ⊎ (1536 ≤ n)))

-- An ASCII letter or digit, or a character beyond ASCII whose last six bits are 42, 53 or 58.
abbrev pub Ends : ℕ → Type 0
Ends n = IsAsciiAlphanumeric n ⊎ ((128 ≤ n) × ((n % 64 ≡ 42) ⊎ (n % 64 ≡ 53) ⊎ (n % 64 ≡ 58)))

code_bound : (c : Char) → code c < 1114112
code_bound (char n p) = ground (arith, p)

last_byte_iff : (c : Char) → (alphanumeric (last_byte c) ≡ false) ↔ ¬ Ends (code c)
last_byte_iff c = ground arith

first_byte_iff : (c : Char) → (alphanumeric (first_byte c) ≡ false) ↔ ¬ Begins (code c)
first_byte_iff c = let bound = code_bound c in ground arith

-- Nothing stands there, or a character that does not end, or begin, with such a byte.
abbrev pub FreeBefore : Option Char → Type 0
FreeBefore none = Unit
FreeBefore (some c) = ¬ Ends (code c)

abbrev pub FreeAfter : String → Type 0
FreeAfter String.[] = Unit
FreeAfter (String.◌∷◌ c s) = ¬ Begins (code c)

pub left_iff : (o : Option Char) → (alphanumeric_before o ≡ false) ↔ FreeBefore o
left_iff none = (λ _. tt, λ _. refl)
left_iff (some c) = last_byte_iff c

pub right_iff : (s : String) → (alphanumeric_after s ≡ false) ↔ FreeAfter s
right_iff String.[] = (λ _. tt, λ _. refl)
right_iff (String.◌∷◌ c s) = first_byte_iff c

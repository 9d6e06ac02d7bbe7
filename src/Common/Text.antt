-- ===== src/Common/Text.antt =====
-- What the program uses of Go's `strings` package. A Go string is a native text; both are UTF-8.
use Prim.Native.Char.{Char, code}
use Prim.Native.String.{String}
use dorgu_operator.Common.{
  ℕ, Bool, true, false, ◌&&◌, ◌||◌, Option, none, some, List, [], ◌∷◌, leb, eqb, if◌then◌else◌,
  ◌==◌,
}

-- unicode.IsSpace
abbrev pub is_space : Char → Bool
is_space c =
    (leb 9 (code c) && leb (code c) 13)
    || eqb (code c) 32
    || eqb (code c) 0x85
    || eqb (code c) 0xa0
    || eqb (code c) 0x1680
    || (leb 0x2000 (code c) && leb (code c) 0x200a)
    || eqb (code c) 0x2028
    || eqb (code c) 0x2029
    || eqb (code c) 0x202f
    || eqb (code c) 0x205f
    || eqb (code c) 0x3000

unfoldable pub trim_left : String → String
trim_left String.[] = ""
trim_left (String.◌∷◌ c s) = let rest = trim_left s in if is_space c then rest else String.◌∷◌ c s

-- A space is kept only where something that is no space follows.
unfoldable pub trim_right : String → String
trim_right String.[] = ""
trim_right (String.◌∷◌ c s) =
    let rest = trim_right s in if is_space c && rest == "" then "" else String.◌∷◌ c rest

-- strings.TrimSpace
unfoldable pub trim_space : String → String
unfolding trim_left trim_right
trim_space s = trim_right (trim_left s)

abbrev pub close : String → List String → List String
close w ws = if w == "" then ws else w ∷ ws

-- strings.Fields: `fields_from` returns the word that is under way and the words after it.
unfoldable pub fields_from : String → String × List String
fields_from String.[] = ("", [])
fields_from (String.◌∷◌ c s) =
    let (w, ws) = fields_from s in if is_space c then ("", close w ws) else (String.◌∷◌ c w, ws)

unfoldable pub fields : String → List String
unfolding fields_from
fields s = let (w, ws) = fields_from s in close w ws

-- strings.HasPrefix
unfoldable pub has_prefix : String → String → Bool
has_prefix s String.[] = true
has_prefix String.[] (String.◌∷◌ d t) = false
has_prefix (String.◌∷◌ c s) (String.◌∷◌ d t) = eqb (code c) (code d) && has_prefix s t

-- strings.Cut at a separator of one character: what stands before it and after it, if it is there.
unfoldable pub cut : String → ℕ → Option (String × String)
cut String.[] sep = none
cut (String.◌∷◌ c s) sep =
    let rest : Option (String × String) = elim (cut s sep) [
      | none ↦ none
      | some (before, after) ↦ some (String.◌∷◌ c before, after)
    ] in
    if eqb (code c) sep then some ("", s) else rest

abbrev pub char_in : Char → String → Bool
char_in c String.[] = false
char_in c (String.◌∷◌ d t) = eqb (code c) (code d) || char_in c t

-- strings.ContainsAny
unfoldable pub contains_any : String → String → Bool
contains_any String.[] chars = false
contains_any (String.◌∷◌ c s) chars = char_in c chars || contains_any s chars

-- ===== src/Proposer/Refused/Prose.antt =====
-- internal/remediation/refused_values.go: the sentences of a text that name a refused value are
-- taken out, all but the messages of the guardrails; with appendNote and endSentence of
-- blast_radius_notice.go.
use Prim.Native.Char.{Char, code}
use Prim.Native.Nat.{zero, suc, ◌%◌}
use Prim.Native.String
use dorgu_operator.Common.{
  ℕ, ◌+◌, String, Bool, true, false, ◌&&◌, ◌||◌, not, Option, none, some, is_some, List, [], ◌∷◌,
  eqb, ◌==◌, if◌then◌else◌,
}
use dorgu_operator.Common.Text.{is_space, trim_space}
use dorgu_operator.Proposer.Mentions.{
  Reader, RefusedValue, after_prefix, last_after, offers_refused_value,
}

-- strings.Contains
unfoldable pub contains_text : String → String → Bool
unfolding after_prefix
contains_text String.[] value = is_some (after_prefix String.[] value)
contains_text (String.◌∷◌ c s) value =
    is_some (after_prefix (String.◌∷◌ c s) value) || contains_text s value

-- strings.TrimRight of the spaces
unfoldable pub trim_spaces : String → String
trim_spaces String.[] = ""
trim_spaces (String.◌∷◌ c s) =
    let rest = trim_spaces s in if eqb (code c) 32 && rest == "" then "" else String.◌∷◌ c rest

-- endSentence
unfoldable pub end_sentence : Reader → String → String
unfolding trim_spaces
end_sentence r text =
    let trimmed = trim_spaces text in
    elim (last_after none trimmed) [
      | none ↦ trimmed
      | some c ↦ if r.is_letter c || r.is_digit c then String.◌++◌ trimmed "." else trimmed
    ]

-- appendNote
unfoldable pub append_note : Reader → String → String → String
unfolding contains_text end_sentence
append_note r existing note =
    if existing == ""
    then note
    else if contains_text existing note
    then existing
    else String.◌++◌ (end_sentence r existing) (String.◌++◌ " " note)

-- The number of characters after the first.
unfoldable pub more_characters : String → ℕ
more_characters String.[] = 0
more_characters (String.◌∷◌ c String.[]) = 0
more_characters (String.◌∷◌ c (String.◌∷◌ d s)) = 1 + more_characters (String.◌∷◌ d s)

-- The first of these that stands here, as what replaces it and what more of the text it covers.
unfoldable pub replacement_at : List (String × String) → String → Option (String × ℕ)
unfolding after_prefix more_characters
replacement_at [] text = none
replacement_at ((old, new) ∷ rs) text =
    let other = replacement_at rs text in
    if is_some (after_prefix text old) then some (new, more_characters old) else other

-- strings.ReplaceAll and strings.Replacer, for texts that are not empty, after the characters that
-- the last replacement covers.
unfoldable pub replace_from : List (String × String) → ℕ → String → String
unfolding replacement_at
replace_from rs skip String.[] = ""
replace_from rs (suc skip) (String.◌∷◌ c s) = replace_from rs skip s
replace_from rs zero (String.◌∷◌ c s) = elim (replacement_at rs (String.◌∷◌ c s)) [
  | none ↦ String.◌∷◌ c (replace_from rs zero s)
  | some (new, covered) ↦ String.◌++◌ new (replace_from rs covered s)
]

unfoldable pub letter_at : ℕ → String → String
letter_at n String.[] = ""
letter_at zero (String.◌∷◌ c s) = String.◌∷◌ c ""
letter_at (suc n) (String.◌∷◌ c s) = letter_at n s

unfoldable pub mask_token : ℕ → String
unfolding letter_at
mask_token i =
    String.◌++◌ "\0protected-" (String.◌++◌ (letter_at (i % 26) "abcdefghijklmnopqrstuvwxyz") "\0")

-- maskProtected, from the i-th message: the masked text and what puts the messages back.
unfoldable pub mask_protected : ℕ → String → List String → String × List (String × String)
unfolding contains_text replace_from mask_token
mask_protected i masked [] = (masked, [])
mask_protected i masked (span ∷ spans) =
    if span == "" || not (contains_text masked span)
    then mask_protected (1 + i) masked spans
    else let token = mask_token i in
      let (text, rs) = mask_protected (1 + i) (replace_from ((span, token) ∷ []) 0 masked) spans in
      (text, (token, span) ∷ rs)

abbrev pub terminal : Char → Bool
terminal c = eqb (code c) 46 || eqb (code c) 33 || eqb (code c) 63

abbrev pub space_next : String → Bool
space_next String.[] = true
space_next (String.◌∷◌ c s) = is_space c

abbrev pub emit_sentence : String → List String → List String
emit_sentence w ws = let sentence = trim_space w in if sentence == "" then ws else sentence ∷ ws

-- splitSentences: `sentences_from` returns the sentence that is under way and those after it.
unfoldable pub sentences_from : String → String × List String
unfolding trim_space
sentences_from String.[] = ("", [])
sentences_from (String.◌∷◌ c s) =
    let (w, ws) = sentences_from s in
    if terminal c && space_next s
    then (String.◌∷◌ c "", emit_sentence w ws)
    else (String.◌∷◌ c w, ws)

unfoldable pub split_sentences : String → List String
unfolding sentences_from trim_space
split_sentences text = let (w, ws) = sentences_from text in emit_sentence w ws

-- The sentences that name no refused value.
unfoldable pub kept_sentences : Reader → List RefusedValue → List String → List String
unfolding offers_refused_value
kept_sentences r refused [] = []
kept_sentences r refused (s ∷ ss) =
    let rest = kept_sentences r refused ss in
    if offers_refused_value r s refused then rest else s ∷ rest

unfoldable pub any_refused : Reader → List RefusedValue → List String → Bool
unfolding offers_refused_value
any_refused r refused [] = false
any_refused r refused (s ∷ ss) = offers_refused_value r s refused || any_refused r refused ss

-- strings.Join with a space
unfoldable pub join_spaced : List String → String
join_spaced [] = ""
join_spaced (s ∷ []) = s
join_spaced (s ∷ t ∷ ts) = String.◌++◌ s (String.◌++◌ " " (join_spaced (t ∷ ts)))

-- redactRefusedProse: none where nothing changes.
unfoldable pub redact_refused_prose :
    Reader → String → List String → List RefusedValue → Option String
unfolding mask_protected split_sentences kept_sentences any_refused join_spaced replace_from
    trim_space
redact_refused_prose r text protected refused =
    if trim_space text == ""
    then none
    else let (masked, rs) = mask_protected 0 text protected in
      let sentences = split_sentences masked in
      if any_refused r refused sentences
      then some (trim_space (replace_from rs 0 (join_spaced (kept_sentences r refused sentences))))
      else none

-- ===== src/Events/Names.antt =====
-- internal/events/store.go: the keys and the names of event records. The hash of a text, as the
-- twelve hexadecimal digits of the first six bytes of its SHA-256, and the format of a time are
-- parameters.
pub mod Laws
use Prim.Native.Char.{Char, code, len_utf8}
use Prim.Native.String.{len, ◌++◌, slice}
use dorgu_operator.Common.{ℕ, zero, suc, String, Bool, ◌&&◌, ◌||◌, if◌then◌else◌, leb, ltb, eqb}
use dorgu_operator.Events.{InternalEvent}
use dorgu_operator.Detection.Grouping.{◌/◌}

-- dedupKey
unfoldable pub dedup_key : InternalEvent → String
dedup_key e =
    e.source / e.involved_object.namespace / e.involved_object.name / e.category / e.reason

abbrev between : ℕ → ℕ → Char → Bool
between low high c = leb low (code c) && leb (code c) high

-- A lower-case letter, a digit or a dash.
abbrev kept : Char → Bool
kept c = between 97 122 c || between 48 57 c || eqb (code c) 45

-- c + 32 for an upper-case letter: the letter that stands in the second text where c stands in the
-- first.
abbrev lowered : String → String → Char → Char
lowered (String.◌∷◌ u us) (String.◌∷◌ l ls) c = if eqb (code u) (code c) then l else lowered us ls c
lowered _ _ c = c

-- As many dashes as a character has bytes.
abbrev dashes : ℕ → String → String
dashes zero s = s
dashes (suc n) s = "-" ++ dashes n s

-- sanitizeK8sName, which goes over the bytes of the text.
unfoldable pub sanitize_k8s_name : String → String
sanitize_k8s_name String.[] = ""
sanitize_k8s_name (String.◌∷◌ c s) =
    let rest = sanitize_k8s_name s in
    if kept c
    then String.◌∷◌ c rest
    else if between 65 90 c
    then String.◌∷◌ (lowered "ABCDEFGHIJKLMNOPQRSTUVWXYZ" "abcdefghijklmnopqrstuvwxyz" c) rest
    else dashes (len_utf8 c) rest

abbrev pub max_k8s_name_length : ℕ
max_k8s_name_length = 253

-- What a name says of the object.
abbrev pub object_part : InternalEvent → String
object_part e =
    "de-"
    ++ e.involved_object.namespace
    ++ "-"
    ++ sanitize_k8s_name e.involved_object.kind
    ++ "-"
    ++ sanitize_k8s_name e.involved_object.name
    ++ "-"

-- generateCRDName. The cut stands where it may in a name of ASCII characters.
unfoldable pub generate_crd_name : (String → String) → (ℕ → String) → InternalEvent → String
unfolding sanitize_k8s_name
generate_crd_name hash format_time e =
    let name = object_part e ++ hash (e.category / e.reason / format_time e.event_time) in
    if ltb max_k8s_name_length (len name) then slice name 0 max_k8s_name_length else name

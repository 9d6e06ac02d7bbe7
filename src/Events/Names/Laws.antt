-- ===== src/Events/Names/Laws.antt =====
-- What the limit on the length of a name does to the names of event records.
use Prim.Native.String.slice
use Prim.Native.String.append
use Prim.Native.String.len
use Prim.Native.Char.{len_utf8}
use Prim.Native.Nat.{compare}
use Prim.Native.String.{◌++◌, len, slice, fits}
use text.Mathlib.TextPositions.{slice-zero-zero, len-append}
use dorgu_operator.Detection.Grouping.{◌/◌}
use dorgu_operator.Common.{
  if◌then◌else◌, ℕ, zero, ◌-◌, ◌+◌, ◌≤◌, ltb, lt→ltb, String, ◌≡◌, ◌∙◌, ap, sym, arith, true, subst,
}
use dorgu_operator.Events.{InternalEvent}
use dorgu_operator.Events.Names.{generate_crd_name, object_part, max_k8s_name_length}

-- What is cut within the first of two texts does not depend on the second.
slice-append_short : (p h : String) (n : ℕ) → n ≤ len p → slice (p ++ h) zero n ≡ slice p zero n
slice-append_short String.[] h n le =
    let none_left : n ≡ 0 = omega arith in
    ap (slice ("" ++ h) zero) none_left
    ∙ slice-zero-zero ("" ++ h)
    ∙ sym (slice-zero-zero "")
    ∙ ap (slice "" zero) (sym none_left)
slice-append_short (String.◌∷◌ c p) h n le =
    let bound : n ≤ len_utf8 c + len p = subst (λ (k : ℕ). n ≤ k) (len.cons c p) le in
    let rest = slice-append_short p h (n - len_utf8 c) (omega arith) in
    ap (λ u. slice u zero n) (append.cons c p h)
    ∙ slice.cons-zero c (p ++ h) n
    ∙ ap (fits (compare (len_utf8 c) n) c) rest
    ∙ sym (slice.cons-zero c p n)

cut_short :
    (p h : String)
    → len h ≡ 12
    → max_k8s_name_length ≤ len p
    → (if ltb max_k8s_name_length (len (p ++ h))
        then slice (p ++ h) zero max_k8s_name_length
        else p ++ h)
      ≡ slice p zero max_k8s_name_length
cut_short p h twelve long =
    let all = len-append p h in
    let over : ltb max_k8s_name_length (len (p ++ h)) ≡ true =
      lt→ltb max_k8s_name_length (len (p ++ h)) (omega arith) in
    rw over (slice-append_short p h max_k8s_name_length long)

-- A name is cut where the object's part and the twelve digits are longer than the limit.
name_cut :
    (hash : String → String) (format_time : ℕ → String) (e : InternalEvent)
    → ((s : String) → len (hash s) ≡ 12)
    → max_k8s_name_length ≤ len (object_part e)
    → generate_crd_name hash format_time e ≡ slice (object_part e) zero max_k8s_name_length
unfolding generate_crd_name
name_cut hash format_time e twelve long =
    cut_short (object_part e) (hash (e.category / e.reason / format_time e.event_time)) (twelve _)
      long

-- Where the part of the name that says which object an event is about fills the limit, the events
-- of that object all have one name: the hash that tells them apart is cut off. The hash has twelve
-- digits.
pub generate_crd_name_collides :
    (hash : String → String) (format_time : ℕ → String) (e f : InternalEvent)
    → ((s : String) → len (hash s) ≡ 12)
    → object_part e ≡ object_part f
    → max_k8s_name_length ≤ len (object_part e)
    → generate_crd_name hash format_time e ≡ generate_crd_name hash format_time f
generate_crd_name_collides hash format_time e f twelve same long =
    name_cut hash format_time e twelve long
    ∙ ap (λ s. slice s zero max_k8s_name_length) same
    ∙ sym (
        name_cut hash format_time f twelve
          (subst (λ (s : String). max_k8s_name_length ≤ len s) same long))

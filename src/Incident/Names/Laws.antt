-- ===== src/Incident/Names/Laws.antt =====
-- The length of the names of incidents, and that their hashes are kept.
use Prim.Native.Char.{Char, len_utf8}
use Prim.Native.Nat.{compare, Ordering}
use Prim.Native.String.{len, ◌++◌, slice, fits}
use Prim.Native.String.slice
use Prim.Native.String.len
use text.Mathlib.TextPositions.{len-append, slice-append_right}
use dorgu_operator.Common.{ℕ, ◌+◌, ◌-◌, ◌*◌, ◌≤◌, String, ◌≡◌, ◌∙◌, ap, sym, arith, refl, true, leb}
use dorgu_operator.Detection.Grouping.{◌/◌}
use dorgu_operator.Incident.Names.{
  truncate, sanitize_name, max_segment_len, name_segments, generate_incident_name,
  max_incident_name_length,
}

len-fits :
    (o : Ordering) (c : Char) (s : String) (n : ℕ)
    → compare (len_utf8 c) n ≡ o
    → len s ≤ n - len_utf8 c
    → len (fits o c s) ≤ n
len-fits Ordering.gt c s n h le = rw len.nil (omega arith)
len-fits Ordering.lt c s n h le =
    let less : leb (len_utf8 c) n ≡ true = rw (h, leb) refl in
    let size = len.cons c s in ground arith
len-fits Ordering.eq c s n h le =
    let less : leb (len_utf8 c) n ≡ true = rw (h, leb) refl in
    let size = len.cons c s in ground arith

-- What is cut out at the start of a text is no longer than asked.
len-slice : (s : String) (n : ℕ) → len (slice s 0 n) ≤ n
len-slice String.[] n = rw (slice.nil 0 n, len.nil) (omega arith)
len-slice (String.◌∷◌ c s) n =
    let cut : len (slice s 0 (n - len_utf8 c)) ≤ n - len_utf8 c = len-slice s (n - len_utf8 c) in
    rw (slice.cons-zero c s n)
      (len-fits (compare (len_utf8 c) n) c (slice s 0 (n - len_utf8 c)) n refl cut)

len-truncate : (s : String) (n : ℕ) → len (truncate s n) ≤ n
unfolding truncate
len-truncate s n = ground (arith, len-slice s n)

-- The same twelve places stand at the end of equal texts.
last_twelve : (s t g h : String) → len g ≡ 12 → len h ≡ 12 → s ++ g ≡ t ++ h → g ≡ h
last_twelve s t g h lg lh same =
    let whole : len (s ++ g) ≡ len (t ++ h) = ap len same in
    let ls = len-append s g in
    let lt = len-append t h in
    let heads : len s ≡ len t = omega arith in
    sym (slice-append_right s g) ∙ (rw (same, heads, lg, sym lh) refl) ∙ slice-append_right t h

segments_len :
    (namespace persona signal : String)
    → len (name_segments namespace persona signal) ≤ 6 + 3 * max_segment_len
unfolding name_segments
segments_len namespace persona signal =
    let ns = truncate (sanitize_name namespace) max_segment_len in
    let p = truncate (sanitize_name persona) max_segment_len in
    let sig = truncate (sanitize_name signal) max_segment_len in
    let a = len-append "im-" (ns ++ "-" ++ p ++ "-" ++ sig ++ "-") in
    let b = len-append ns ("-" ++ p ++ "-" ++ sig ++ "-") in
    let c = len-append "-" (p ++ "-" ++ sig ++ "-") in
    let d = len-append p ("-" ++ sig ++ "-") in
    let e = len-append "-" (sig ++ "-") in
    let f = len-append sig "-" in
    let x = len-truncate (sanitize_name namespace) max_segment_len in
    let y = len-truncate (sanitize_name persona) max_segment_len in
    let z = len-truncate (sanitize_name signal) max_segment_len in omega arith

-- The name of an incident has at most 253 bytes, and two names are equal only if their hashes are:
-- the hash is never cut off. The hash has twelve digits.
pub generate_incident_name_bounds :
    (hash : String → String)
    → ((s : String) → len (hash s) ≡ 12)
    → (ns p sig ns2 p2 sig2 : String)
    → (len (generate_incident_name hash ns p sig) ≤ max_incident_name_length)
      × (generate_incident_name hash ns p sig ≡ generate_incident_name hash ns2 p2 sig2
          → hash (ns / p / sig) ≡ hash (ns2 / p2 / sig2))
unfolding generate_incident_name
generate_incident_name_bounds hash twelve ns p sig ns2 p2 sig2 = (
  let a = len-append (name_segments ns p sig) (hash (ns / p / sig)) in
      let b = segments_len ns p sig in let c = twelve (ns / p / sig) in omega arith,
  λ same.
      last_twelve (name_segments ns p sig) (name_segments ns2 p2 sig2) _ _ (twelve _) (twelve _)
        same,
)

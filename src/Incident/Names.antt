-- ===== src/Incident/Names.antt =====
-- internal/controller/healthcheck_reconciler.go: the names of incidents. The hash of a text, as the
-- twelve hexadecimal digits of the first six bytes of its SHA-256, is a parameter.
pub mod Laws
use Prim.Native.String.{len, ◌++◌, slice}
use dorgu_operator.Common.{ℕ, String, leb, if◌then◌else◌}
use dorgu_operator.Detection.Grouping.{◌/◌}
use dorgu_operator.Events.Names.{sanitize_k8s_name}

abbrev pub max_incident_name_length : ℕ
max_incident_name_length = 253

abbrev pub incident_name_overhead : ℕ
incident_name_overhead = 18

-- (MaxIncidentNameLength - incidentNameOverhead) / 3, which the source divides without a remainder
-- kept.
abbrev pub max_segment_len : ℕ
max_segment_len = 78

-- truncate, on the bytes of the text. What it is given here is ASCII.
unfoldable pub truncate : String → ℕ → String
truncate s max_len = if leb (len s) max_len then s else slice s 0 max_len

-- sanitizeName is the loop of sanitizeK8sName, written a second time.
unfoldable pub sanitize_name : String → String
unfolding sanitize_k8s_name
sanitize_name s = sanitize_k8s_name s

-- What a name has before its hash.
unfoldable pub name_segments : String → String → String → String
unfolding truncate sanitize_name
name_segments namespace persona signal =
    "im-"
    ++ truncate (sanitize_name namespace) max_segment_len
    ++ "-"
    ++ truncate (sanitize_name persona) max_segment_len
    ++ "-"
    ++ truncate (sanitize_name signal) max_segment_len
    ++ "-"

unfoldable pub generate_incident_name : (String → String) → String → String → String → String
unfolding name_segments
generate_incident_name hash namespace persona signal =
    name_segments namespace persona signal ++ hash (namespace / persona / signal)

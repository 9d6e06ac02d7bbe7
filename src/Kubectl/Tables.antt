-- ===== src/Kubectl/Tables.antt =====
-- internal/remediation/kubectl_verb.go: the tables of verbs, subcommands and global flags. A map to
-- `true` is the list of its keys.
use dorgu_operator.Common.{String, List, [], ◌∷◌}

abbrev pub mutating_kubectl_verbs : List String
mutating_kubectl_verbs =
    "annotate" ∷ "apply" ∷ "autoscale" ∷ "cordon" ∷ "create" ∷ "delete" ∷ "drain" ∷ "edit"
    ∷ "expose" ∷ "label" ∷ "patch" ∷ "replace" ∷ "run" ∷ "scale" ∷ "set" ∷ "taint" ∷ "uncordon" ∷ []

abbrev pub read_only_kubectl_verbs : List String
read_only_kubectl_verbs =
    "api-resources" ∷ "api-versions" ∷ "cluster-info" ∷ "describe" ∷ "diff" ∷ "events" ∷ "explain"
    ∷ "get" ∷ "logs" ∷ "top" ∷ "version" ∷ []

abbrev pub read_only_rollout_subcommands : List String
read_only_rollout_subcommands = "history" ∷ "status" ∷ []

abbrev pub read_only_auth_subcommands : List String
read_only_auth_subcommands = "can-i" ∷ "whoami" ∷ []

abbrev pub value_taking_global_flags : List String
value_taking_global_flags =
    "-n" ∷ "--namespace" ∷ "-o" ∷ "--output" ∷ "-s" ∷ "--server" ∷ "--context" ∷ "--cluster"
    ∷ "--user" ∷ "--kubeconfig" ∷ "--token" ∷ "--as" ∷ "--as-group" ∷ "--as-uid" ∷ "--cache-dir"
    ∷ "--certificate-authority" ∷ "--client-certificate" ∷ "--client-key" ∷ "--request-timeout"
    ∷ "--tls-server-name" ∷ "--username" ∷ "--password" ∷ "--profile" ∷ "--profile-output"
    ∷ "--log-flush-frequency" ∷ "-v" ∷ "--v" ∷ "--vmodule" ∷ []

abbrev pub boolean_global_flags : List String
boolean_global_flags =
    "--insecure-skip-tls-verify" ∷ "--match-server-version" ∷ "--warnings-as-errors"
    ∷ "--disable-compression" ∷ []

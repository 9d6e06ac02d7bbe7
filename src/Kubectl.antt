-- ===== src/Kubectl.antt =====
-- internal/remediation/kubectl_verb.go: whether a suggested command only reads the cluster.
pub mod Tables
pub mod Laws
use dorgu_operator.Common.{
  String, Bool, true, false, ◌&&◌, ◌||◌, not, Option, none, some, List, [], ◌∷◌, contains, ◌==◌,
  if◌then◌else◌,
}
use dorgu_operator.Common.Text.{fields, has_prefix, cut}
use Tables.{
  mutating_kubectl_verbs, read_only_kubectl_verbs, read_only_rollout_subcommands,
  read_only_auth_subcommands, value_taking_global_flags, boolean_global_flags,
}

abbrev known_flag : String → Bool
known_flag name = contains value_taking_global_flags name || contains boolean_global_flags name

-- What the loop does with a flag: pass it, pass it and its value, or give up.
pub data FlagKind : Type 0 where
  alone : FlagKind
  with_value : FlagKind
  unreadable : FlagKind

unfoldable pub flag_kind : String → FlagKind
flag_kind token = elim (cut token b'=') [
  | some (name, _) ↦ if known_flag name then alone else unreadable
  | none ↦
      if contains boolean_global_flags token
      then alone
      else if contains value_taking_global_flags token
      then with_value
      else unreadable
]

-- The loop of kubectlVerb over the tokens after `kubectl`: the verb and the tokens after it.
unfoldable pub find_verb : List String → Option (String × List String)
find_verb [] = none
find_verb (token ∷ []) = if not (has_prefix token "-") then some (token, []) else none
find_verb (token ∷ value ∷ rest) =
    let after = find_verb (value ∷ rest) in
    let after_value = find_verb rest in
    if not (has_prefix token "-")
    then some (token, value ∷ rest)
    else elim (flag_kind token) [ alone ↦ after | with_value ↦ after_value | unreadable ↦ none ]

-- kubectlVerb, from the fields of the command.
unfoldable pub verb_of_fields : List String → Option (String × List String)
verb_of_fields [] = none
verb_of_fields (_ ∷ []) = none
verb_of_fields (program ∷ token ∷ rest) =
    if not (program == "kubectl") then none else find_verb (token ∷ rest)

unfoldable pub kubectl_verb : String → Option (String × List String)
kubectl_verb command = verb_of_fields (fields command)

unfoldable pub subcommand_reads_only : List String → List String → Bool
subcommand_reads_only [] read_only = false
subcommand_reads_only (first ∷ rest) read_only =
    if has_prefix first "-" then false else contains read_only first

unfoldable pub verbs_with_subcommands : String → Option (List String)
verbs_with_subcommands verb =
    if verb == "auth"
    then some read_only_auth_subcommands
    else if verb == "rollout"
    then some read_only_rollout_subcommands
    else none

unfoldable pub verb_reads_only : String → List String → Bool
verb_reads_only verb arguments = elim (verbs_with_subcommands verb) [
  | some read_only ↦ subcommand_reads_only arguments read_only
  | none ↦
      if contains mutating_kubectl_verbs verb then false else contains read_only_kubectl_verbs verb
]

unfoldable pub reads_only : String → Bool
reads_only command = elim (kubectl_verb command) [
  | none ↦ false
  | some (verb, arguments) ↦ verb_reads_only verb arguments
]

abbrev pub names_kubectl : List String → Bool
names_kubectl (program ∷ _ ∷ _) = program == "kubectl"
names_kubectl _ = false

unfoldable pub is_kubectl_invocation : String → Bool
is_kubectl_invocation command = names_kubectl (fields command)

unfoldable pub writes_workload : String → Bool
writes_workload command = is_kubectl_invocation command && not (reads_only command)

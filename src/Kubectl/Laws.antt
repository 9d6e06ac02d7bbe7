-- ===== src/Kubectl/Laws.antt =====
-- The verb of a kubectl command as a grammar, and what a command that only reads must look like.
use dorgu_operator.Common.{
  String, ◌≡◌, ◌↔◌, ◌⊎◌, inl, inr, refl, sym, ◌∙◌, ap, subst, true, false, none, some, List, [],
  ◌∷◌, contains, Memᴰ, contains→Memᴰ, Memᴰ→contains, eq_iff, arith, ◌==◌, if◌then◌else◌, Bool-cases,
  Option-cases,
}
use dorgu_operator.Common.Text.{fields, has_prefix}
use dorgu_operator.Kubectl.{
  FlagKind, alone, with_value, unreadable, flag_kind, find_verb, verb_of_fields, kubectl_verb,
  subcommand_reads_only, verb_reads_only, verbs_with_subcommands, reads_only, is_kubectl_invocation,
  writes_workload, names_kubectl,
}
use dorgu_operator.Kubectl.Tables.{
  mutating_kubectl_verbs, read_only_kubectl_verbs, read_only_rollout_subcommands,
  read_only_auth_subcommands,
}

-- The tokens name a verb, with the tokens after it: global flags stand before it, and the value of
-- a flag that takes one is no verb.
pub data Names : List String → String → List String → Type 0 where
  verb : {t : String} {rest : List String} → has_prefix t "-" ≡ false → Names (t ∷ rest) t rest
  flag :
      {t v : String} {rest args : List String}
      → has_prefix t "-" ≡ true
      → flag_kind t ≡ alone
      → Names rest v args
      → Names (t ∷ rest) v args
  valued_flag :
      {t value v : String} {rest args : List String}
      → has_prefix t "-" ≡ true
      → flag_kind t ≡ with_value
      → Names rest v args
      → Names (t ∷ value ∷ rest) v args

find_verb_complete :
    {ts : List String} {v : String} {args : List String}
    → Names ts v args
    → find_verb ts ≡ some (v, args)
unfolding find_verb
find_verb_complete (verb {t = t} {rest = []} p) = ground arith
find_verb_complete (verb {t = t} {rest = u ∷ rest} p) = ground arith
find_verb_complete (flag {rest = []} p k n) = ground (arith, find_verb_complete n)
find_verb_complete (flag {rest = u ∷ rest} p k n) = ground (arith, find_verb_complete n)
find_verb_complete (valued_flag p k n) = ground (arith, find_verb_complete n)

FlagKind-cases : (k : FlagKind) → (k ≡ alone) ⊎ (k ≡ with_value) ⊎ (k ≡ unreadable)
FlagKind-cases k = ground arith

verb_here :
    (t : String) (rest : List String) (v : String) (args : List String)
    → has_prefix t "-" ≡ false
    → t ≡ v
    → rest ≡ args
    → Names (t ∷ rest) v args
verb_here t rest v args plain e e' =
    subst (λ w. Names (t ∷ rest) w args) e (subst (λ l. Names (t ∷ rest) t l) e' (verb plain))

find_verb_sound :
    (ts : List String) (v : String) (args : List String)
    → find_verb ts ≡ some (v, args)
    → Names ts v args
unfolding find_verb
find_verb_sound [] v args h = cc
find_verb_sound (t ∷ []) v args h = elim (Bool-cases (has_prefix t "-")) [
  | inl dash ↦ ground arith
  | inr plain ↦ verb_here t [] v args plain (ground arith) (ground arith)
]
find_verb_sound (t ∷ u ∷ rest) v args h = elim (Bool-cases (has_prefix t "-")) [
  | inl dash ↦ elim (FlagKind-cases (flag_kind t)) [
    | inl k ↦ flag dash k (find_verb_sound (u ∷ rest) v args (ground arith))
    | inr (inl k) ↦ valued_flag dash k (find_verb_sound rest v args (ground arith))
    | inr (inr k) ↦ ground arith
  ]
  | inr plain ↦ verb_here t (u ∷ rest) v args plain (ground arith) (ground arith)
]

-- The loop finds a verb exactly where the grammar has one, with the same arguments.
pub find_verb_iff :
    (ts : List String) (v : String) (args : List String)
    → (find_verb ts ≡ some (v, args)) ↔ Names ts v args
find_verb_iff ts v args = (find_verb_sound ts v args, find_verb_complete)

-- The verb only reads: it is listed as such and not as one that writes, or it splits on a
-- subcommand, which is the next token and is listed.
abbrev pub Reads : String → List String → Type 0
Reads v args =
    (Memᴰ v read_only_kubectl_verbs × (contains mutating_kubectl_verbs v ≡ false))
    ⊎ ((sub : String) × (rest : List String) × (args ≡ sub ∷ rest)
        × (((v ≡ "auth") × Memᴰ sub read_only_auth_subcommands)
            ⊎ ((v ≡ "rollout") × Memᴰ sub read_only_rollout_subcommands)))

subcommand_listed :
    (args read_only : List String)
    → subcommand_reads_only args read_only ≡ true
    → (sub : String) × (rest : List String) × (args ≡ sub ∷ rest) × Memᴰ sub read_only
unfolding subcommand_reads_only
subcommand_listed [] read_only h = cc
subcommand_listed (sub ∷ rest) read_only h =
    (sub, rest, refl, contains→Memᴰ read_only sub (ground arith))

table_split :
    (writing reading : List String) (v : String)
    → (if contains writing v then false else contains reading v) ≡ true
    → Memᴰ v reading × (contains writing v ≡ false)
table_split writing reading v h =
    let listed : contains reading v ≡ true = ground arith in
    (contains→Memᴰ reading v listed, ground arith)

verbs_with_subcommands-none :
    (v : String)
    → (v == "auth") ≡ false
    → (v == "rollout") ≡ false
    → verbs_with_subcommands v ≡ none
unfolding verbs_with_subcommands
verbs_with_subcommands-none v auth rollout = ground arith

verb_reads_only_plain :
    (v : String) (args : List String)
    → (v == "auth") ≡ false
    → (v == "rollout") ≡ false
    → verb_reads_only v args
      ≡ (if contains mutating_kubectl_verbs v then false else contains read_only_kubectl_verbs v)
unfolding verb_reads_only
verb_reads_only_plain v args auth rollout =
    rw (verbs_with_subcommands-none v auth rollout, verb_reads_only) refl

verb_reads_only-Reads :
    (v : String) (args : List String) → verb_reads_only v args ≡ true → Reads v args
unfolding verb_reads_only verbs_with_subcommands
verb_reads_only-Reads v args h = elim (Bool-cases (v == "auth")) [
  | inl auth ↦
      let (sub, rest, e, m) = subcommand_listed args read_only_auth_subcommands (ground arith) in
      inr (sub, rest, e, inl ((eq_iff v "auth").0 auth, m))
  | inr other ↦ elim (Bool-cases (v == "rollout")) [
    | inl rollout ↦
        let (sub, rest, e, m) =
          subcommand_listed args read_only_rollout_subcommands (ground arith) in
        inr (sub, rest, e, inr ((eq_iff v "rollout").0 rollout, m))
    | inr plain ↦ inl (
        table_split mutating_kubectl_verbs read_only_kubectl_verbs v
          (sym (verb_reads_only_plain v args other plain) ∙ h))
  ]
]

verb_of_fields-Names :
    (fs : List String) (v : String) (args : List String)
    → verb_of_fields fs ≡ some (v, args)
    → (ts : List String) × (fs ≡ "kubectl" ∷ ts) × Names ts v args
unfolding verb_of_fields
verb_of_fields-Names [] v args h = cc
verb_of_fields-Names (p ∷ []) v args h = cc
verb_of_fields-Names (p ∷ t ∷ rest) v args h = elim (Bool-cases (p == "kubectl")) [
  | inl kubectl ↦ (
    t ∷ rest,
    ap (λ q. q ∷ t ∷ rest) ((eq_iff p "kubectl").0 kubectl),
    find_verb_sound (t ∷ rest) v args (ground arith),
  )
  | inr other ↦ ground arith
]

-- A command that is taken to only read is a kubectl command whose verb, by the grammar, only reads.
pub reads_only-Reads :
    (command : String)
    → reads_only command ≡ true
    → (ts : List String) × (v : String) × (args : List String) × (fields command ≡ "kubectl" ∷ ts)
      × Names ts v args
      × Reads v args
unfolding reads_only kubectl_verb
reads_only-Reads command h = elim (Option-cases (verb_of_fields (fields command))) [
  | inl missing ↦ ground arith
  | inr ((v, args), named) ↦
      let (ts, split, names) = verb_of_fields-Names (fields command) v args named in
      (ts, v, args, split, names, verb_reads_only-Reads v args (ground arith))
]

verb_of_fields_kubectl :
    (ts : List String) (v : String) (args : List String)
    → Names ts v args
    → (verb_of_fields ("kubectl" ∷ ts) ≡ some (v, args)) × (names_kubectl ("kubectl" ∷ ts) ≡ true)
unfolding verb_of_fields
verb_of_fields_kubectl [] v args n = elim n [ ]
verb_of_fields_kubectl (t ∷ rest) v args n = (find_verb_complete n, refl)

mutating-not-reading :
    (v : String) (args : List String)
    → contains mutating_kubectl_verbs v ≡ true
    → verb_reads_only v args ≡ false
mutating-not-reading v args m =
    verb_reads_only_plain v args (other "auth" refl) (other "rollout" refl) ∙ rw m refl
  where
    other : (w : String) → contains mutating_kubectl_verbs w ≡ false → (v == w) ≡ false
    other w h = elim (Bool-cases (v == w)) [
      | inl same ↦ cc (sym m ∙ ap (contains mutating_kubectl_verbs) ((eq_iff v w).0 same) ∙ h)
      | inr differ ↦ differ
    ]

reads_only_mutating :
    (command : String) (ts : List String) (v : String) (args : List String)
    → fields command ≡ "kubectl" ∷ ts
    → Names ts v args
    → Memᴰ v mutating_kubectl_verbs
    → reads_only command ≡ false
unfolding reads_only kubectl_verb
reads_only_mutating command ts v args f n m =
    let parsed : verb_of_fields (fields command) ≡ some (v, args) =
      ap verb_of_fields f ∙ (verb_of_fields_kubectl ts v args n).0 in
    rw (parsed, reads_only, kubectl_verb)
      (mutating-not-reading v args (Memᴰ→contains mutating_kubectl_verbs v m))

-- A kubectl command whose verb, by the grammar, is one that writes is never taken to only read,
-- whatever the flags before the verb and their values are.
pub writes_workload_mutating :
    (command : String) (ts : List String) (v : String) (args : List String)
    → fields command ≡ "kubectl" ∷ ts
    → Names ts v args
    → Memᴰ v mutating_kubectl_verbs
    → writes_workload command ≡ true
unfolding writes_workload is_kubectl_invocation
writes_workload_mutating command ts v args f n m =
    let (_, invoked) = verb_of_fields_kubectl ts v args n in
    rw (f, invoked, reads_only_mutating command ts v args f n m) refl

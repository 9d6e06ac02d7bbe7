-- ===== src/Conditions/Laws.antt =====
-- What setting a condition leaves in the list.
use dorgu_operator.Common.{
  ℕ, String, ◌≡◌, refl, true, Option, none, some, List, [], ◌∷◌, ◌==◌, eq_iff, eq_refl, arith,
  is_some, Option-cases, Bool-cases, inl, inr, ap, ◌∙◌, ◌≢◌, ne→==, if◌then◌else◌,
}
use dorgu_operator.Api.{ConditionStatus, Condition, Message}
use dorgu_operator.Conditions.{set_condition, find_condition, has_condition, refresh, status_eq}

abbrev pub fresh : ℕ → String → ConditionStatus → String → Message → Condition
fresh now type status reason message = record {
  type = type;
  status = status;
  reason = reason;
  message = message;
  last_transition_time = now;
}

-- The condition of the type that was set is new, or the old one refreshed.
abbrev pub after_set :
    ℕ → String → ConditionStatus → String → Message → Option Condition → Option Condition
after_set now type status reason message none = some (fresh now type status reason message)
after_set now type status reason message (some c) = some (refresh now status reason message c)

refresh-type :
    (now : ℕ) (status : ConditionStatus) (reason : String) (message : Message) (c : Condition)
    → (refresh now status reason message c).type ≡ c.type
unfolding refresh
refresh-type now status reason message c = ground arith

-- After setting a condition, the first one of its type is the old one refreshed, or a new one, and
-- what is found of every other type is as before.
pub find_condition-set_condition :
    (now : ℕ) (cs : List Condition) (type t : String) (status : ConditionStatus) (reason : String)
    (message : Message)
    → find_condition (set_condition now cs type status reason message) t ≡ (
        if type == t
        then after_set now type status reason message (find_condition cs type)
        else find_condition cs t)
unfolding find_condition set_condition
find_condition-set_condition now [] type t status reason message = refl
find_condition-set_condition now (c ∷ cs) type t status reason message = ground (
  arith,
  eq_iff type t,
  eq_iff c.type t,
  eq_iff c.type type,
  refresh-type now status reason message c,
  find_condition-set_condition now cs type t status reason message,
)

pub has_condition-eq :
    (cs : List Condition) (t : String) → has_condition cs t ≡ is_some (find_condition cs t)
unfolding has_condition find_condition
has_condition-eq [] t = refl
has_condition-eq (c ∷ cs) t = ground (arith, has_condition-eq cs t)

find_condition-type :
    (cs : List Condition) (t : String) {c : Condition} → find_condition cs t ≡ some c → c.type ≡ t
unfolding find_condition
find_condition-type [] t h = cc
find_condition-type (d ∷ cs) t {c} h =
    ground (arith, eq_iff d.type t, find_condition-type cs t {c = c})

status_eq_sound : (s t : ConditionStatus) → status_eq s t ≡ true → s ≡ t
status_eq_sound s t h = ground arith

-- A refreshed condition has the status and the reason given.
pub refresh_sets :
    (now : ℕ) (status : ConditionStatus) (reason : String) (message : Message) (c : Condition)
    → ((refresh now status reason message c).status ≡ status)
      × ((refresh now status reason message c).reason ≡ reason)
unfolding refresh
refresh_sets now status reason message c =
    ground (arith, status_eq_sound c.status status, eq_iff c.reason reason)

-- The condition that stands in the list after setting it has the status and the reason given.
pub set_condition_sets :
    (now : ℕ) (cs : List Condition) (type : String) (status : ConditionStatus) (reason : String)
    (message : Message)
    → (c : Condition) × (find_condition (set_condition now cs type status reason message) type
        ≡ some c)
      × (c.type ≡ type)
      × (c.status ≡ status)
      × (c.reason ≡ reason)
set_condition_sets now cs type status reason message =
    elim (Option-cases (find_condition cs type)) [
      | inl missing ↦ (
        fresh now type status reason message,
        rw (find_condition-set_condition, eq_refl, missing),
        refl,
        refl,
        refl,
      )
      | inr (c, found) ↦ (
        refresh now status reason message c,
        rw (find_condition-set_condition, eq_refl, found),
        refresh-type now status reason message c ∙ find_condition-type cs type found,
        (refresh_sets now status reason message c).0,
        (refresh_sets now status reason message c).1,
      )
    ]

-- The conditions of the other types are as they were.
pub set_condition_others :
    (now : ℕ) (cs : List Condition) (type t : String) (status : ConditionStatus) (reason : String)
    (message : Message)
    → type ≢ t
    → find_condition (set_condition now cs type status reason message) t ≡ find_condition cs t
set_condition_others now cs type t status reason message h =
    rw (find_condition-set_condition, ne→== type t h)

pub status_eq_refl : (s : ConditionStatus) → status_eq s s ≡ true
status_eq_refl s = ground arith

refresh_idle :
    (now : ℕ) (message : Message) (c : Condition) → refresh now c.status c.reason message c ≡ c
unfolding refresh
refresh_idle now message c = rw (status_eq_refl c.status, eq_refl c.reason)

-- Setting a condition again with its status and reason changes nothing, its message included.
pub set_condition_idle :
    (now : ℕ) (cs : List Condition) (type : String) (message : Message) {c : Condition}
    → find_condition cs type ≡ some c
    → set_condition now cs type c.status c.reason message ≡ cs
unfolding set_condition find_condition
set_condition_idle now [] type message h = cc
set_condition_idle now (d ∷ cs) type message {c} h = elim (Bool-cases (d.type == type)) [
  | inl here ↦
      let same : d ≡ c = ground arith in
      rw here (rw (← same) (ap (λ x. x ∷ cs) (refresh_idle now message d)))
  | inr later ↦
      rw later (ap (λ xs. d ∷ xs) (set_condition_idle now cs type message {c = c} (ground arith)))
]

pub find_condition-set_new :
    (now : ℕ) (cs : List Condition) (type : String) (status : ConditionStatus) (reason : String)
    (message : Message)
    → find_condition cs type ≡ none
    → find_condition (set_condition now cs type status reason message) type
      ≡ some (fresh now type status reason message)
find_condition-set_new now cs type status reason message h =
    rw (find_condition-set_condition, eq_refl, h)

-- ===== src/Events/Store/Memory.antt =====
-- The map of the times at which keys were seen, against the memory of all that was recorded.
use dorgu_operator.Common.{
  ℕ, subst, length, ◌+◌, ◌≤◌, String, Bool, false, ◌||◌, ◌≡◌, refl, sym, ◌∙◌, none, List, [], ◌∷◌,
  any, filter, ltb, ◌==◌, NoRepeat, contains, eq_iff, arith, Bool-cases, inl, inr, ◌&&◌,
}
use dorgu_operator.Common.Maps.{lookup, insert, keys, lookup-insert}
use dorgu_operator.Events.Store.{still_held, clean_up, recently_seen, max_dedup_entries}

-- The contract's memory: every key recorded, with its time.
abbrev pub recorded_since : ℕ → ℕ → String → List (String × ℕ) → Bool
recorded_since now window key history =
    any (λ (entry : String × ℕ). entry.0 == key && ltb now (entry.1 + window)) history

recorded_later :
    (now later window : ℕ) (key : String) (history : List (String × ℕ))
    → now ≤ later
    → recorded_since now window key history ≡ false
    → recorded_since later window key history ≡ false
recorded_later now later window key [] le h = refl
recorded_later now later window key ((k, t) ∷ history) le h =
    ground (arith, recorded_later now later window key history le)

-- From a time on, the map remembers what the contract does.
pub record Remembers (now window : ℕ) (entries history : List (String × ℕ)) : Type 0 where
  pub once : NoRepeat (keys entries)
  pub agree :
      (later : ℕ) (key : String)
      → now ≤ later
      → recently_seen later window key entries ≡ recorded_since later window key history

contains-keys-insert :
    (key at : String) (t : ℕ) (entries : List (String × ℕ))
    → contains (keys (insert key t entries)) at ≡ (key == at || contains (keys entries) at)
unfolding insert
contains-keys-insert key at t [] = ground arith
contains-keys-insert key at t ((k, v) ∷ entries) =
    ground (arith, contains-keys-insert key at t entries, eq_iff k key, eq_iff key at, eq_iff k at)

pub NoRepeat-insert :
    (key : String) (t : ℕ) (entries : List (String × ℕ))
    → NoRepeat (keys entries)
    → NoRepeat (keys (insert key t entries))
unfolding insert
NoRepeat-insert key t [] u = (refl, tt)
NoRepeat-insert key t ((k, v) ∷ entries) u = elim (Bool-cases (k == key)) [
  | inl same ↦ rw same u
  | inr other ↦ rw other (
    ground (arith, contains-keys-insert key k t entries, eq_iff k key, eq_iff key k),
    NoRepeat-insert key t entries u.1,
  )
]

missing-lookup :
    (key : String) (entries : List (String × ℕ))
    → contains (keys entries) key ≡ false
    → lookup key entries ≡ none
unfolding lookup
missing-lookup key [] h = refl
missing-lookup key ((k, t) ∷ entries) h = ground (arith, missing-lookup key entries)

module _ (now window : ℕ) where
  contains-held :
      (key : String) (entries : List (String × ℕ))
      → contains (keys entries) key ≡ false
      → contains (keys (filter (still_held now window) entries)) key ≡ false
  contains-held key [] h = refl
  contains-held key ((k, t) ∷ entries) h = elim (Bool-cases (still_held now window (k, t))) [
    | inl held ↦ rw held (ground (arith, contains-held key entries))
    | inr gone ↦ rw gone (contains-held key entries (ground arith))
  ]

  NoRepeat-held :
      (entries : List (String × ℕ))
      → NoRepeat (keys entries)
      → NoRepeat (keys (filter (still_held now window) entries))
  NoRepeat-held [] u = tt
  NoRepeat-held ((k, t) ∷ entries) u = elim (Bool-cases (still_held now window (k, t))) [
    | inl held ↦ rw held (contains-held k entries u.0, NoRepeat-held entries u.1)
    | inr gone ↦ rw gone (NoRepeat-held entries u.1)
  ]

  -- What the clean-up drops would not have counted any more.
  recently_seen-held :
      (later : ℕ) (key : String) (entries : List (String × ℕ))
      → now ≤ later
      → NoRepeat (keys entries)
      → recently_seen later window key (filter (still_held now window) entries)
        ≡ recently_seen later window key entries
  unfolding recently_seen lookup
  recently_seen-held later key [] le u = refl
  recently_seen-held later key ((k, t) ∷ entries) le u =
      let rest = recently_seen-held later key entries le u.1 in
      elim (Bool-cases (still_held now window (k, t))) [
        | inl held ↦ rw held (ground (arith, rest))
        | inr gone ↦ rw gone (elim (Bool-cases (k == key)) [
          | inl same ↦
              (let e = (eq_iff k key).0 same in
                let absent = subst (λ (x : String). contains (keys entries) x ≡ false) e u.0 in
                let miss = missing-lookup key entries absent in ground (arith, rest, miss))
          | inr other ↦ ground (arith, rest)
        ])
      ]

pub clean_up-Remembers :
    (now window : ℕ) (entries history : List (String × ℕ))
    → Remembers now window entries history
    → Remembers now window (clean_up now window entries) history
clean_up-Remembers now window entries history r =
    elim (Bool-cases (ltb max_dedup_entries (length entries))) [
      | inl full ↦ rw full (record {
        once = NoRepeat-held now window entries r.once;
        agree = λ later key le.
            recently_seen-held now window later key entries le r.once ∙ r.agree later key le;
      })
      | inr small ↦ rw small r
    ]

pub insert-Remembers :
    (now window : ℕ) (key : String) (entries history : List (String × ℕ))
    → Remembers now window entries history
    → recently_seen now window key entries ≡ false
    → Remembers now window (insert key now entries) ((key, now) ∷ history)
unfolding recently_seen
insert-Remembers now window key entries history r new = record {
  once = NoRepeat-insert key now entries r.once;
  agree = λ later at le. elim (Bool-cases (key == at)) [
    | inl same ↦
        let old : recorded_since later window at history ≡ false =
          subst (λ (x : String). recorded_since later window x history ≡ false)
            ((eq_iff key at).0 same)
            (recorded_later now later window key history le
              (sym (r.agree now key (omega arith)) ∙ new)) in
        ground (arith, lookup-insert key at now entries, old)
    | inr other ↦ ground (arith, lookup-insert key at now entries, r.agree later at le)
  ];
}

pub later-Remembers :
    (now later window : ℕ) (entries history : List (String × ℕ))
    → now ≤ later
    → Remembers now window entries history
    → Remembers later window entries history
later-Remembers now later window entries history le r = record {
  once = r.once;
  agree = λ after key le'. r.agree after key (omega arith);
}

pub nothing-Remembers : (window : ℕ) → Remembers 0 window [] []
unfolding recently_seen lookup
nothing-Remembers window = record { once = tt; agree = λ later key le. refl }

pub clean_up-recently_seen :
    (now later window : ℕ) (key : String) (entries : List (String × ℕ))
    → now ≤ later
    → NoRepeat (keys entries)
    → recently_seen later window key (clean_up now window entries)
      ≡ recently_seen later window key entries
clean_up-recently_seen now later window key entries le u =
    elim (Bool-cases (ltb max_dedup_entries (length entries))) [
      | inl full ↦ rw full (recently_seen-held now window later key entries le u)
      | inr small ↦ rw small refl
    ]

-- ===== src/Detection/Grouping/Laws.antt =====
-- Every signal of a cycle is in one group, the group of its key.
use dorgu_operator.Common.{
  String, ◌≡◌, ◌≢◌, refl, ap, ◌∙◌, sym, subst, Bool, true, Option, none, some, List, [], ◌∷◌, ◌++◌,
  All, filter, filter-append, contains, contains-append, NoRepeat, NoRepeat-snoc, Memᴰ, is_some,
  Option-cases, Bool-cases, inl, inr, ◌==◌, eq_iff, eq_refl, if◌then◌else◌, arith, map, All-map,
  All-filter, All-contains,
}
use mathlib.Core.Path.{ap₂}
use mathlib.Core.List.{append_assoc, append-nil}
use dorgu_operator.Common.Maps.{lookup, insert, lookup-insert}
use dorgu_operator.Common.Sort.{sort, contains-sort, NoRepeat-sort}
use dorgu_operator.Detection.{Signal}
use dorgu_operator.Detection.Grouping.{
  SignalGroup, group_for, with_signal, collect, groups_at, group_signals,
}

abbrev pub has_key : String → Signal → Bool
has_key k s = (group_for s).key == k

-- The group of a key, from its signals.
abbrev pub made_of : List Signal → Option SignalGroup
made_of [] = none
made_of (s ∷ ss) = some record (group_for s) { signals = s ∷ ss }

abbrev group_at : String → List Signal → Option SignalGroup
group_at k ss = made_of (filter (has_key k) ss)

-- What the loop holds after the signals `done`.
record Holds (done : List Signal) (groups : List (String × SignalGroup)) (keys : List String)
    : Type 0 where
  by_key : (k : String) → lookup k groups ≡ group_at k done
  known : (k : String) → contains keys k ≡ is_some (group_at k done)
  once : NoRepeat keys

abbrev joined : Option SignalGroup → Signal → SignalGroup
joined none s = with_signal (group_for s) s
joined (some g) s = with_signal g s

pub group_for-signals : (s : Signal) → (group_for s).signals ≡ []
unfolding group_for
group_for-signals s = ground arith

made_of-snoc :
    (ss : List Signal) (s : Signal) → made_of (ss ++ s ∷ []) ≡ some (joined (made_of ss) s)
made_of-snoc [] s = ground (arith, group_for-signals s)
made_of-snoc (t ∷ ss) s = refl

group_at-snoc :
    (done : List Signal) (s : Signal) (j : String)
    → group_at j (done ++ s ∷ []) ≡ (
        if (group_for s).key == j
        then some (joined (group_at (group_for s).key done) s)
        else group_at j done)
group_at-snoc done s j = elim (Bool-cases ((group_for s).key == j)) [
  | inl here ↦
      let same = (eq_iff (group_for s).key j).0 here in
      rw here (
        rw (filter-append (has_key j) done (s ∷ []), here)
          (made_of-snoc (filter (has_key j) done) s
            ∙ ap (λ k. some (joined (group_at k done) s)) (sym same)))
  | inr other ↦ rw other (
      rw (filter-append (has_key j) done (s ∷ []), other)
        (ap made_of (append-nil (filter (has_key j) done))))
]

module _ (done : List Signal) (s : Signal) (groups : List (String × SignalGroup))
    (names : List String) (before : Holds done groups names) where
  added :
      (g : SignalGroup)
      → joined (group_at (group_for s).key done) s ≡ g
      → (k : String) → lookup k (insert (group_for s).key g groups) ≡ group_at k (done ++ s ∷ [])
  added g e k =
      rw (lookup-insert (group_for s).key k g groups, group_at-snoc done s k, e, before.by_key k)

  first-Holds :
      lookup (group_for s).key groups ≡ none
      → Holds
          (done ++ s ∷ [])
          (insert (group_for s).key (with_signal (group_for s) s) groups)
          (names ++ (group_for s).key ∷ [])
  first-Holds missing =
      let unseen = sym (before.by_key (group_for s).key) ∙ missing in
      record {
        by_key = added (with_signal (group_for s) s) (ap (λ o. joined o s) unseen);
        known = λ k.
            rw (contains-append names ((group_for s).key ∷ []) k, group_at-snoc done s k)
              (ground (arith, before.known k));
        once =
            NoRepeat-snoc names (group_for s).key (before.known _ ∙ ap is_some unseen) before.once;
      }

  later-Holds :
      (g : SignalGroup)
      → lookup (group_for s).key groups ≡ some g
      → Holds (done ++ s ∷ []) (insert (group_for s).key (with_signal g s) groups) names
  later-Holds g there =
      let seen = sym (before.by_key (group_for s).key) ∙ there in
      record {
        by_key = added (with_signal g s) (ap (λ o. joined o s) seen);
        known = λ k. rw (group_at-snoc done s k) (
            ground (
              arith,
              before.known k,
              before.known (group_for s).key,
              seen,
              eq_iff (group_for s).key k,
            ));
        once = before.once;
      }

collect-Holds :
    (ss done : List Signal) (groups : List (String × SignalGroup)) (names : List String)
    → Holds done groups names
    → Holds (done ++ ss) (collect ss groups names).0 (collect ss groups names).1
unfolding collect
collect-Holds [] done groups names h = rw (append-nil done) h
collect-Holds (s ∷ ss) done groups names h = elim (Option-cases (lookup (group_for s).key groups)) [
  | inl missing ↦
      rw (missing, collect)
        (rw (← append_assoc done (s ∷ []) ss)
          (collect-Holds ss (done ++ s ∷ []) _ _ (first-Holds done s groups names h missing)))
  | inr (g, there) ↦
      rw (there, collect)
        (rw (← append_assoc done (s ∷ []) ss)
          (collect-Holds ss (done ++ s ∷ []) _ _ (later-Holds done s groups names h g there)))
]

-- A group has exactly the signals of its key, in the order of the cycle and at least one, and says
-- of itself what groupFor says of its first signal.
abbrev pub IsExact : List Signal → SignalGroup → Type 0
IsExact ss g = (g.signals ≡ filter (has_key g.key) ss) × (made_of g.signals ≡ some g)

-- No two groups have one key, each is exact, and the key of every signal has its group.
pub record IsPartition (ss : List Signal) (groups : List SignalGroup) : Type 0 where
  pub once : NoRepeat (map (λ (g : SignalGroup). g.key) groups)
  pub exact : All (IsExact ss) groups
  pub complete :
      (s : Signal)
      → Memᴰ s ss
      → contains (map (λ (g : SignalGroup). g.key) groups) (group_for s).key ≡ true

-- The group of a key, where there is one.
made_of-exact :
    (k : String) (ss own : List Signal) (g : SignalGroup)
    → filter (has_key k) ss ≡ own
    → All (λ (s : Signal). has_key k s ≡ true) own
    → made_of own ≡ some g
    → (g.key ≡ k) × ((g.signals ≡ filter (has_key k) ss) × (made_of g.signals ≡ some g))
made_of-exact k ss [] g e h m = cc
made_of-exact k ss (t ∷ ts) g e h m =
    let key : g.key ≡ k = ground (arith, (eq_iff (group_for t).key k).0 h.0) in
    (key, (ground arith, ground arith))

All-true : (ss : List Signal) → All (λ (s : Signal). Unit {0}) ss
All-true [] = tt
All-true (s ∷ ss) = (tt, All-true ss)

group_at-exact :
    (k : String) (ss : List Signal) (g : SignalGroup)
    → group_at k ss ≡ some g
    → (g.key ≡ k) × ((g.signals ≡ filter (has_key k) ss) × (made_of g.signals ≡ some g))
group_at-exact k ss g m =
    made_of-exact k ss (filter (has_key k) ss) g refl
      (All-map (λ s h. h.1) _ (All-filter (λ _. Unit {0}) (has_key k) ss (All-true ss))) m

module _ (ss : List Signal) (groups : List (String × SignalGroup))
    (by_key : (k : String) → lookup k groups ≡ group_at k ss) where
  groups_at-keys :
      (ks : List String)
      → All (λ k. is_some (group_at k ss) ≡ true) ks
      → map (λ (g : SignalGroup). g.key) (groups_at ks groups) ≡ ks
  unfolding groups_at
  groups_at-keys [] h = refl
  groups_at-keys (k ∷ ks) h = elim (Option-cases (group_at k ss)) [
    | inl missing ↦ ground arith
    | inr (g, there) ↦
        rw (by_key k, there, groups_at)
          (ap₂ ◌∷◌ (group_at-exact k ss g there).0 (groups_at-keys ks h.1))
  ]

  groups_at-IsExact : (ks : List String) → All (IsExact ss) (groups_at ks groups)
  unfolding groups_at
  groups_at-IsExact [] = tt
  groups_at-IsExact (k ∷ ks) = elim (Option-cases (group_at k ss)) [
    | inl missing ↦ rw (by_key k, missing, groups_at) (groups_at-IsExact ks)
    | inr (g, there) ↦
        let (key, own) = group_at-exact k ss g there in
        rw (by_key k, there, groups_at)
          (
            ((subst (λ (j : String). g.signals ≡ filter (has_key j) ss) (sym key) own.0, own.1)),
            groups_at-IsExact ks,
          )
  ]

member-filter :
    (p : Signal → Bool) (ss : List Signal) (s : Signal) → Memᴰ s ss → p s ≡ true → filter p ss ≢ []
member-filter p [] s m h e = elim m [ ]
member-filter p (t ∷ ss) s (Memᴰ.head same) h e =
    let kept = subst (λ (x : Signal). p x ≡ true) same h in ground arith
member-filter p (t ∷ ss) s (Memᴰ.tail m) h e = elim (Bool-cases (p t)) [
  | inl kept ↦ ground arith
  | inr dropped ↦ member-filter p ss s m h (ground arith)
]

nothing-Holds : Holds [] [] []
unfolding lookup
nothing-Holds = record { by_key = λ k. refl; known = λ k. refl; once = tt }

made_of-IsSome : (own : List Signal) → own ≢ [] → is_some (made_of own) ≡ true
made_of-IsSome [] h = absurd (h refl)
made_of-IsSome (s ∷ ss) h = refl

-- The groups of a cycle partition its signals by their keys.
pub group_signals-IsPartition : (ss : List Signal) → IsPartition ss (group_signals ss)
unfolding group_signals
group_signals-IsPartition ss =
    let after = collect-Holds ss [] [] [] nothing-Holds in
    let order = sort (collect ss [] []).1 in
    let groups = (collect ss [] []).0 in
    let filled : All (λ (k : String). is_some (group_at k ss) ≡ true) order =
      All-contains _ order
        (λ k m. sym (after.known k) ∙ sym (contains-sort (collect ss [] []).1 k) ∙ m) in
    let names = groups_at-keys ss groups after.by_key order filled in
    record {
      once = rw names (NoRepeat-sort (collect ss [] []).1 after.once);
      exact = groups_at-IsExact ss groups after.by_key order;
      complete = λ s m. rw names (
          contains-sort (collect ss [] []).1 (group_for s).key
          ∙ after.known (group_for s).key
          ∙ made_of-IsSome _
              (member-filter (has_key (group_for s).key) ss s m (eq_refl (group_for s).key)));
    }

-- ===== src/Systemd/Statuses/Exact.antt =====
-- With an answer as systemd documents it, `mapStatuses` reports each unit's real state.
use systemd2mqtt.Base.{
  suc, ◌≡◌, refl, sym, ap, ap₂, ◌∙◌, subst, true, false, Bool-cases, Option, none, some,
  Option-cases, List, [], ◌∷◌, ◌⊎◌, inl, inr, map, All, In, here, there, ◌==◌, ==_iff, length,
  arith,
}
use systemd2mqtt.Base.Text.{Text, text_eq, text_eq_iff, contains}
use systemd2mqtt.Base.Assoc.{lookup, insert, lookup-insert, lookup-insert_self}
use systemd2mqtt.Config.Data.{Scope}
use systemd2mqtt.Systemd.Unit.{UnitStatus}
use systemd2mqtt.Systemd.Statuses.{
  RawStatus, Answer, by_name, to_status, find_raw, map_from, map_statuses,
}

-- systemd: the primary id of each name, and the state of each primary id. The primary id of a
-- primary id is that id.
pub record Manager : Type 0 where
  pub primary : Text → Text
  pub state : Text → RawStatus
  pub state_name : (k : Text) → (state k).name ≡ k
  pub primary_idem : (n : Text) → primary (primary n) ≡ primary n
  pub primary_set : (n : Text) → text_eq (primary n) [] ≡ false

no_both : {A : Type 0} {a : A} → ◌≡◌ {A = Option A} none (some a) → ⊥
no_both h = cc

no_entry : (k : Text) {r : RawStatus} → lookup {V = RawStatus} k [] ≡ some r → ⊥
unfolding lookup
no_entry k h = cc

members :
    (P : Text → Type 0) (all_names ns : List Text)
    → ((n : Text) → In n ns → In n all_names)
    → All P ns
    → All (λ n. In n all_names × P n) ns
members P all_names [] f h = tt
members P all_names (n ∷ ns) f (p, h) =
    ((f n (here refl), p), members P all_names ns (λ k m. f k (there m)) h)

module _ (mgr : Manager) where
  open mgr use {primary, state, state_name, primary_idem, primary_set}

  -- The answer to `ListUnitsByNames`: one entry for each name, in the order asked, each under the
  -- primary id.
  abbrev pub answer : List Text → List RawStatus
  answer = map (λ n. state (primary n))

  -- The truth about the names asked.
  abbrev pub truth : Scope → List Text → List UnitStatus
  truth s = map (λ n. to_status s n (some (state (primary n))))

  -- Each entry of the map is a primary id with its state.
  abbrev Good : List (Text × RawStatus) → Type 0
  Good m = (k : Text) (r : RawStatus) → lookup k m ≡ some r → (r ≡ state k) × (primary k ≡ k)

  insert-Good :
      (n : Text) (m : List (Text × RawStatus))
      → Good m
      → Good (insert (state (primary n)).name (state (primary n)) m)
  insert-Good n m good k r h = elim (Bool-cases (text_eq (primary n) k)) [
    | inl same ↦
        let e : primary n ≡ k = (text_eq_iff (primary n) k).0 same in
        let q : some (state (primary n)) ≡ some r =
          ground
            (arith, state_name (primary n), lookup-insert (primary n) k (state (primary n)) m) in
        (cc, cc (primary_idem n))
    | inr other ↦
        good k r (
          ground (arith, state_name (primary n), lookup-insert (primary n) k (state (primary n)) m))
  ]

  by_name-Good :
      (ns : List Text) (m : List (Text × RawStatus)) → Good m → Good (by_name (answer ns) m)
  unfolding by_name
  by_name-Good [] m good = good
  by_name-Good (n ∷ ns) m good =
      by_name-Good ns (insert (state (primary n)).name (state (primary n)) m) (insert-Good n m good)

  by_name_keeps :
      (ns : List Text) (m : List (Text × RawStatus)) (k : Text)
      → lookup k m ≡ some (state k)
      → lookup k (by_name (answer ns) m) ≡ some (state k)
  unfolding by_name
  by_name_keeps [] m k h = h
  by_name_keeps (n ∷ ns) m k h =
      by_name_keeps ns (insert (state (primary n)).name (state (primary n)) m) k (
        ground (
          arith,
          state_name (primary n),
          lookup-insert (primary n) k (state (primary n)) m,
          text_eq_iff (primary n) k,
        ))

  by_name_has :
      (ns : List Text) (m : List (Text × RawStatus)) (n : Text)
      → In n ns
      → lookup (primary n) (by_name (answer ns) m) ≡ some (state (primary n))
  unfolding by_name
  by_name_has [] m n i = elim i [ ]
  by_name_has (x ∷ ns) m n (here e) = by_name_keeps ns _ (primary n) (
      rw e (
        ground
          (arith, state_name (primary x), lookup-insert_self (primary x) (state (primary x)) m)))
  by_name_has (x ∷ ns) m n (there i) = by_name_has ns _ n i

  module _ (names : List Text) (aliases : List (Text × Text)) where
    -- The aliases recorded are right.
    abbrev pub IsSound : Type 0
    IsSound = (n p : Text) → lookup n aliases ≡ some p → p ≡ primary n

    -- A name that is an alias is recorded as one, or its primary id is not asked for.
    abbrev pub IsCovered : Text → Type 0
    IsCovered n =
        (primary n ≡ n)
        ⊎ (lookup n aliases ≡ some (primary n))
        ⊎ (contains names (primary n) ≡ false)

    abbrev reading : Answer
    reading = record {
      known = by_name (answer names) [];
      aliases = aliases;
      asked = names;
      positional = length (answer names) == length names;
    }

    find_raw-primary :
        (n : Text) (rs : List RawStatus)
        → reading.positional ≡ true
        → IsSound
        → IsCovered n
        → In n names
        → find_raw reading n (state (primary n) ∷ rs) ≡ some (state (primary n))
    unfolding find_raw
    find_raw-primary n rs pos sound covered i = elim (Option-cases (lookup n reading.known)) [
      | inr (r, e) ↦
          let (q, p) = by_name-Good names [] (λ k r h. absurd (no_entry k h)) n r e in rw e (cc)
      | inl missing ↦ rw missing (elim covered [
        | inl p ↦ absurd (
            no_both (
              sym missing
              ∙ subst (λ k. lookup k reading.known ≡ some (state (primary n))) p
                  (by_name_has names [] n i)))
        | inr (inl a) ↦ rw (a, by_name_has names [] n i)
        | inr (inr free) ↦ elim (Option-cases (lookup n aliases)) [
          | inl unseen ↦ rw (unseen, pos, state_name, free)
          | inr (p, a) ↦ rw (a, sound n p a, by_name_has names [] n i)
        ]
      ])
    ]

    map_from-truth :
        (s : Scope) (ns : List Text)
        → reading.positional ≡ true
        → IsSound
        → All (λ n. In n names × IsCovered n) ns
        → map_from s reading ns (answer ns) ≡ truth s ns
    unfolding map_from
    map_from-truth s [] pos sound h = refl
    map_from-truth s (n ∷ ns) pos sound ((i, c), h) =
        ap₂ (λ o us. to_status s n o ∷ us) (find_raw-primary n (answer ns) pos sound c i)
          (map_from-truth s ns pos sound h)

  pub length-answer : (ns : List Text) → length (answer ns) ≡ length ns
  length-answer [] = refl
  length-answer (n ∷ ns) = ap suc (length-answer ns)

  -- With systemd's documented answer, `mapStatuses` reports for each name the state of the unit
  -- behind it, provided that every alias recorded is right, and that each name asked is a primary
  -- id, or is recorded as an alias, or has a primary id that is not asked for itself.
  pub map_statuses-truth :
      (s : Scope) (names : List Text) (aliases : List (Text × Text))
      → IsSound names aliases
      → All (IsCovered names aliases) names
      → map_statuses s names aliases (answer names) ≡ truth s names
  unfolding map_statuses
  map_statuses-truth s names aliases sound covered =
      map_from-truth names aliases s names ((==_iff _ _).1 (length-answer names)) sound
        (members (IsCovered names aliases) names names (λ n m. m) covered)

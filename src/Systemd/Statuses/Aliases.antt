-- ===== src/Systemd/Statuses/Aliases.antt =====
-- The aliases that `resolveAliases` records make `mapStatuses` exact.
use systemd2mqtt.Base.{
  ◌≡◌, ◌||◌, Bool-cases, some, List, [], ◌∷◌, ◌⊎◌, inl, inr, All, All-mono, if◌then◌else◌, ==_iff,
  length, arith,
}
use systemd2mqtt.Base.Text.{Text, text_eq, text_eq_iff}
use systemd2mqtt.Base.Assoc.{lookup, insert, lookup-insert, lookup-insert_self}
use systemd2mqtt.Config.Data.{Scope}
use systemd2mqtt.Systemd.Statuses.{map_statuses, alias_from, resolve_aliases}
use systemd2mqtt.Systemd.Statuses.Exact.{
  Manager, answer, truth, IsCovered, length-answer, map_statuses-truth,
}

no_alias : (k : Text) {p : Text} → lookup {V = Text} k [] ≡ some p → ⊥
unfolding lookup
no_alias k h = cc

module _ (mgr : Manager) where
  open mgr use {primary, state, state_name, primary_set}

  -- What the loop of `resolveAliases` records is right, and misses no alias.
  abbrev Recorded : List (Text × Text) → Text → Type 0
  Recorded m n = (primary n ≡ n) ⊎ (lookup n m ≡ some (primary n))

  abbrev Right : List (Text × Text) → Type 0
  Right m = (n p : Text) → lookup n m ≡ some p → p ≡ primary n

  insert-Right : (n : Text) (m : List (Text × Text)) → Right m → Right (insert n (primary n) m)
  insert-Right n m right k p h = elim (Bool-cases (text_eq n k)) [
    | inl same ↦
        let e : n ≡ k = (text_eq_iff n k).0 same in
        let q : some (primary n) ≡ some p = ground (arith, lookup-insert n k (primary n) m) in cc
    | inr other ↦ right k p (ground (arith, lookup-insert n k (primary n) m))
  ]

  step_map : Text → List (Text × Text) → List (Text × Text)
  step_map n m =
      if text_eq (state (primary n)).name [] || text_eq (state (primary n)).name n
      then m
      else insert n (state (primary n)).name m

  step_map-Right : (n : Text) (m : List (Text × Text)) → Right m → Right (step_map n m)
  unfolding step_map
  step_map-Right n m right = elim (Bool-cases (text_eq (primary n) n)) [
    | inl same ↦ rw (state_name (primary n), primary_set n, same) right
    | inr other ↦ rw (state_name (primary n), primary_set n, other) (insert-Right n m right)
  ]

  step_map-here : (n : Text) (m : List (Text × Text)) → Recorded (step_map n m) n
  unfolding step_map
  step_map-here n m = elim (Bool-cases (text_eq (primary n) n)) [
    | inl same ↦ inl ((text_eq_iff (primary n) n).0 same)
    | inr other ↦
        inr (rw (state_name (primary n), primary_set n, other) (lookup-insert_self n (primary n) m))
  ]

  step_map-keeps : (n k : Text) (m : List (Text × Text)) → Recorded m k → Recorded (step_map n m) k
  unfolding step_map
  step_map-keeps n k m (inl e) = inl e
  step_map-keeps n k m (inr e) = elim (Bool-cases (text_eq (primary n) n)) [
    | inl same ↦ inr (rw (state_name (primary n), primary_set n, same) e)
    | inr other ↦ inr (
        rw (state_name (primary n), primary_set n, other)
          (ground (arith, lookup-insert n k (primary n) m, text_eq_iff n k)))
  ]

  alias_from-Right :
      (ns : List Text) (m : List (Text × Text)) → Right m → Right (alias_from ns (answer mgr ns) m)
  unfolding alias_from step_map
  alias_from-Right [] m right = right
  alias_from-Right (n ∷ ns) m right = alias_from-Right ns (step_map n m) (step_map-Right n m right)

  alias_from-keeps :
      (ns : List Text) (m : List (Text × Text)) (k : Text)
      → Recorded m k
      → Recorded (alias_from ns (answer mgr ns) m) k
  unfolding alias_from step_map
  alias_from-keeps [] m k h = h
  alias_from-keeps (n ∷ ns) m k h = alias_from-keeps ns (step_map n m) k (step_map-keeps n k m h)

  alias_from-Recorded :
      (ns : List Text) (m : List (Text × Text))
      → All (Recorded (alias_from ns (answer mgr ns) m)) ns
  unfolding alias_from step_map
  alias_from-Recorded [] m = tt
  alias_from-Recorded (n ∷ ns) m = (
    alias_from-keeps ns (step_map n m) n (step_map-here n m),
    alias_from-Recorded ns (step_map n m),
  )

  -- After an alias lookup that systemd answered, a query that it answers too reports the real
  -- state of every unit watched, under the name watched, aliases and their primary ids included.
  pub map_statuses-resolve_aliases :
      (s : Scope) (names : List Text)
      → map_statuses s names (resolve_aliases names (answer mgr names)) (answer mgr names)
        ≡ truth mgr s names
  unfolding resolve_aliases
  map_statuses-resolve_aliases s names =
      rw ((==_iff (length (answer mgr names)) (length names)).1 (length-answer mgr names)) (
        map_statuses-truth mgr s names (alias_from names (answer mgr names) [])
          (alias_from-Right names [] (λ n p h. absurd (no_alias n h)))
          (All-mono (λ n r. covered n r) names (alias_from-Recorded names [])))
    where
      covered :
          (n : Text)
          → Recorded (alias_from names (answer mgr names) []) n
          → IsCovered mgr names (alias_from names (answer mgr names) []) n
      covered n (inl e) = inl e
      covered n (inr e) = inr (inl e)

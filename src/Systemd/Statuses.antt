-- ===== src/Systemd/Statuses.antt =====
-- internal/systemd/conn.go: `resolveAliases` and `mapStatuses`. systemd's answer is a list of units
-- under their primary ids.
pub mod Shape
pub mod Exact
pub mod Aliases
use systemd2mqtt.Base.{
  Bool, true, false, ◌||◌, Option, none, some, List, [], ◌∷◌, if◌then◌else◌, ◌==◌, length,
}
use systemd2mqtt.Base.Text.{Text, text, text_eq, contains}
use systemd2mqtt.Base.Assoc.{lookup, insert}
use systemd2mqtt.Config.Data.{Scope}
use systemd2mqtt.Systemd.Unit.{UnitStatus}

-- What `mapStatuses` reads of one `sd.UnitStatus`.
pub record RawStatus : Type 0 where
  pub name : Text
  pub active_state : Text
  pub sub_state : Text
  pub load_state : Text

-- The map `byName`: a later answer replaces an earlier one.
unfoldable pub by_name : List RawStatus → List (Text × RawStatus) → List (Text × RawStatus)
by_name [] m = m
by_name (r ∷ rs) m = by_name rs (insert r.name r m)

abbrev pub or_else {ℓ} : {A : Type ℓ} → Option A → Option A → Option A
or_else none o = o
or_else (some a) o = some a

abbrev pub via_alias : List (Text × RawStatus) → Option Text → Option RawStatus
via_alias m none = none
via_alias m (some primary) = lookup primary m

-- The answer at the name's own position, unless it is about another name that was asked.
abbrev pub by_position : List Text → List RawStatus → Option RawStatus
by_position asked [] = none
by_position asked (r ∷ rs) = if contains asked r.name then none else some r

abbrev pub to_status : Scope → Text → Option RawStatus → UnitStatus
to_status scope n none = record {
  name = n;
  scope = scope;
  active_state = text "inactive";
  sub_state = text "dead";
  load_state = text "not-found";
}
to_status scope n (some r) = record {
  name = n;
  scope = scope;
  active_state = r.active_state;
  sub_state = r.sub_state;
  load_state = r.load_state;
}

-- What is read while the names are gone through: `byName`, the aliases, `asked` and `positional`.
pub record Answer : Type 0 where
  pub known : List (Text × RawStatus)
  pub aliases : List (Text × Text)
  pub asked : List Text
  pub positional : Bool

-- The answer for one name; `rest` is `raw[i:]`.
unfoldable pub find_raw : Answer → Text → List RawStatus → Option RawStatus
find_raw a n rest = or_else (lookup n a.known) (
    or_else (via_alias a.known (lookup n a.aliases))
      (if a.positional then by_position a.asked rest else none))

abbrev pub tail {ℓ} : {A : Type ℓ} → List A → List A
tail [] = []
tail (x ∷ xs) = xs

unfoldable pub map_from : Scope → Answer → List Text → List RawStatus → List UnitStatus
map_from scope a [] rest = []
map_from scope a (n ∷ ns) rest =
    to_status scope n (find_raw a n rest) ∷ map_from scope a ns (tail rest)

-- `mapStatuses`
unfoldable pub map_statuses :
    Scope → List Text → List (Text × Text) → List RawStatus → List UnitStatus
unfolding by_name find_raw map_from
map_statuses scope names aliases raw =
    map_from scope
      (record {
        known = by_name raw [];
        aliases = aliases;
        asked = names;
        positional = length raw == length names;
      })
      names raw

-- The loop of `resolveAliases`, over the answers and the names in step.
unfoldable pub alias_from : List Text → List RawStatus → List (Text × Text) → List (Text × Text)
alias_from [] raw m = m
alias_from (n ∷ ns) [] m = m
alias_from (n ∷ ns) (r ∷ rs) m =
    alias_from ns rs (if text_eq r.name [] || text_eq r.name n then m else insert n r.name m)

-- `resolveAliases`, where systemd answers; with another number of answers nothing is recorded.
unfoldable pub resolve_aliases : List Text → List RawStatus → List (Text × Text)
unfolding alias_from
resolve_aliases watch raw = if length raw == length watch then alias_from watch raw [] else []

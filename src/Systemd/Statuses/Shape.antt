-- ===== src/Systemd/Statuses/Shape.antt =====
-- `mapStatuses` answers for the names asked, whatever systemd sent.
use systemd2mqtt.Base.{◌≡◌, refl, ap₂, Option, none, some, List, [], ◌∷◌, map, All}
use systemd2mqtt.Base.Text.{Text}
use systemd2mqtt.Config.Data.{Scope}
use systemd2mqtt.Systemd.Unit.{UnitStatus}
use systemd2mqtt.Systemd.Statuses.{
  RawStatus, Answer, to_status, find_raw, map_from, map_statuses, tail,
}

to_status-name : (s : Scope) (n : Text) (o : Option RawStatus) → (to_status s n o).name ≡ n
to_status-name s n none = refl
to_status-name s n (some r) = refl

to_status-scope : (s : Scope) (n : Text) (o : Option RawStatus) → (to_status s n o).scope ≡ s
to_status-scope s n none = refl
to_status-scope s n (some r) = refl

names-map_from :
    (s : Scope) (a : Answer) (ns : List Text) (rest : List RawStatus)
    → (map (λ u. u.name) (map_from s a ns rest) ≡ ns)
      × All (λ (u : UnitStatus). u.scope ≡ s) (map_from s a ns rest)
unfolding map_from
names-map_from s a [] rest = (refl, tt)
names-map_from s a (n ∷ ns) rest =
    let (e, h) = names-map_from s a ns (tail rest) in
    (
      ap₂ ◌∷◌ (to_status-name s n (find_raw a n rest)) e,
      (to_status-scope s n (find_raw a n rest), h),
    )

-- `mapStatuses` returns exactly one status for each name asked, in the order asked, under the name
-- used and in the scope asked, whatever the answer of systemd and the aliases are.
pub names-map_statuses :
    (s : Scope) (names : List Text) (aliases : List (Text × Text)) (raw : List RawStatus)
    → (map (λ u. u.name) (map_statuses s names aliases raw) ≡ names)
      × All (λ (u : UnitStatus). u.scope ≡ s) (map_statuses s names aliases raw)
unfolding map_statuses
names-map_statuses s names aliases raw = names-map_from s _ names raw

-- ===== src/Config/Names.antt =====
-- internal/config/config.go: how unit names, node ids and template names are read.
pub mod Slug
pub mod NodeId
pub mod Template
use systemd2mqtt.Base.{
  ℕ, ◌+◌, ◌≡◌, Bool, true, false, ◌&&◌, ◌||◌, Option, none, some, List, [], ◌∷◌, ◌++◌, arith,
  if◌then◌else◌, ◌==◌, leb, ltb, all, length,
}
use systemd2mqtt.Base.Lists.{take}
use systemd2mqtt.Base.Text.{Text, text, text_eq}
use systemd2mqtt.Base.Text.Space.{trim}
use systemd2mqtt.Base.Text.Case.{to_lower, upper}
use systemd2mqtt.Base.Text.Search.{trim_suffix, index}
use systemd2mqtt.Base.Text.Runs.{replace_runs}

-- `[a-z0-9]`
abbrev pub is_alnum : ℕ → Bool
is_alnum c = leb b'a' c && leb c b'z' || leb b'0' c && leb c b'9'

-- `[a-z0-9_-]`
abbrev pub is_node_char : ℕ → Bool
is_node_char c = is_alnum c || c == b'_' || c == b'-'

abbrev pub is_underscore : ℕ → Bool
is_underscore c = c == b'_'

abbrev pub is_dash : ℕ → Bool
is_dash c = c == b'-'

abbrev pub service_suffix : Text
service_suffix = text ".service"

-- `nodeIDRe`: `^[a-z0-9_-]{1,64}$`
unfoldable pub node_id_re : Text → Bool
node_id_re s = leb 1 (length s) && leb (length s) 64 && all is_node_char s

-- `Slugify`
unfoldable pub slugify : Text → Text
unfolding trim replace_runs trim_suffix to_lower
slugify name =
    trim is_underscore
      (replace_runs is_alnum b'_' false (trim_suffix service_suffix (to_lower name)))

abbrev pub cap_length : Text → Text
cap_length [] = text "systemd2mqtt"
cap_length (c ∷ s) = if leb (length (c ∷ s)) 64 then c ∷ s else take 64 (c ∷ s)

-- `sanitizeNodeID`
unfoldable pub sanitize_node_id : Text → Text
unfolding trim replace_runs to_lower
sanitize_node_id host =
    cap_length (trim is_dash (replace_runs is_node_char b'-' false (to_lower host)))

-- The bytes of a character outside ASCII, cut apart: each reads as U+FFFD.
abbrev pub cut_bytes : ℕ → Text
cut_bytes c =
    if ltb c 2048
    then 65533 ∷ 65533 ∷ []
    else if ltb c 65536
    then 65533 ∷ 65533 ∷ 65533 ∷ []
    else 65533 ∷ 65533 ∷ 65533 ∷ 65533 ∷ []

-- `ToUpper` of the first byte, and the rest.
abbrev pub capitalize : Text → Text → Text
capitalize unit [] = unit
capitalize unit (c ∷ s) = if ltb c 128 then upper c ∷ s else cut_bytes c ++ s

-- `displayName`
unfoldable pub display_name : Text → Text
unfolding trim_suffix upper
display_name unit = capitalize unit (trim_suffix service_suffix unit)

-- The two slices `name[:i+1]` and `name[i+1:]`, around the at sign found.
abbrev pub cut_at : Option (Text × Text) → Option (Text × Text)
cut_at none = none
cut_at (some ([], rest)) = none
cut_at (some (c ∷ before, [])) = none
cut_at (some (c ∷ before, a ∷ [])) = none
cut_at (some (c ∷ before, a ∷ d ∷ [])) = none
cut_at (some (c ∷ before, a ∷ d ∷ e ∷ suffix)) = some ((c ∷ before) ++ (a ∷ []), d ∷ e ∷ suffix)

-- `splitTemplate`; `none` is its third result, false.
unfoldable pub split_template : Text → Option (Text × Text)
unfolding index
split_template name = cut_at (index (text "@.") name)

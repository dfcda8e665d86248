-- ===== src/Mqtt/Match/Levels.antt =====
-- The positions of `topicMatches` and the levels of a text.
use systemd2mqtt.Base.{
  ℕ, suc, ◌≤◌, ◌≡◌, refl, ap, Bool, true, false, Bool-cases, inl, inr, Option, none, some, List, [],
  ◌∷◌, if◌then◌else◌, ◌==◌, length, arith,
}
use systemd2mqtt.Base.Text.{Text}
use systemd2mqtt.Base.Text.Search.{split, push_head}
use systemd2mqtt.Mqtt.Match.{cut_level}

-- The levels from a position on.
abbrev pub levels : Option Text → List Text
levels none = []
levels (some s) = split b'/' s

pub levels-cut_level : (s : Text) → split b'/' s ≡ (cut_level s).0 ∷ levels (cut_level s).1
unfolding split cut_level
levels-cut_level [] = refl
levels-cut_level (c ∷ s) = elim (Bool-cases (c == b'/')) [
  | inl slash ↦ rw slash
  | inr other ↦ rw other (ap (push_head c) (levels-cut_level s))
]

-- The text does not end in a slash, and is not empty.
abbrev pub ends_in_level : Text → Bool
ends_in_level [] = false
ends_in_level (c ∷ []) = if c == b'/' then false else true
ends_in_level (c ∷ d ∷ s) = ends_in_level (d ∷ s)

abbrev pub position_size : Option Text → ℕ
position_size none = 0
position_size (some s) = suc (length s)

-- The next position is nearer to the end.
pub cut_level-size : (s : Text) → position_size (cut_level s).1 ≤ length s
unfolding cut_level
cut_level-size [] = omega arith
cut_level-size (c ∷ s) = ground (arith, cut_level-size s)

abbrev pub rest_ends_in_level : Option Text → Bool
rest_ends_in_level none = true
rest_ends_in_level (some s) = ends_in_level s

pub cut_level-ends_in_level :
    (s : Text) → ends_in_level s ≡ true → rest_ends_in_level (cut_level s).1 ≡ true
unfolding cut_level
cut_level-ends_in_level [] h = refl
cut_level-ends_in_level (c ∷ []) h = ground arith
cut_level-ends_in_level (c ∷ d ∷ s) h = ground (arith, cut_level-ends_in_level (d ∷ s) h)

-- ===== src/Mqtt/Match.antt =====
-- internal/mqtt/client.go: `topicMatches`. A position in a text is what remains from there on, and
-- `none` is a position past the end. Each round of the loop moves the filter's position on, so
-- fuel above the filter's length is enough.
pub mod Levels
pub mod Spec
pub mod Subscribed
use systemd2mqtt.Base.{
  ℕ, zero, suc, Bool, true, false, not, ◌&&◌, Option, none, some, [], ◌∷◌, if◌then◌else◌, ◌==◌,
  length,
}
use systemd2mqtt.Base.Text.{Text, text, text_eq}

abbrev pub prepend_level : ℕ → Text × Option Text → Text × Option Text
prepend_level c (level, rest) = (c ∷ level, rest)

-- `indexOrEnd`, as the level that ends there and the position behind its slash.
unfoldable pub cut_level : Text → Text × Option Text
cut_level [] = ([], none)
cut_level (c ∷ s) =
    let rest = prepend_level c (cut_level s) in if c == b'/' then ([], some s) else rest

-- `ti > len(topic)`
abbrev pub past_end : Option Text → Bool
past_end none = true
past_end (some s) = false

-- The body of the loop, on a level of the filter and the topic's position; `next` is the rest of
-- the loop.
unfoldable pub match_level : Text → Option Text → (Option Text → Bool) → Bool
match_level level none next = text_eq level (text "#")
match_level level (some topic) next = elim (text_eq level (text "#")) [
  | true ↦ true
  | false ↦ elim (not (text_eq level (text "+")) && not (text_eq level (cut_level topic).0)) [
    | true ↦ false
    | false ↦ next (cut_level topic).1
  ]
]

unfoldable pub match_from : ℕ → Option Text → Option Text → Bool
match_from zero filter topic = false
match_from (suc n) none topic = past_end topic
match_from (suc n) (some []) topic = past_end topic
match_from (suc n) (some (c ∷ s)) topic =
    match_level (cut_level (c ∷ s)).0 topic (λ rest. match_from n (cut_level (c ∷ s)).1 rest)

-- `topicMatches`
unfoldable pub topic_matches : Text → Text → Bool
unfolding match_from
topic_matches filter topic =
    if text_eq filter topic
    then true
    else match_from (suc (suc (length filter))) (some filter) (some topic)

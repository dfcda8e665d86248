-- ===== src/Mqtt/Match/Spec.antt =====
-- `topicMatches` decides the matching of MQTT filters, level by level.
use systemd2mqtt.Base.{
  ℕ, zero, suc, ◌<◌, ◌≡◌, ◌≢◌, refl, sym, ap, ◌∙◌, subst, Bool, true, false, not, ◌&&◌, Bool-cases,
  inl, inr, ◌↔◌, Option, none, some, List, [], ◌∷◌, if◌then◌else◌, length, arith,
}
use systemd2mqtt.Base.Text.{Text, text, text_eq, text_eq_iff, text_eq_refl}
use systemd2mqtt.Base.Text.Search.{split}
use systemd2mqtt.Mqtt.Match.{cut_level, past_end, match_level, match_from, topic_matches}
use systemd2mqtt.Mqtt.Match.Levels.{
  levels, levels-cut_level, ends_in_level, position_size, cut_level-size, rest_ends_in_level,
  cut_level-ends_in_level,
}

-- A filter's levels match a topic's: a number sign takes all the levels that are left, a plus sign
-- takes one, and any other level takes one that equals it.
pub data Matches : List Text → List Text → Type 0 where
  done : Matches [] []
  hash : {fs ts : List Text} → Matches (text "#" ∷ fs) ts
  plus : {fs ts : List Text} (t : Text) → Matches fs ts → Matches (text "+" ∷ fs) (t ∷ ts)
  same : {fs ts : List Text} (t : Text) → Matches fs ts → Matches (t ∷ fs) (t ∷ ts)

match_levels : List Text → List Text → Bool
match_levels [] [] = true
match_levels [] (t ∷ ts) = false
match_levels (f ∷ fs) [] = text_eq f (text "#")
match_levels (f ∷ fs) (t ∷ ts) =
    let rest = match_levels fs ts in
    if text_eq f (text "#")
    then true
    else if not (text_eq f (text "+")) && not (text_eq f t)
    then false
    else rest

sound : (fs ts : List Text) → match_levels fs ts ≡ true → Matches fs ts
unfolding match_levels
sound [] [] h = done
sound [] (t ∷ ts) h = cc
sound (f ∷ fs) [] h = subst (λ g. Matches (g ∷ fs) []) (sym ((text_eq_iff f (text "#")).0 h)) hash
sound (f ∷ fs) (t ∷ ts) h = elim (Bool-cases (text_eq f (text "#"))) [
  | inl e ↦ subst (λ g. Matches (g ∷ fs) (t ∷ ts)) (sym ((text_eq_iff f (text "#")).0 e)) hash
  | inr n ↦ elim (Bool-cases (text_eq f (text "+"))) [
    | inl e ↦
        subst (λ g. Matches (g ∷ fs) (t ∷ ts)) (sym ((text_eq_iff f (text "+")).0 e))
          (plus t (sound fs ts (ground arith)))
    | inr m ↦
        let r : match_levels fs ts ≡ true = ground arith in
        let e : text_eq f t ≡ true = ground arith in
        subst (λ g. Matches (g ∷ fs) (t ∷ ts)) (sym ((text_eq_iff f t).0 e))
          (same t (sound fs ts r))
  ]
]

complete : {fs ts : List Text} → Matches fs ts → match_levels fs ts ≡ true
unfolding match_levels
complete done = refl
complete (hash {ts = []}) = text_eq_refl (text "#")
complete (hash {ts = t ∷ ts}) = rw text_eq_refl
complete (plus t m) = ground (arith, complete m, text_eq_refl (text "+"))
complete (same t m) = ground (arith, complete m, text_eq_refl t)

match_level-levels :
    (f : Text) (fs : List Text) (topic : Option Text) (next : Option Text → Bool)
    → ((r : Option Text) → next r ≡ match_levels fs (levels r))
    → match_level f topic next ≡ match_levels (f ∷ fs) (levels topic)
unfolding match_level match_levels
match_level-levels f fs none next h = refl
match_level-levels f fs (some s) next h =
    rw (levels-cut_level s) (ground (arith, h (cut_level s).1))

ended-levels : (topic : Option Text) → past_end topic ≡ match_levels [] (levels topic)
unfolding match_levels
ended-levels none = refl
ended-levels (some s) = rw (levels-cut_level s)

match_from-levels :
    (n : ℕ) (filter topic : Option Text)
    → rest_ends_in_level filter ≡ true
    → position_size filter < n
    → match_from n filter topic ≡ match_levels (levels filter) (levels topic)
unfolding match_from
match_from-levels zero filter topic h k = absurd (omega arith)
match_from-levels (suc n) none topic h k = ended-levels topic
match_from-levels (suc n) (some []) topic h k = cc
match_from-levels (suc n) (some (c ∷ s)) topic h k =
    match_level-levels (cut_level (c ∷ s)).0 (levels (cut_level (c ∷ s)).1) topic _ (λ r.
      match_from-levels n (cut_level (c ∷ s)).1 r (cut_level-ends_in_level (c ∷ s) h)
        (omega (arith, cut_level-size (c ∷ s))))
    ∙ ap (λ fs. match_levels fs (levels topic)) (sym (levels-cut_level (c ∷ s)))

match_levels_refl : (ts : List Text) → match_levels ts ts ≡ true
unfolding match_levels
match_levels_refl [] = refl
match_levels_refl (t ∷ ts) = ground (arith, match_levels_refl ts, text_eq_refl t)

topic_matches-levels :
    (filter topic : Text)
    → ends_in_level filter ≡ true
    → topic_matches filter topic ≡ match_levels (split b'/' filter) (split b'/' topic)
unfolding topic_matches
topic_matches-levels filter topic h = elim (Bool-cases (text_eq filter topic)) [
  | inl e ↦ rw (e, (text_eq_iff filter topic).0 e) (sym (match_levels_refl (split b'/' topic)))
  | inr n ↦
      rw n
        (match_from-levels (suc (suc (length filter))) (some filter) (some topic) h (omega arith))
]

-- For a filter that is not empty and does not end in a slash, `topicMatches` answers true exactly
-- when the filter's levels match the topic's.
pub topic_matches_iff :
    (filter topic : Text)
    → ends_in_level filter ≡ true
    → (topic_matches filter topic ≡ true) ↔ Matches (split b'/' filter) (split b'/' topic)
topic_matches_iff filter topic h =
    let e = topic_matches-levels filter topic h in
    ((λ m. sound _ _ (sym e ∙ m)), (λ m. e ∙ complete m))

-- A level and an empty level do not match one level.
pub extra_level-not-Matches : (w : Text) → w ≢ text "#" → ¬ Matches (w ∷ [] ∷ []) (w ∷ [])
unfolding match_levels text_eq
extra_level-not-Matches w h m = ground (arith, complete m, text_eq_iff w (text "#"))

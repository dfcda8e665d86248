-- ===== src/Mqtt/Match/Subscribed.antt =====
-- The filters that the daemon subscribes to match the command topics that it reads; and a filter
-- that ends in a slash matches too much.
use systemd2mqtt.Base.{
  ℕ, suc, some, none, ◌≡◌, ◌≢◌, refl, ap, ◌∙◌, subst, true, List, [], ◌∷◌, ◌++◌, length, arith,
}
use systemd2mqtt.Base.Text.{Text, text, text_eq_refl}
use systemd2mqtt.Base.Text.Search.{split, lacks, split-lacks, split-append, split-append_any}
use systemd2mqtt.Ha.Topics.{
  Topics, root, unit_set, unit_set_wildcard, template_set, template_set_wildcard,
}
use systemd2mqtt.Ha.Topics.Parse.{IsLevel, split_set}
use systemd2mqtt.Mqtt.Match.{topic_matches, match_from, match_level, cut_level}
use systemd2mqtt.Mqtt.Match.Levels.{ends_in_level}
use systemd2mqtt.Mqtt.Match.Spec.{
  Matches, done, plus, same, topic_matches_iff, extra_level-not-Matches,
}

Matches-refl : (ts : List Text) → Matches ts ts
Matches-refl [] = done
Matches-refl (t ∷ ts) = same t (Matches-refl ts)

Matches-append :
    {fs ts : List Text} (ws : List Text) → Matches fs ts → Matches (ws ++ fs) (ws ++ ts)
Matches-append [] m = m
Matches-append (w ∷ ws) m = same w (Matches-append ws m)

ends_in_level-append : (a b : Text) → ends_in_level b ≡ true → ends_in_level (a ++ b) ≡ true
ends_in_level-append [] b h = h
ends_in_level-append (c ∷ []) [] h = cc
ends_in_level-append (c ∷ []) (d ∷ b) h = h
ends_in_level-append (c ∷ e ∷ a) b h = ends_in_level-append (e ∷ a) b h

-- A filter that does not end in a slash matches itself.
pub topic_matches_self :
    (r s : Text) → ends_in_level s ≡ true → topic_matches (r ++ s) (r ++ s) ≡ true
topic_matches_self r s h =
    (topic_matches_iff (r ++ s) (r ++ s) (ends_in_level-append r s h)).1
      (Matches-refl (split b'/' (r ++ s)))

-- A word and any id below the root are matched by the word and a plus sign below the root.
wildcard_matches :
    (r word id : Text)
    → lacks b'/' word ≡ true
    → lacks b'/' id ≡ true
    → topic_matches
        (r ++ (b'/' ∷ (word ++ (b'/' ∷ text "+/set"))))
        (r ++ (b'/' ∷ (word ++ (b'/' ∷ (id ++ text "/set")))))
      ≡ true
wildcard_matches r word id h k =
    let f : Text = b'/' ∷ (word ++ (b'/' ∷ text "+/set")) in
    let fs : split b'/' (r ++ f) ≡ split b'/' r ++ (word ∷ text "+" ∷ text "set" ∷ []) =
      split-append_any b'/' r (word ++ (b'/' ∷ text "+/set"))
      ∙ ap (◌++◌ (split b'/' r)) (split_set word (text "+") h refl) in
    let ts : split b'/' (r ++ (b'/' ∷ (word ++ (b'/' ∷ (id ++ text "/set")))))
        ≡ split b'/' r ++ (word ∷ id ∷ text "set" ∷ []) =
      split-append_any b'/' r (word ++ (b'/' ∷ (id ++ text "/set")))
      ∙ ap (◌++◌ (split b'/' r)) (split_set word id h k) in
    (topic_matches_iff (r ++ f) (r ++ (b'/' ∷ (word ++ (b'/' ∷ (id ++ text "/set"))))) (
        ends_in_level-append r f (ends_in_level-append (b'/' ∷ word) (b'/' ∷ text "+/set") refl))).1
      (rw (fs, ts)
        (Matches-append (split b'/' r) (same word (plus id (Matches-refl (text "set" ∷ []))))))

-- The two wildcard subscriptions match the set topic of every unit id and of every template id
-- that is nonempty and holds no slash, whatever the base topic and the node id.
pub set_topics_subscribed :
    (t : Topics) (id : Text)
    → IsLevel id
    → (topic_matches (unit_set_wildcard t) (unit_set t id) ≡ true)
      × (topic_matches (template_set_wildcard t) (template_set t id) ≡ true)
set_topics_subscribed t id h = (
  wildcard_matches (root t) (text "unit") id refl h.1,
  wildcard_matches (root t) (text "template") id refl h.1,
)

cut_level_one : (s : Text) → lacks b'/' s ≡ true → cut_level s ≡ (s, none)
unfolding cut_level
cut_level_one [] h = refl
cut_level_one (c ∷ s) h = ground (arith, cut_level_one s)

cut_level_slash : (s : Text) → lacks b'/' s ≡ true → cut_level (s ++ text "/") ≡ (s, some [])
unfolding cut_level
cut_level_slash [] h = refl
cut_level_slash (c ∷ s) h = ground (arith, cut_level_slash s)

match_from_slash :
    (n c : ℕ) (s : Text)
    → lacks b'/' (c ∷ s) ≡ true
    → match_from (suc (suc n)) (some ((c ∷ s) ++ text "/")) (some (c ∷ s)) ≡ true
unfolding match_from match_level
match_from_slash n c s h =
    ground (arith, cut_level_one (c ∷ s) h, cut_level_slash (c ∷ s) h, text_eq_refl (c ∷ s))

-- A filter of one level and a slash, which is a level and an empty level, is found to match the
-- topic that is the first level alone, though by the rules of MQTT it does not. The level is not
-- empty, has no slash and is not a number sign.
pub trailing_slash-Matches :
    (s : Text)
    → s ≢ []
    → lacks b'/' s ≡ true
    → s ≢ text "#"
    → (topic_matches (s ++ text "/") s ≡ true)
      × ¬ Matches (split b'/' (s ++ text "/")) (split b'/' s)
unfolding topic_matches split
trailing_slash-Matches [] e h n = absurd (e refl)
trailing_slash-Matches (c ∷ s) e h n = (
  ground (arith, match_from_slash (length ((c ∷ s) ++ text "/")) c s h),
  (λ m. extra_level-not-Matches (c ∷ s) n (
      subst (λ fs. Matches fs ((c ∷ s) ∷ [])) (split-append b'/' (c ∷ s) [] h)
        (subst (λ ts. Matches (split b'/' ((c ∷ s) ++ text "/")) ts) (split-lacks b'/' (c ∷ s) h)
          m))),
)

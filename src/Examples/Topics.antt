-- ===== src/Examples/Topics.antt =====
-- internal/ha/topics.go and `topicMatches` of internal/mqtt/client.go at concrete topics.
use systemd2mqtt.Base.{◌≡◌, ◌≢◌, ◌↔◌, refl, inr, true, some}
use systemd2mqtt.Base.Text.{text, text_eq, text_ne}
use systemd2mqtt.Base.Text.Search.{cut_prefix, split}
use systemd2mqtt.Ha.Topics.{Topics, root, Inbound, in_unit_set, parse_levels, parse}
use systemd2mqtt.Ha.Topics.Parse.{topic_of, parse_sound, parse-topic_of}
use systemd2mqtt.Mqtt.Match.{topic_matches}
use systemd2mqtt.Mqtt.Match.Spec.{Matches, topic_matches_iff}
use systemd2mqtt.Mqtt.Match.Subscribed.{trailing_slash-Matches}

abbrev topics : Topics
topics = record {
  base = text "b";
  node_id = text "n";
  discovery_prefix = text "homeassistant";
  status_topic = text "homeassistant/status";
}

abbrev set_vlc : Inbound
set_vlc = record { kind = in_unit_set; id = text "vlc" }

parse_vlc : parse topics (text "b/n/unit/vlc/set") ≡ some set_vlc
unfolding parse text_eq root split cut_prefix parse_levels
parse_vlc = refl

parse_sound_example : text "b/n/unit/vlc/set" ≡ topic_of topics set_vlc
parse_sound_example = parse_sound topics (text "b/n/unit/vlc/set") set_vlc parse_vlc

set_topic-not-status : topic_of topics set_vlc ≢ text "homeassistant/status"
unfolding root text_eq
set_topic-not-status = text_ne (topic_of topics set_vlc) (text "homeassistant/status") refl

parse-topic_of_example : parse topics (topic_of topics set_vlc) ≡ some set_vlc
parse-topic_of_example = parse-topic_of topics set_vlc ((λ e. cc), refl) (inr set_topic-not-status)

topic_matches_iff_example :
    (topic_matches (text "a/+/c") (text "a/b/c") ≡ true)
    ↔ Matches (split b'/' (text "a/+/c")) (split b'/' (text "a/b/c"))
topic_matches_iff_example = topic_matches_iff (text "a/+/c") (text "a/b/c") refl

trailing_slash-Matches_example :
    (topic_matches (text "home/") (text "home") ≡ true)
    × ¬ Matches (split b'/' (text "home/")) (split b'/' (text "home"))
trailing_slash-Matches_example = trailing_slash-Matches (text "home") (λ e. cc) refl (λ e. cc)

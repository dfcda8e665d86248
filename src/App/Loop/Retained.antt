-- ===== src/App/Loop/Retained.antt =====
-- `handleInbound` and retained messages.
use systemd2mqtt.Base.{◌≡◌, ◌≢◌, refl, true, false, Option, none, some}
use systemd2mqtt.Base.Text.{Text}
use systemd2mqtt.Ha.Topics.{
  Kind, in_ha_status, in_unit_set, in_template_set, in_display_set, in_display_mode_set,
  in_daemon_restart, Inbound, parse,
}
use systemd2mqtt.Ha.Topics.Parse.{topic_of, parse_sound}
use systemd2mqtt.App.Model.{App, Fixed, World}
use systemd2mqtt.App.Commands.{is_status, route_parsed, handle_inbound}
use systemd2mqtt.App.Loop.{ev_inbound, handle}

module _ (x : Fixed) where
  status_only :
      (k : Kind) (id topic : Text)
      → topic ≢ x.topics.status_topic
      → topic ≡ topic_of x.topics (record { kind = k; id = id })
      → is_status x k ≡ false
  status_only in_ha_status id topic h e = absurd (h e)
  status_only in_unit_set id topic h e = refl
  status_only in_template_set id topic h e = refl
  status_only in_display_set id topic h e = refl
  status_only in_display_mode_set id topic h e = refl
  status_only in_daemon_restart id topic h e = refl

  routed :
      (o : Option Inbound) (topic payload : Text) (w : World) (a : App)
      → topic ≢ x.topics.status_topic
      → parse x.topics topic ≡ o
      → route_parsed x o payload true w a ≡ a
  routed none topic payload w a h e = refl
  routed (some i) topic payload w a h e =
      rw (status_only i.kind i.id topic h (parse_sound x.topics topic i e)) refl

  -- A retained message on any topic but the status topic leaves the daemon as it is: no job is
  -- started, nothing is published and no restart begins, whatever topic and payload it has.
  pub retained_ignored :
      (topic payload : Text) (w : World) (a : App)
      → topic ≢ x.topics.status_topic
      → handle x (ev_inbound topic payload true) w a ≡ a
  unfolding handle handle_inbound
  retained_ignored topic payload w a h = routed (parse x.topics topic) topic payload w a h refl

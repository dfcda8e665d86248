-- ===== src/Mqtt/Client/Shutdown.antt =====
-- `Close`, and what holds of a client at any time.
use systemd2mqtt.Base.{
  ℕ, suc, ◌≤◌, ◌≡◌, Bool, true, false, not, ◌&&◌, List, [], ◌∷◌, if◌then◌else◌, length,
}
use systemd2mqtt.Base.Text.{Text}
use systemd2mqtt.Mqtt.Client.{
  publish_queue_size, Call, subscribe_call, publish_call, disconnect_call, Closing, not_closing,
  waiting, stopping, disconnecting, finished, has_disconnected, Client,
}

-- How often the client disconnects.
unfoldable pub disconnects : List Call → ℕ
disconnects [] = 0
disconnects (disconnect_call q ∷ ks) = suc (disconnects ks)
disconnects (publish_call m ∷ ks) = disconnects ks
disconnects (subscribe_call f q ∷ ks) = disconnects ks

-- `Close` has closed the stop channel.
abbrev pub is_stopping : Closing → Bool
is_stopping (stopping q) = true
is_stopping disconnecting = true
is_stopping finished = true
is_stopping not_closing = false
is_stopping waiting = false

abbrev pub is_finished : Closing → Bool
is_finished finished = true
is_finished (stopping q) = false
is_finished disconnecting = false
is_finished not_closing = false
is_finished waiting = false

pub record IsSound {H : Type 0} (c : Client H) : Type 0 where
  pub room : length c.out ≤ publish_queue_size
  pub ended : c.stopped ≡ is_stopping c.closing
  pub once : disconnects c.calls ≡ (if has_disconnected c.closing then 1 else 0)
  pub no_session : (is_finished c.closing && c.connected) ≡ false
  pub pumping : (c.pump_done && not c.stopped) ≡ false

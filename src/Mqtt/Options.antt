-- ===== src/Mqtt/Options.antt =====
-- internal/mqtt/tls.go, and `New` of internal/mqtt/client.go: the options that the client hands to
-- paho. The files, the parser of certificates and that of key pairs are parameters.
pub mod Preflight
use systemd2mqtt.Base.{
  ℕ, ◌*◌, Bool, true, false, Option, none, some, List, [], ◌∷◌, ◌⊎◌, inl, inr, if◌then◌else◌,
}
use systemd2mqtt.Base.Text.{Text, text}
use systemd2mqtt.Base.Int.{ℤ}
use systemd2mqtt.Config.Data.{TlsConfig, MqttConfig, second}
use systemd2mqtt.Config.Secrets.{
  FileError, ca_unreadable, ca_empty, cert_and_key, pair_rejected, resolve_password,
}
use systemd2mqtt.Config.Validate.{Url, uses_tls}
use systemd2mqtt.Mqtt.Client.{OutMsg}

-- The files, whether a text holds a certificate, and whether two paths are a key pair.
pub record Files : Type 0 where
  pub read : Text → Option Text
  pub has_certificate : Text → Bool
  pub is_pair : Text → Text → Bool

-- `tls.Config`: 1.2 at least, whether the certificate is not checked, the roots if they are not the
-- system's, and the client's certificate and key.
pub record TlsOptions : Type 0 where
  pub min_version : Text
  pub insecure_skip_verify : Bool
  pub root_cas : Option Text
  pub certificate : Option (Text × Text)

abbrev pub plain_tls : Bool → TlsOptions
plain_tls insecure = record {
  min_version = text "1.2";
  insecure_skip_verify = insecure;
  root_cas = none;
  certificate = none;
}

module _ (f : Files) where
  abbrev pub ca_pool : Text → TlsOptions → Option Text → FileError ⊎ TlsOptions
  ca_pool path tc none = inl (ca_unreadable path)
  ca_pool path tc (some pem) =
      if f.has_certificate pem then inr (record tc { root_cas = some pem }) else inl (ca_empty path)

  abbrev pub with_ca : Text → TlsOptions → FileError ⊎ TlsOptions
  with_ca [] tc = inr tc
  with_ca (c ∷ path) tc = ca_pool (c ∷ path) tc (f.read (c ∷ path))

  abbrev pub with_pair : Text → Text → TlsOptions → FileError ⊎ TlsOptions
  with_pair [] [] tc = inr tc
  with_pair [] (k ∷ key) tc = inl cert_and_key
  with_pair (c ∷ cert) [] tc = inl cert_and_key
  with_pair (c ∷ cert) (k ∷ key) tc =
      if f.is_pair (c ∷ cert) (k ∷ key)
      then inr (record tc { certificate = some (c ∷ cert, k ∷ key) })
      else inl (pair_rejected (c ∷ cert) (k ∷ key))

  abbrev pub then_pair : TlsConfig → FileError ⊎ TlsOptions → FileError ⊎ TlsOptions
  then_pair t (inl e) = inl e
  then_pair t (inr tc) = with_pair t.cert_file t.key_file tc

  -- `BuildTLSConfig`
  unfoldable pub build_tls_config : TlsConfig → FileError ⊎ TlsOptions
  build_tls_config t = then_pair t (with_ca t.ca_file (plain_tls t.insecure_skip_verify))

-- `paho.ClientOptions`, as far as `New` sets it.
pub record Options : Type 0 where
  pub broker : Text
  pub client_id : Text
  pub username : Text
  pub password : Text
  pub keep_alive : ℤ
  pub clean_session : Bool
  pub order_matters : Bool
  pub auto_reconnect : Bool
  pub connect_retry : Bool
  pub max_reconnect_interval : ℕ
  pub write_timeout : ℕ
  pub will : Option OutMsg
  pub tls : Option TlsOptions

-- No will for an empty topic.
abbrev pub will_message : Text → Option OutMsg
will_message [] = none
will_message (c ∷ topic) = some (record {
  topic = c ∷ topic;
  payload = text "offline";
  retained = true;
  qos = 1;
  tracked = false;
})

abbrev pub options_of : MqttConfig → Text → Text → Option TlsOptions → Options
options_of m will_topic pw tls = record {
  broker = m.broker;
  client_id = m.client_id;
  username = m.username;
  password = pw;
  keep_alive = m.keep_alive;
  clean_session = true;
  order_matters = true;
  auto_reconnect = true;
  connect_retry = false;
  max_reconnect_interval = 60 * second;
  write_timeout = 5 * second;
  will = will_message will_topic;
  tls = tls;
}

abbrev pub with_tls : MqttConfig → Text → Text → FileError ⊎ TlsOptions → FileError ⊎ Options
with_tls m will_topic pw (inl e) = inl e
with_tls m will_topic pw (inr tc) = inr (options_of m will_topic pw (some tc))

module _ (parse_url : Text → Option Url) (f : Files) where
  abbrev pub with_password : MqttConfig → Text → FileError ⊎ Text → FileError ⊎ Options
  with_password m will_topic (inl e) = inl e
  with_password m will_topic (inr pw) =
      if uses_tls parse_url m.broker
      then with_tls m will_topic pw (build_tls_config f m.tls)
      else inr (options_of m will_topic pw none)

  -- `New`, as far as it can fail.
  unfoldable pub new_options : MqttConfig → Text → FileError ⊎ Options
  unfolding resolve_password build_tls_config uses_tls
  new_options m will_topic = with_password m will_topic (resolve_password f.read m)

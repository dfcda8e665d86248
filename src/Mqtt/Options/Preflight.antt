-- ===== src/Mqtt/Options/Preflight.antt =====
-- `preflight` of cmd/systemd2mqtt/main.go finds what would keep the MQTT client from being made.
use systemd2mqtt.Base.{
  ◌≡◌, ◌≢◌, refl, false, not, Bool-cases, Option, none, some, [], ◌∷◌, ◌⊎◌, inl, inr, if◌then◌else◌,
  arith, append-nil_parts, ltb,
}
use systemd2mqtt.Base.Text.{Text}
use systemd2mqtt.Config.Data.{TlsConfig, MqttConfig, Config}
use systemd2mqtt.Config.Load.{Env}
use systemd2mqtt.Config.Names.{node_id_re}
use systemd2mqtt.Config.Secrets.{FileError, cert_and_key, resolve_password, trimmed, password_from}
use systemd2mqtt.Config.Validate.{Url, uses_tls, parse, validate, validate_mqtt, check_broker}
use systemd2mqtt.Config.Validate.Units.{Error, check, differ, is_empty}
use systemd2mqtt.Config.Validate.Templates.{check-no}
use systemd2mqtt.Config.Validate.Accepted.{parse_inv}
use systemd2mqtt.Mqtt.Options.{
  Files, TlsOptions, ca_pool, with_ca, with_pair, then_pair, plain_tls, build_tls_config, with_tls,
  with_password, new_options,
}

-- The error, if there is one.
abbrev pub error_of : {A : Type 0} → FileError ⊎ A → Option FileError
error_of (inl e) = some e
error_of (inr x) = none

module _ (parse_url : Text → Option Url) (f : Files) where
  abbrev pub then_tls : MqttConfig → Option FileError → Option FileError
  then_tls m (some e) = some e
  then_tls m none =
      if uses_tls parse_url m.broker then error_of (build_tls_config f m.tls) else none

  -- `preflight`
  unfoldable pub preflight : MqttConfig → Option FileError
  unfolding resolve_password build_tls_config uses_tls
  preflight m = then_tls m (error_of (resolve_password f.read m))

  tls_error :
      (m : MqttConfig) (will pw : Text) (r : FileError ⊎ TlsOptions)
      → error_of (with_tls m will pw r) ≡ error_of r
  tls_error m will pw (inl e) = refl
  tls_error m will pw (inr tc) = refl

  password_error :
      (m : MqttConfig) (will : Text) (r : FileError ⊎ Text)
      → then_tls m (error_of r) ≡ error_of (with_password parse_url f m will r)
  password_error m will (inl e) = refl
  password_error m will (inr pw) = elim (Bool-cases (uses_tls parse_url m.broker)) [
    | inl yes' ↦ rw (yes', tls_error m will pw (build_tls_config f m.tls)) refl
    | inr no' ↦ rw no' refl
  ]

  -- The check before the start is exact: whatever the configuration, the files and the will's
  -- topic, `preflight` reports an error if and only if `New` of the MQTT client fails on the same
  -- files, and then reports the same error.
  pub preflight-new_options :
      (m : MqttConfig) (will : Text) → preflight m ≡ error_of (new_options parse_url f m will)
  unfolding preflight new_options
  preflight-new_options m will = password_error m will (resolve_password f.read m)

-- What `Validate` asks of the two paths.
abbrev IsPaired : TlsConfig → Type 0
IsPaired t = differ (is_empty t.cert_file) (is_empty t.key_file) ≡ false

pair-ne :
    (f : Files) (cert key : Text) (tc : TlsOptions)
    → differ (is_empty cert) (is_empty key) ≡ false
    → with_pair f cert key tc ≢ inl cert_and_key
pair-ne f [] [] tc h e = cc
pair-ne f [] (k ∷ key) tc h e = cc
pair-ne f (c ∷ cert) [] tc h e = cc
pair-ne f (c ∷ cert) (k ∷ key) tc h e = elim (Bool-cases (f.is_pair (c ∷ cert) (k ∷ key))) [
  | inl yes' ↦ ground arith
  | inr no' ↦ ground arith
]

then-ne :
    (f : Files) (t : TlsConfig) (r : FileError ⊎ TlsOptions)
    → IsPaired t
    → r ≢ inl cert_and_key
    → then_pair f t r ≢ inl cert_and_key
then-ne f t (inl e) h n k = n (cc)
then-ne f t (inr tc) h n k = pair-ne f t.cert_file t.key_file tc h k

pool-ne :
    (f : Files) (path : Text) (tc : TlsOptions) (o : Option Text)
    → ca_pool f path tc o ≢ inl cert_and_key
pool-ne f path tc none e = cc
pool-ne f path tc (some pem) e = ground arith

ca-ne : (f : Files) (path : Text) (tc : TlsOptions) → with_ca f path tc ≢ inl cert_and_key
ca-ne f [] tc e = cc
ca-ne f (c ∷ path) tc e = pool-ne f (c ∷ path) tc (f.read (c ∷ path)) e

build-ne : (f : Files) (t : TlsConfig) → IsPaired t → build_tls_config f t ≢ inl cert_and_key
unfolding build_tls_config
build-ne f t h = then-ne f t _ h (ca-ne f t.ca_file (plain_tls t.insecure_skip_verify))

trimmed-ne : (path : Text) (o : Option Text) → trimmed path o ≢ inl cert_and_key
trimmed-ne path none e = cc
trimmed-ne path (some b) e = cc

resolve-ne : (f : Files) (m : MqttConfig) → resolve_password f.read m ≢ inl cert_and_key
unfolding resolve_password
resolve-ne f m = go m.password_file
  where
    go : (path : Text) → password_from f.read path m.password ≢ inl cert_and_key
    go [] e = cc
    go (c ∷ path) e = trimmed-ne (c ∷ path) (f.read (c ∷ path)) e

tls-ne :
    (m : MqttConfig) (will pw : Text) (r : FileError ⊎ TlsOptions)
    → r ≢ inl cert_and_key
    → with_tls m will pw r ≢ inl cert_and_key
tls-ne m will pw (inl e) n k = n (cc)
tls-ne m will pw (inr tc) n k = cc

module _ (parse_url : Text → Option Url) where
  password-ne :
      (f : Files) (m : MqttConfig) (will : Text) (r : FileError ⊎ Text)
      → IsPaired m.tls
      → r ≢ inl cert_and_key
      → with_password parse_url f m will r ≢ inl cert_and_key
  password-ne f m will (inl e) h n = (λ k. n (cc))
  password-ne f m will (inr pw) h n = elim (Bool-cases (uses_tls parse_url m.broker)) [
    | inl yes' ↦ rw yes' (tls-ne m will pw (build_tls_config f m.tls) (build-ne f m.tls h))
    | inr no' ↦ rw no' (λ k. cc)
  ]

  mqtt-IsPaired : (c : Config) → validate_mqtt parse_url c ≡ [] → IsPaired c.mqtt.tls
  unfolding validate_mqtt
  mqtt-IsPaired c h =
      let a =
        (append-nil_parts (check (not (node_id_re c.node_id)) (Error.node_id_invalid c.node_id)) _
          h).1 in
      let b = (append-nil_parts (check_broker parse_url c.mqtt.broker) _ a).1 in
      let d = (append-nil_parts (check (ltb 2 c.mqtt.qos) (Error.qos_invalid c.mqtt.qos)) _ b).1 in
      check-no (differ (is_empty c.mqtt.tls.cert_file) (is_empty c.mqtt.tls.key_file))
        Error.cert_without_key
        (append-nil_parts
          (check (differ (is_empty c.mqtt.tls.cert_file) (is_empty c.mqtt.tls.key_file))
            Error.cert_without_key)
          _ d).0

  -- In a configuration that `Parse` accepts, the client is never refused for a certificate without
  -- its key or a key without its certificate, whatever the files and the will's topic.
  pub accepted_pair :
      (env : Env) (c c' : Config) (f : Files) (will : Text)
      → parse parse_url env c ≡ inr c'
      → new_options parse_url f c'.mqtt will ≢ inl cert_and_key
  unfolding new_options validate
  accepted_pair env c c' f will h =
      let v = (parse_inv parse_url env c c' h).1 in
      password-ne f c'.mqtt will (resolve_password f.read c'.mqtt)
        (mqtt-IsPaired c' (append-nil_parts (validate_mqtt parse_url c') _ v).0)
        (resolve-ne f c'.mqtt)

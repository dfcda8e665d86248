-- ===== src/Cmd/Run/Codes.antt =====
-- Which runs end with the code of a runtime error, after which systemd restarts the daemon.
use systemd2mqtt.Base.{
  ◌≡◌, ◌≢◌, refl, sym, ◌∙◌, true, false, Option, none, some, List, [], ◌++◌, ◌⊎◌, inl, inr, arith,
}
use systemd2mqtt.Base.Text.{Text, text}
use systemd2mqtt.Config.Data.{MqttConfig, Config}
use systemd2mqtt.Config.Secrets.{FileError}
use systemd2mqtt.Config.Validate.{Url}
use systemd2mqtt.Ha.Topics.{new_topics, availability}
use systemd2mqtt.Ha.Discovery.{build_discovery}
use systemd2mqtt.Mqtt.Options.{Options as MqttOptions, new_options}
use systemd2mqtt.Mqtt.Options.Preflight.{preflight, preflight-new_options, error_of}
use systemd2mqtt.Cmd.Flags.{
  Options, FlagError, help, bad_syntax, not_defined, needs_argument, invalid_boolean, unexpected,
  parse_flags,
}
use systemd2mqtt.Cmd.Run.{
  World, LoadError, load, indented, encoded, dump_discovery, clear_discovery, run_daemon, new_app,
  run_app, connect_client, after_preflight, run_loaded, run_parsed, run,
}

-- The files do not change while the process starts.
abbrev pub steady : World → World
steady w = record w { files_later = w.files }

no_error : {A : Type 0} (r : FileError ⊎ A) → none ≡ error_of r → (a : A) × (r ≡ inr a)
no_error (inl e) h = cc
no_error (inr a) h = (a, refl)

module _ (parse_url : Text → Option Url) (w : World) where
  -- What passes `preflight` makes a client.
  made :
      (m : MqttConfig) (will : Text)
      → preflight parse_url w.files m ≡ none
      → (o : MqttOptions) × (new_options parse_url w.files m will ≡ inr o)
  made m will h =
      no_error (new_options parse_url w.files m will)
        (sym h ∙ preflight-new_options parse_url w.files m will)

  -- The discovery payload of a configuration cannot be written: no JSON, or none that can be
  -- indented.
  abbrev Unwritable : Config → Type 0
  Unwritable c =
      let json = w.encode (build_discovery c (new_topics c) w.version) in
      (json ≡ none) ⊎ ((raw : Text) × (json ≡ some raw) × (w.indent raw ≡ none))

  abbrev Cause : Options → Config → Type 0
  Cause o c =
      ((o.dump_discovery ≡ true) × Unwritable c)
      ⊎ ((o.clear_discovery ≡ true) × (w.connects ≡ false))

  indented-none : (o : Option Text) → (indented parse_url w o).code ≡ 1 → o ≡ none
  indented-none none h = refl
  indented-none (some out) h = absurd (omega arith)

  encoded-Unwritable :
      (o : Option Text)
      → (encoded parse_url w o).code ≡ 1
      → (o ≡ none) ⊎ ((raw : Text) × (o ≡ some raw) × (w.indent raw ≡ none))
  encoded-Unwritable none h = inl refl
  encoded-Unwritable (some raw) h = inr (raw, refl, indented-none (w.indent raw) h)

  dump_discovery-Unwritable :
      (c : Config) → (dump_discovery parse_url (steady w) c).code ≡ 1 → Unwritable c
  unfolding dump_discovery
  dump_discovery-Unwritable c h =
      encoded-Unwritable (w.encode (build_discovery c (new_topics c) w.version)) h

  preflight-Cause :
      (o : Options) (c : Config) (e : Option FileError)
      → preflight parse_url w.files c.mqtt ≡ e
      → (after_preflight parse_url (steady w) o c e).code ≡ 1
      → (o.clear_discovery ≡ true) × (w.connects ≡ false)
  unfolding clear_discovery run_daemon preflight new_app run_app connect_client
  preflight-Cause o c (some e) p h = absurd (omega arith)
  preflight-Cause o c none p h =
      let (mo, d) = made c.mqtt (availability (new_topics c)) p in
      let (mc, k) = made (record c.mqtt { client_id = c.mqtt.client_id ++ text "-clear" }) [] p in
      ground arith

  -- With the code 1, a run that loads a configuration dumps or gets as far as `preflight`.
  loaded-code :
      (o : Options) (c : Config)
      → (run_loaded parse_url (steady w) o (inr c)).code ≡ 1
      → ((o.dump_discovery ≡ true) × ((dump_discovery parse_url (steady w) c).code ≡ 1))
        ⊎ ((after_preflight parse_url (steady w) o c (preflight parse_url w.files c.mqtt)).code ≡ 1)
  loaded-code o c h = ground arith

  loaded-Cause :
      (o : Options) (r : LoadError ⊎ Config)
      → (run_loaded parse_url (steady w) o r).code ≡ 1
      → (c : Config) × (r ≡ inr c) × Cause o c
  loaded-Cause o (inl e) h = absurd (omega arith)
  loaded-Cause o (inr c) h = (
    c,
    refl,
    elim (loaded-code o c h) [
      | inl (d, k) ↦ inl (d, dump_discovery-Unwritable c k)
      | inr k ↦ inr (preflight-Cause o c (preflight parse_url w.files c.mqtt) refl k)
    ],
  )

  refused-code : (e : FlagError) → (run_parsed parse_url (steady w) (inl e)).code ≢ 1
  refused-code help h = omega arith
  refused-code (bad_syntax s) h = omega arith
  refused-code (not_defined s) h = omega arith
  refused-code (needs_argument s) h = omega arith
  refused-code (invalid_boolean s n) h = omega arith
  refused-code (unexpected s) h = omega arith

  parsed-Cause :
      (r : FlagError ⊎ Options)
      → (run_parsed parse_url (steady w) r).code ≡ 1
      → (o : Options) × (c : Config) × (r ≡ inr o)
        × (load parse_url w o.config_path ≡ inr c)
        × Cause o c
  unfolding load
  parsed-Cause (inl e) h = absurd (refused-code e h)
  parsed-Cause (inr o) h =
      let (c, l, k) = loaded-Cause o (load parse_url w o.config_path) (loads o h) in
      (o, c, refl, l, k)
    where
      loads :
          (o : Options)
          → (run_parsed parse_url (steady w) (inr o)).code ≡ 1
          → (run_loaded parse_url (steady w) o (load parse_url w o.config_path)).code ≡ 1
      loads o h = ground arith

  -- While the files do not change, the code 1 of a runtime error has one of two causes, with a
  -- configuration that loads: the discovery payload was to be printed, and it could not be encoded
  -- or its JSON not be indented; or the retained topics were to be cleared and the broker was not
  -- reached. So no error of the flags, the configuration, the password or the TLS files, and no
  -- start of the daemon, ends with it.
  pub run-Cause :
      (args : List Text)
      → (run parse_url (steady w) args).code ≡ 1
      → (o : Options) × (c : Config) × (parse_flags w.default_path args ≡ inr o)
        × (load parse_url w o.config_path ≡ inr c)
        × Cause o c
  unfolding run
  run-Cause args h = parsed-Cause (parse_flags w.default_path args) h

-- ===== src/Cmd/Run/Modes.antt =====
-- The modes that only print touch neither the client's files nor the broker.
use systemd2mqtt.Base.{◌≡◌, refl, Bool, true, ◌||◌, Option, List, ◌⊎◌, inl, inr, arith}
use systemd2mqtt.Base.Text.{Text}
use systemd2mqtt.Config.Data.{Config}
use systemd2mqtt.Config.Validate.{Url}
use systemd2mqtt.Mqtt.Options.{Files}
use systemd2mqtt.Cmd.Flags.{Options, FlagError, parse_flags}
use systemd2mqtt.Cmd.Run.{World, LoadError, load, run_loaded, run_parsed, run, dump_discovery}

-- One of the modes that come ahead of `preflight`.
abbrev pub prints_only : Options → Bool
prints_only o = o.version || (o.check_config || (o.dump_discovery || o.print_polkit_rule))

abbrev pub with_broker : Files → Files → Bool → World → World
with_broker now later connects w = record w {
  files = now;
  files_later = later;
  connects = connects;
}

module _ (parse_url : Text → Option Url) (w : World) (f g f' g' : Files) (b b' : Bool) where
  abbrev here' : World
  here' = with_broker f g b w

  abbrev there' : World
  there' = with_broker f' g' b' w

  loaded_same :
      (o : Options) (r : LoadError ⊎ Config)
      → (o.check_config || (o.dump_discovery || o.print_polkit_rule)) ≡ true
      → run_loaded parse_url here' o r ≡ run_loaded parse_url there' o r
  unfolding dump_discovery
  loaded_same o (inl e) h = refl
  loaded_same o (inr c) h = ground arith

  parsed_same :
      (r : FlagError ⊎ Options) (o : Options)
      → r ≡ inr o
      → prints_only o ≡ true
      → run_parsed parse_url here' r ≡ run_parsed parse_url there' r
  unfolding load
  parsed_same (inl e) o k h = cc
  parsed_same (inr p) o k h = ground (arith, loaded_same p (load parse_url w p.config_path))

-- With `--version`, `--check-config`, `--dump-discovery` or `--print-polkit-rule` the result does
-- not depend on the password and TLS files or on the broker: it is the same whatever those are.
pub run-with_broker :
    (parse_url : Text → Option Url) (w : World) (args : List Text) (o : Options) (f g f' g' : Files)
    (b b' : Bool)
    → parse_flags w.default_path args ≡ inr o
    → prints_only o ≡ true
    → run parse_url (with_broker f g b w) args ≡ run parse_url (with_broker f' g' b' w) args
unfolding run
run-with_broker parse_url w args o f g f' g' b b' h k =
    parsed_same parse_url w f g f' g' b b' (parse_flags w.default_path args) o h k

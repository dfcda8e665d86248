-- ===== src/Cmd/Flags/Printed.antt =====
-- A command line made from options is read back as them.
use systemd2mqtt.Base.{◌≡◌, refl, ◌∙◌, Bool, true, false, List, [], ◌∷◌, inr, if◌then◌else◌}
use systemd2mqtt.Base.Text.{Text, text, text_eq, contains}
use systemd2mqtt.Cmd.Flags.{
  Options, no_options, parse_flags, parse_words, at_flag, read_word, parse_bool, cut_value,
  bool_flag,
}

abbrev pub option_word : Bool → Text → List Text → List Text
option_word b w ws = if b then w ∷ ws else ws

-- The options as the words of a command line.
abbrev pub command_line : Options → List Text
command_line o =
    text "--config"
    ∷ o.config_path
    ∷ option_word o.version (text "--version") (
        option_word o.check_config (text "--check-config") (
          option_word o.dump_discovery (text "--dump-discovery") (
            option_word o.print_polkit_rule (text "--print-polkit-rule")
              (option_word o.clear_discovery (text "--clear-discovery") []))))

-- A word that is there sets its flag, and one that is not leaves it lowered.
module _ (o : Options) (ws : List Text) where
  abbrev Reads : Bool → Text → Options → Options → Type 0
  Reads b w lowered next =
      parse_words (option_word b w ws) (at_flag lowered) ≡ parse_words ws (at_flag next)

  Reads-version :
      (b : Bool)
      → Reads b (text "--version") (record o { version = false }) (record o { version = b })
  unfolding read_word parse_words bool_flag cut_value parse_bool text_eq contains
  Reads-version true = refl
  Reads-version false = refl

  Reads-check_config :
      (b : Bool)
      → Reads b
          (text "--check-config")
          (record o { check_config = false })
          (record o { check_config = b })
  unfolding read_word parse_words bool_flag cut_value parse_bool text_eq contains
  Reads-check_config true = refl
  Reads-check_config false = refl

  Reads-dump_discovery :
      (b : Bool)
      → Reads b
          (text "--dump-discovery")
          (record o { dump_discovery = false })
          (record o { dump_discovery = b })
  unfolding read_word parse_words bool_flag cut_value parse_bool text_eq contains
  Reads-dump_discovery true = refl
  Reads-dump_discovery false = refl

  Reads-print_polkit_rule :
      (b : Bool)
      → Reads b
          (text "--print-polkit-rule")
          (record o { print_polkit_rule = false })
          (record o { print_polkit_rule = b })
  unfolding read_word parse_words bool_flag cut_value parse_bool text_eq contains
  Reads-print_polkit_rule true = refl
  Reads-print_polkit_rule false = refl

  Reads-clear_discovery :
      (b : Bool)
      → Reads b
          (text "--clear-discovery")
          (record o { clear_discovery = false })
          (record o { clear_discovery = b })
  unfolding read_word parse_words bool_flag cut_value parse_bool text_eq contains
  Reads-clear_discovery true = refl
  Reads-clear_discovery false = refl

-- Any options, given as words with two dashes, are read back as they are, whatever the default
-- path, also where the path itself looks like a flag.
pub parse_flags-command_line :
    (default_path : Text) (o : Options) → parse_flags default_path (command_line o) ≡ inr o
unfolding parse_flags read_word parse_words bool_flag cut_value text_eq
parse_flags-command_line default_path o =
    let o0 = no_options o.config_path in
    let o1 = record o0 { version = o.version } in
    let o2 = record o1 { check_config = o.check_config } in
    let o3 = record o2 { dump_discovery = o.dump_discovery } in
    let o4 = record o3 { print_polkit_rule = o.print_polkit_rule } in
    Reads-version o0 _ o.version
    ∙ Reads-check_config o1 _ o.check_config
    ∙ Reads-dump_discovery o2 _ o.dump_discovery
    ∙ Reads-print_polkit_rule o3 _ o.print_polkit_rule
    ∙ Reads-clear_discovery o4 [] o.clear_discovery

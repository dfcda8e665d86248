-- ===== src/Cmd/Flags.antt =====
-- `parseFlags` of cmd/systemd2mqtt/main.go, with what it uses of Go's package `flag`.
pub mod Printed
use systemd2mqtt.Base.{
  ℕ, Bool, true, false, ◌||◌, Option, none, some, List, [], ◌∷◌, ◌⊎◌, inl, inr, if◌then◌else◌, ◌==◌,
}
use systemd2mqtt.Base.Text.{Text, text, text_eq, contains}

-- `options`
pub record Options : Type 0 where
  pub config_path : Text
  pub version : Bool
  pub check_config : Bool
  pub dump_discovery : Bool
  pub print_polkit_rule : Bool
  pub clear_discovery : Bool

abbrev pub no_options : Text → Options
no_options default_path = record {
  config_path = default_path;
  version = false;
  check_config = false;
  dump_discovery = false;
  print_polkit_rule = false;
  clear_discovery = false;
}

pub data FlagError : Type 0 where
  -- `flag.ErrHelp`
  help : FlagError
  bad_syntax : Text → FlagError
  not_defined : Text → FlagError
  needs_argument : Text → FlagError
  invalid_boolean : Text → Text → FlagError
  unexpected : Text → FlagError

-- `strconv.ParseBool`
unfoldable pub parse_bool : Text → Option Bool
unfolding contains
parse_bool s =
    if contains (text "1" ∷ text "t" ∷ text "T" ∷ text "TRUE" ∷ text "true" ∷ text "True" ∷ []) s
    then some true
    else if contains
        (text "0" ∷ text "f" ∷ text "F" ∷ text "FALSE" ∷ text "false" ∷ text "False" ∷ []) s
    then some false
    else none

pub data Flag : Type 0 where
  version_flag check_config_flag dump_discovery_flag print_polkit_rule_flag clear_discovery_flag :
      Flag

-- The registered flags that are Booleans.
unfoldable pub bool_flag : Text → Option Flag
unfolding text_eq
bool_flag name =
    if text_eq name (text "version")
    then some version_flag
    else if text_eq name (text "check-config")
    then some check_config_flag
    else if text_eq name (text "dump-discovery")
    then some dump_discovery_flag
    else if text_eq name (text "print-polkit-rule")
    then some print_polkit_rule_flag
    else if text_eq name (text "clear-discovery")
    then some clear_discovery_flag
    else none

abbrev pub set_flag : Flag → Bool → Options → Options
set_flag version_flag b o = record o { version = b }
set_flag check_config_flag b o = record o { check_config = b }
set_flag dump_discovery_flag b o = record o { dump_discovery = b }
set_flag print_polkit_rule_flag b o = record o { print_polkit_rule = b }
set_flag clear_discovery_flag b o = record o { clear_discovery = b }

-- A word before its first equals sign, and the value behind it if there is one.
unfoldable pub cut_value : Text → Text × Option Text
cut_value [] = ([], none)
cut_value (c ∷ s) =
    let rest = cut_value s in if c == b'=' then ([], some s) else (c ∷ rest.0, rest.1)

-- What one word of the command line does.
pub data Word : Type 0 where
  -- The flags end, before the word or behind it.
  ends_before : Word
  ends_behind : Word
  fails : FlagError → Word
  sets : Options → Word
  -- The next word is the path.
  wants_path : Word

abbrev pub set_bool : Flag → Text → Option Text → Options → Word
set_bool flag name none o = sets (set_flag flag true o)
set_bool flag name (some value) o = elim (parse_bool value) [
  | none ↦ fails (invalid_boolean value name)
  | some b ↦ sets (set_flag flag b o)
]

abbrev pub set_path : Option Text → Options → Word
set_path none o = wants_path
set_path (some value) o = sets (record o { config_path = value })

abbrev pub other_flag : Text → Option Text → Options → Option Flag → Word
other_flag name value o (some flag) = set_bool flag name value o
other_flag name value o none =
    if text_eq name (text "config")
    then set_path value o
    else if text_eq name (text "help") || text_eq name (text "h")
    then fails help
    else fails (not_defined name)

abbrev pub named : Text → Option Text → Options → Word
named name value o = other_flag name value o (bool_flag name)

-- A word behind its dashes. The equals sign is looked for from the second character on.
abbrev pub read_name : Text → Text → Options → Word
read_name whole [] o = fails (bad_syntax whole)
read_name whole (c ∷ s) o =
    if c == b'-' || c == b'='
    then fails (bad_syntax whole)
    else named (c ∷ (cut_value s).0) (cut_value s).1 o

abbrev pub read_dashes : Text → Options → Word
read_dashes [] o = ends_before
read_dashes (d ∷ []) o = if d == b'-' then ends_behind else read_name (b'-' ∷ d ∷ []) (d ∷ []) o
read_dashes (d ∷ e ∷ s) o =
    if d == b'-'
    then read_name (b'-' ∷ d ∷ e ∷ s) (e ∷ s) o
    else read_name (b'-' ∷ d ∷ e ∷ s) (d ∷ e ∷ s) o

unfoldable pub read_word : Text → Options → Word
unfolding bool_flag parse_bool cut_value
read_word [] o = ends_before
read_word (c ∷ s) o = if c == b'-' then read_dashes s o else ends_before

-- No argument may be left over.
abbrev pub finish : Options → List Text → FlagError ⊎ Options
finish o [] = inr o
finish o (a ∷ as') = inl (unexpected a)

-- What the next word is read as.
pub data Reading : Type 0 where
  at_flag at_path : Options → Reading

abbrev pub after :
    Word → Text → List Text → Options → (Reading → FlagError ⊎ Options) → FlagError ⊎ Options
after ends_before w ws o rest = inl (unexpected w)
after ends_behind w ws o rest = finish o ws
after (fails e) w ws o rest = inl e
after (sets p) w ws o rest = rest (at_flag p)
after wants_path w ws o rest = rest (at_path o)

-- The loop over the words.
unfoldable pub parse_words : List Text → Reading → FlagError ⊎ Options
unfolding read_word
parse_words [] (at_flag o) = inr o
parse_words [] (at_path o) = inl (needs_argument (text "config"))
parse_words (w ∷ ws) (at_flag o) = after (read_word w o) w ws o (λ r. parse_words ws r)
parse_words (w ∷ ws) (at_path o) = parse_words ws (at_flag (record o { config_path = w }))

-- `parseFlags`
unfoldable pub parse_flags : Text → List Text → FlagError ⊎ Options
unfolding parse_words
parse_flags default_path args = parse_words args (at_flag (no_options default_path))

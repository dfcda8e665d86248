-- ===== src/Config/Secrets.antt =====
-- internal/config/config.go: the password, where it comes from and how it is hidden. What is on
-- disk is a function from paths; a file that cannot be read is missing.
use systemd2mqtt.Base.{◌≡◌, ◌≢◌, refl, ap, Option, none, some, [], ◌∷◌, ◌⊎◌, inl, inr}
use systemd2mqtt.Base.Text.{Text, text}
use systemd2mqtt.Base.Text.Space.{trim_space}
use systemd2mqtt.Config.Data.{MqttConfig, Config}

pub data FileError : Type 0 where
  password_unreadable : Text → FileError
  ca_unreadable : Text → FileError
  ca_empty : Text → FileError
  cert_and_key : FileError
  pair_rejected : Text → Text → FileError

-- `read_password`, behind the test for a path.
abbrev pub trimmed : Text → Option Text → FileError ⊎ Text
trimmed path none = inl (password_unreadable path)
trimmed path (some b) = inr (trim_space b)

abbrev pub password_from : (Text → Option Text) → Text → Text → FileError ⊎ Text
password_from read [] password = inr password
password_from read (c ∷ path) password = trimmed (c ∷ path) (read (c ∷ path))

-- `ResolvePassword`
unfoldable pub resolve_password : (Text → Option Text) → MqttConfig → FileError ⊎ Text
unfolding trim_space
resolve_password read m = password_from read m.password_file m.password

abbrev pub masked : Text → Text
masked [] = []
masked (c ∷ s) = text "***"

-- What `Redacted` has the YAML encoder print.
unfoldable pub redacted : Config → Config
redacted c = record c { mqtt = record c.mqtt { password = masked c.mqtt.password } }

abbrev pub with_password : Text → Config → Config
with_password s c = record c { mqtt = record c.mqtt { password = s } }

masked_same : (p q : Text) → p ≢ [] → q ≢ [] → masked p ≡ masked q
masked_same [] q a b = absurd (a refl)
masked_same (c ∷ p) [] a b = absurd (b refl)
masked_same (c ∷ p) (d ∷ q) a b = refl

-- The configuration as printed tells nothing of the password but whether there is one: with two
-- passwords that are not empty, the same is printed.
pub redacted-with_password :
    (c : Config) (p q : Text)
    → p ≢ []
    → q ≢ []
    → redacted (with_password p c) ≡ redacted (with_password q c)
unfolding redacted
redacted-with_password c p q a b = ap (λ s. with_password s c) (masked_same p q a b)

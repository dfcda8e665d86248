-- ===== src/Ha/Polkit.antt =====
-- internal/ha/polkit.go: the polkit rule. The rule is a record of the names that are written into
-- the JavaScript text, and that text's conditions are a function on what polkit asks. JavaScript
-- texts are sequences of 16-bit units. `strconv.IsPrint`, by which `jsString` quotes, is a parameter.
pub mod Permits
use systemd2mqtt.Base.{
  ℕ, zero, suc, is_some, ◌+◌, ◌-◌, ◌/◌, ◌%◌, Bool, true, false, not, ◌&&◌, ◌||◌, Option, none, some,
  List, [], ◌∷◌, ◌++◌, map, if◌then◌else◌, ltb, keep, length, all, any, ◌==◌,
}
use systemd2mqtt.Base.Text.{Text, text, text_eq, contains}
use systemd2mqtt.Base.Text.Search.{cut_prefix}
use systemd2mqtt.Config.Data.{UnitConfig, TemplateConfig, Config, scope_system}
use systemd2mqtt.Config.Load.{entries}
use systemd2mqtt.Config.Names.{split_template}
use systemd2mqtt.Config.Query.{units_for_scope}
use systemd2mqtt.Config.Validate.Units.{is_empty}

abbrev pub polkit_action : Text
polkit_action = text "org.freedesktop.systemd1.manage-units"

abbrev pub polkit_verbs : List Text
polkit_verbs = text "start" ∷ text "stop" ∷ text "restart" ∷ []

-- `a < b`
unfoldable pub text_lt : Text → Text → Bool
text_lt [] [] = false
text_lt [] (b ∷ bs) = true
text_lt (a ∷ as') [] = false
text_lt (a ∷ as') (b ∷ bs) = ltb a b || ((a == b) && text_lt as' bs)

-- `sort.Strings` and `sort.Slice`, by a key.
module _ {A : Type 0} (key : A → Text) where
  unfoldable pub place : A → List A → List A
  unfolding text_lt
  place a [] = a ∷ []
  place a (x ∷ xs) = if text_lt (key x) (key a) then x ∷ place a xs else a ∷ x ∷ xs

  unfoldable pub sort_by : List A → List A
  unfolding place
  sort_by [] = []
  sort_by (x ∷ xs) = place x (sort_by xs)

pub record PrefixMatch : Type 0 where
  pub prefix : Text
  pub suffix : Text

-- What the text of the rule is made of.
pub record Rule : Type 0 where
  pub user : Text
  pub exact : List Text
  pub prefixes : List PrefixMatch

abbrev pub prefix_of : Option (Text × Text) → List PrefixMatch → List PrefixMatch
prefix_of none ps = ps
prefix_of (some (p, q)) ps = record { prefix = p; suffix = q } ∷ ps

-- The loop over the templates. The cut at the first at sign and full stop is that of
-- `splitTemplate`.
unfoldable pub prefixes_of : List TemplateConfig → List PrefixMatch
unfolding split_template
prefixes_of [] = []
prefixes_of (t ∷ ts) =
    let rest = prefixes_of ts in
    if text_eq t.scope scope_system then prefix_of (split_template t.name) rest else rest

unfoldable pub exact_of : Config → List Text
unfolding units_for_scope
exact_of c = map (λ u. u.name) (keep (λ u. is_empty u.template_id) (units_for_scope c scope_system))

-- `RenderPolkitRule`
unfoldable pub polkit_rule : Config → Text → Rule
unfolding exact_of prefixes_of sort_by
polkit_rule c user = record {
  user = user;
  exact = sort_by (λ n. n) (exact_of c);
  prefixes = sort_by (λ p. p.prefix) (prefixes_of (entries c.templates));
}

-- The 16-bit units of a text, and the number of its bytes in UTF-8.
unfoldable pub utf16 : Text → List ℕ
utf16 [] = []
utf16 (c ∷ s) =
    let rest = utf16 s in
    if ltb c 65536
    then c ∷ rest
    else (55296 + (c - 65536) / 1024) ∷ (56320 + (c - 65536) % 1024) ∷ rest

abbrev pub char_bytes : ℕ → ℕ
char_bytes c = if ltb c 128 then 1 else if ltb c 2048 then 2 else if ltb c 65536 then 3 else 4

unfoldable pub byte_length : Text → ℕ
byte_length [] = 0
byte_length (c ∷ s) = char_bytes c + byte_length s

unfoldable pub drop : ℕ → List ℕ → List ℕ
drop zero xs = xs
drop (suc n) [] = []
drop (suc n) (x ∷ xs) = drop n xs

-- The eight hexadecimal digits of `\U`.
abbrev pub hex_digit : ℕ → ℕ
hex_digit d = if ltb d 10 then 48 + d else 87 + d

unfoldable pub hex_digits : ℕ → ℕ → Text
hex_digits zero c = []
hex_digits (suc n) c = hex_digits n (c / 16) ++ (hex_digit (c % 16) ∷ [])

-- What polkit asks: the action, the user, and the unit and the verb, which may be undefined.
pub record Question : Type 0 where
  pub action : Text
  pub user : Text
  pub unit : Option Text
  pub verb : Option Text

-- A line of comment ends at these characters, and the rest of the text is not what it is meant to
-- be.
abbrev pub ends_line : ℕ → Bool
ends_line c = (c == 10) || (c == 13) || (c == 8232) || (c == 8233)

abbrev pub one_line : Text → Bool
one_line s = all (λ c. not (ends_line c)) s

abbrev pub prefix_one_line : PrefixMatch → Bool
prefix_one_line p = one_line p.prefix && one_line p.suffix

-- The names that the comments carry as they are.
abbrev pub comments_end : Rule → Bool
comments_end r = one_line r.user && all prefix_one_line r.prefixes

abbrev pub names_no_unit : Rule → Bool
names_no_unit r = (length r.exact == 0) && (length r.prefixes == 0)

module _ (is_print : ℕ → Bool) where
  -- What an ES5 engine reads of a character that `strconv.Quote` has written: `\a` is not an escape
  -- there and reads as `a`, nor is `\U`, which reads as `U` with the digits behind it; the other
  -- escapes mean the same in both.
  unfoldable pub js_char : ℕ → Text
  unfolding hex_digits
  js_char c =
      if is_print c
      then c ∷ []
      else if c == 7
      then text "a"
      else if ltb c 65536
      then c ∷ []
      else 85 ∷ hex_digits 8 c

  -- The value of `jsString`'s text.
  unfoldable pub js_string : Text → Text
  unfolding js_char
  js_string [] = []
  js_string (c ∷ s) = js_char c ++ js_string s

  -- `unit.indexOf(prefix) === 0 && unit.slice(-n) === suffix`, with the suffix's number of bytes;
  -- the suffix is not empty, so `n` is not zero.
  unfoldable pub matches : Text → PrefixMatch → Bool
  unfolding utf16 byte_length drop text_eq cut_prefix js_string
  matches unit p =
      is_some (cut_prefix (utf16 (js_string p.prefix)) (utf16 unit))
      && text_eq (drop (length (utf16 unit) - byte_length p.suffix) (utf16 unit))
          (utf16 (js_string p.suffix))

  abbrev pub permits_verb : Option Text → Bool
  permits_verb none = false
  permits_verb (some v) = contains (map js_string polkit_verbs) v

  abbrev pub permits_unit : Rule → Option Text → Bool
  permits_unit r none = false
  permits_unit r (some u) = contains (map js_string r.exact) u || any (matches u) r.prefixes

  -- The function that the text registers: yes, or not handled. Where the rule names no unit, the
  -- text registers none. Where a comment does not end as it should, what the text means is left
  -- open.
  unfoldable pub permits : Rule → Question → Option Bool
  unfolding matches contains js_string
  permits r q =
      if names_no_unit r
      then some false
      else if comments_end r
      then some (
          text_eq q.action (js_string polkit_action)
          && text_eq q.user (js_string r.user)
          && permits_verb q.verb
          && permits_unit r q.unit)
      else none

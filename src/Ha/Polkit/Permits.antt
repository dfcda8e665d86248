-- ===== src/Ha/Polkit/Permits.antt =====
-- The rule permits what the daemon asks systemd for.
use systemd2mqtt.Base.{
  ℕ, ◌-◌, ◌≡◌, refl, sym, ap, ◌∙◌, subst, Bool, true, false, ◌&&◌, ◌||◌, ◌==◌, Bool-cases, inl, inr,
  Option, none, some, List, [], ◌∷◌, ◌++◌, map, ltb, length, length-append, all, any, All, All-In,
  In, here, there, In-map, In-keep, any-In, append_assoc, arith, &&-true,
}
use systemd2mqtt.Base.Text.{Text, text, text_eq, text_eq_iff, text_eq_refl, contains, contains-In}
use systemd2mqtt.Base.Text.Search.{cut_prefix-append}
use systemd2mqtt.Config.Data.{UnitConfig, TemplateConfig, Config, scope_system}
use systemd2mqtt.Config.Load.{Env, entries, apply_defaults, apply_env}
use systemd2mqtt.Config.Names.{split_template}
use systemd2mqtt.Config.Names.Template.{split_template_sound}
use systemd2mqtt.Config.Query.{units_for_scope}
use systemd2mqtt.Config.Expand.Origin.{HasOrigin, Comes, expand-Comes}
use systemd2mqtt.Config.Validate.{Url, parse}
use systemd2mqtt.Config.Validate.Units.{is_empty}
use systemd2mqtt.Config.Validate.Accepted.{parse_inv}
use systemd2mqtt.Ha.Polkit.{
  polkit_action, polkit_verbs, place, sort_by, PrefixMatch, Rule, prefix_of, text_lt, prefixes_of,
  exact_of, polkit_rule, one_line, prefix_one_line, comments_end, js_char, js_string, utf16,
  byte_length, drop, matches, Question, permits,
}

-- Printable ASCII.
abbrev pub is_plain : Text → Bool
is_plain s = all (λ c. ltb 31 c && ltb c 127) s

all-append-right : (p : ℕ → Bool) (xs ys : List ℕ) → all p (xs ++ ys) ≡ true → all p ys ≡ true
all-append-right p [] ys h = h
all-append-right p (x ∷ xs) ys h = all-append-right p xs ys (&&-true (p x) _ h).1

all-append-left : (p : ℕ → Bool) (xs ys : List ℕ) → all p (xs ++ ys) ≡ true → all p xs ≡ true
all-append-left p [] ys h = refl
all-append-left p (x ∷ xs) ys h = ground (arith, all-append-left p xs ys)

js_string-plain : (is_print : ℕ → Bool) (s : Text) → is_plain s ≡ true → js_string is_print s ≡ s
unfolding js_string js_char
js_string-plain is_print [] h = refl
js_string-plain is_print (c ∷ s) h = ground (arith, js_string-plain is_print s)

one_line-plain : (s : Text) → is_plain s ≡ true → one_line s ≡ true
one_line-plain [] h = refl
one_line-plain (c ∷ s) h = ground (arith, one_line-plain s)

utf16-append : (a b : Text) → utf16 (a ++ b) ≡ utf16 a ++ utf16 b
unfolding utf16
utf16-append [] b = refl
utf16-append (c ∷ a) b = ground (arith, utf16-append a b)

byte_length-utf16 : (s : Text) → is_plain s ≡ true → byte_length s ≡ length (utf16 s)
unfolding utf16 byte_length
byte_length-utf16 [] h = refl
byte_length-utf16 (c ∷ s) h = ground (arith, byte_length-utf16 s)

drop-append : (a b : List ℕ) → drop (length a) (a ++ b) ≡ b
unfolding drop
drop-append [] b = refl
drop-append (x ∷ a) b = drop-append a b

matches-instance :
    (is_print : ℕ → Bool) (p i q : Text)
    → is_plain p ≡ true
    → is_plain q ≡ true
    → matches is_print (p ++ (i ++ q)) (record { prefix = p; suffix = q }) ≡ true
unfolding matches
matches-instance is_print p i q k h =
    let a = utf16 (p ++ i) in
    let whole : utf16 (p ++ (i ++ q)) ≡ a ++ utf16 q =
      ap utf16 (sym (append_assoc p i q)) ∙ utf16-append (p ++ i) q in
    let n : length (utf16 (p ++ (i ++ q))) - byte_length q ≡ length a =
      omega (arith, byte_length-utf16 q h, ap length whole, length-append a (utf16 q)) in
    rw
      (
        js_string-plain is_print p k,
        js_string-plain is_print q h,
        n,
        utf16-append p (i ++ q),
        cut_prefix-append (utf16 p) (utf16 (i ++ q)),
      )
      (ap (λ s. text_eq (drop (length a) s) (utf16 q)) (sym (utf16-append p (i ++ q)) ∙ whole)
        ∙ ap (λ s. text_eq s (utf16 q)) (drop-append a (utf16 q))
        ∙ text_eq_refl (utf16 q))

all-place :
    {A : Type 0} (key : A → Text) (f : A → Bool) (a : A) (xs : List A)
    → all f (place key a xs) ≡ (f a && all f xs)
unfolding place
all-place key f a [] = refl
all-place key f a (x ∷ xs) = ground (arith, all-place key f a xs)

all-sort_by :
    {A : Type 0} (key : A → Text) (f : A → Bool) (xs : List A) → all f (sort_by key xs) ≡ all f xs
unfolding sort_by
all-sort_by key f [] = refl
all-sort_by key f (x ∷ xs) =
    all-place key f x (sort_by key xs) ∙ ap (λ b. f x && b) (all-sort_by key f xs)

swapped :
    {A : Type 0} {x : A} (a y : A) (ys zs : List A)
    → (In x (a ∷ ys) → In x zs)
    → In x (a ∷ y ∷ ys)
    → In x (y ∷ zs)
swapped a y ys zs f (here e) = there (f (here e))
swapped a y ys zs f (there (here e)) = here e
swapped a y ys zs f (there (there n)) = there (f (there n))

In-place :
    {A : Type 0} {x : A} (key : A → Text) (a : A) (xs : List A)
    → In x (a ∷ xs)
    → In x (place key a xs)
unfolding place
In-place key a [] m = m
In-place key a (y ∷ ys) m = elim (Bool-cases (text_lt (key y) (key a))) [
  | inl yes' ↦ rw yes' (swapped a y ys (place key a ys) (In-place key a ys) m)
  | inr no' ↦ rw no' m
]

In-sort_by : {A : Type 0} (key : A → Text) {x : A} (xs : List A) → In x xs → In x (sort_by key xs)
unfolding sort_by
In-sort_by key [] m = m
In-sort_by key (y ∷ ys) (here e) = In-place key y (sort_by key ys) (here e)
In-sort_by key (y ∷ ys) (there m) = In-place key y (sort_by key ys) (there (In-sort_by key ys m))

In-prefix_of :
    {x : PrefixMatch} (o : Option (Text × Text)) (ps : List PrefixMatch)
    → In x ps
    → In x (prefix_of o ps)
In-prefix_of none ps m = m
In-prefix_of (some (p, q)) ps m = there m

In-prefixes_of :
    {t : TemplateConfig} (ts : List TemplateConfig) (p q : Text)
    → In t ts
    → t.scope ≡ scope_system
    → split_template t.name ≡ some (p, q)
    → In (record { prefix = p; suffix = q }) (prefixes_of ts)
unfolding prefixes_of
In-prefixes_of [] p q m s h = elim m [ ]
In-prefixes_of (x ∷ ts) p q (here e) s h =
    rw
      (
        subst (λ y. text_eq y.scope scope_system ≡ true) e ((text_eq_iff _ scope_system).1 s),
        subst (λ y. split_template y.name ≡ some (p, q)) e h,
      )
      (here refl)
In-prefixes_of (x ∷ ts) p q (there m) s h =
    let rest = In-prefixes_of ts p q m s h in
    elim (Bool-cases (text_eq x.scope scope_system)) [
      | inl yes' ↦ rw yes' (In-prefix_of (split_template x.name) (prefixes_of ts) rest)
      | inr no' ↦ rw no' rest
    ]

-- The ends of a template's name are plain where the name is.
plain_ends :
    (name p q : Text)
    → split_template name ≡ some (p, q)
    → is_plain name ≡ true
    → (is_plain p ≡ true) × (is_plain q ≡ true)
plain_ends name p q h a =
    let (x, y, ep, eq, nx, ny, whole) = split_template_sound name p q h in
    let both = subst (λ n. is_plain n ≡ true) whole a in
    (all-append-left _ p q both, all-append-right _ p q both)

prefix_of-one_line :
    (name : Text) (o : Option (Text × Text)) (ps : List PrefixMatch)
    → split_template name ≡ o
    → is_plain name ≡ true
    → all prefix_one_line ps ≡ true
    → all prefix_one_line (prefix_of o ps) ≡ true
prefix_of-one_line name none ps e a h = h
prefix_of-one_line name (some (p, q)) ps e a h =
    let (k, l) = plain_ends name p q e a in rw (one_line-plain p k, one_line-plain q l) h

prefixes_of-one_line :
    (ts : List TemplateConfig)
    → All (λ t. is_plain t.name ≡ true) ts
    → all prefix_one_line (prefixes_of ts) ≡ true
unfolding prefixes_of
prefixes_of-one_line [] a = refl
prefixes_of-one_line (t ∷ ts) (a, as') =
    let rest = prefixes_of-one_line ts as' in
    elim (Bool-cases (text_eq t.scope scope_system)) [
      | inl yes' ↦
          rw yes' (prefix_of-one_line t.name (split_template t.name) (prefixes_of ts) refl a rest)
      | inr no' ↦ rw no' rest
    ]

comments_end-polkit_rule :
    (c : Config) (user : Text)
    → is_plain user ≡ true
    → All (λ t. is_plain t.name ≡ true) (entries c.templates)
    → comments_end (polkit_rule c user) ≡ true
unfolding polkit_rule
comments_end-polkit_rule c user h a = rw (one_line-plain user h) (
    all-sort_by (λ p. p.prefix) prefix_one_line (prefixes_of (entries c.templates))
    ∙ prefixes_of-one_line (entries c.templates) a)

-- What polkit asks when the user has systemd carry out a verb on a unit.
abbrev pub manage : Text → Text → Text → Question
manage user unit verb = record {
  action = polkit_action;
  user = user;
  unit = some unit;
  verb = some verb;
}

verb-value :
    (is_print : ℕ → Bool) (verb : Text)
    → In verb polkit_verbs
    → contains (map (js_string is_print) polkit_verbs) verb ≡ true
verb-value is_print verb v = ap (λ vs. contains vs verb) plain ∙ contains-In polkit_verbs verb v
  where
    plain : map (js_string is_print) polkit_verbs ≡ polkit_verbs
    plain = cc (
      js_string-plain is_print (text "start") refl,
      js_string-plain is_print (text "stop") refl,
      js_string-plain is_print (text "restart") refl,
    )

named :
    (f : Text → Text) (g : PrefixMatch → Bool) (u : Text) (ns : List Text) (ps : List PrefixMatch)
    → (contains (map f ns) u || any g ps) ≡ true
    → ((length ns == 0) && (length ps == 0)) ≡ false
unfolding contains
named f g u [] [] h = cc
named f g u [] (p ∷ ps) h = ground arith
named f g u (n ∷ ns) ps h = ground arith

permits-unit :
    (is_print : ℕ → Bool) (r : Rule) (unit verb : Text)
    → is_plain r.user ≡ true
    → comments_end r ≡ true
    → (contains (map (js_string is_print) r.exact) unit || any (matches is_print unit) r.prefixes)
      ≡ true
    → contains (map (js_string is_print) polkit_verbs) verb ≡ true
    → permits is_print r (manage r.user unit verb) ≡ some true
unfolding permits contains
permits-unit is_print r unit verb u e h k =
    rw
      (
        named (js_string is_print) (matches is_print unit) unit r.exact r.prefixes h,
        e,
        js_string-plain is_print polkit_action refl,
        js_string-plain is_print r.user u,
        text_eq_refl polkit_action,
        text_eq_refl r.user,
        k,
        h,
      )
      refl

exact-permits :
    (is_print : ℕ → Bool) (c : Config) (user : Text) {u : UnitConfig}
    → In u c.all
    → u.scope ≡ scope_system
    → u.template_id ≡ []
    → is_plain u.name ≡ true
    → contains (map (js_string is_print) (polkit_rule c user).exact) u.name ≡ true
unfolding polkit_rule exact_of units_for_scope
exact-permits is_print c user {u} m s t n =
    contains-In (map (js_string is_print) (polkit_rule c user).exact) u.name (
      subst (λ v. In v (map (js_string is_print) (polkit_rule c user).exact))
        (js_string-plain is_print u.name n)
        (In-map (js_string is_print) _ (
          In-sort_by (λ n. n) _
            (In-map (λ v. v.name) _
              (In-keep (λ v. is_empty v.template_id) _ (ap is_empty t)
                (In-keep (λ v. text_eq v.scope scope_system) c.all
                  ((text_eq_iff u.scope scope_system).1 s) m))))))

template-permits :
    (is_print : ℕ → Bool) (c : Config) (user : Text) (u : UnitConfig)
    → All (λ t. is_plain t.name ≡ true) (entries c.templates)
    → HasOrigin (entries c.templates) u
    → u.scope ≡ scope_system
    → any (matches is_print u.name) (polkit_rule c user).prefixes ≡ true
unfolding polkit_rule
template-permits is_print c user u a (t, m, p, q, i, h, name, scope) s =
    let (k, l) =
      plain_ends t.name p q h (All-In (λ v. is_plain v.name ≡ true) (entries c.templates) a m) in
    any-In (matches is_print u.name) (polkit_rule c user).prefixes
      (subst (λ n. matches is_print n (record { prefix = p; suffix = q }) ≡ true) (sym name)
        (matches-instance is_print p i q k l))
      (In-sort_by (λ k. k.prefix) _ (In-prefixes_of (entries c.templates) p q m (sym scope ∙ s) h))

module _ (is_print : ℕ → Bool) (parse_url : Text → Option Url) (env : Env) (c c' : Config)
    (parsed : parse parse_url env c ≡ inr c') where
  -- In a configuration that `Parse` accepts, whose templates and own units have names of printable
  -- ASCII characters and whose own units carry no template's id, as the decoder leaves them, the
  -- rule rendered for a user with such a name lets that user start, stop and restart every unit of
  -- the system scope, template instances included.
  pub polkit_rule-permits :
      (user verb : Text) (u : UnitConfig)
      → is_plain user ≡ true
      → All (λ t. is_plain t.name ≡ true) (entries c'.templates)
      → All (λ v. (is_plain v.name ≡ true) × (v.template_id ≡ [])) (entries c'.units)
      → In u c'.all
      → u.scope ≡ scope_system
      → In verb polkit_verbs
      → permits is_print (polkit_rule c' user) (manage user u.name verb) ≡ some true
  unfolding polkit_rule
  polkit_rule-permits user verb u n a b m s v =
      permits-unit is_print (polkit_rule c' user) u.name verb n
        (comments_end-polkit_rule c' user n a)
        (elim (All-In (Comes c') c'.all
          (expand-Comes (apply_env env (apply_defaults env c)) c'
            (parse_inv parse_url env c c' parsed).0)
          m) [
            | inl f ↦
                let (k, l) =
                  All-In (λ w. (is_plain w.name ≡ true) × (w.template_id ≡ [])) (entries c'.units) b
                    f in
                ground (arith, exact-permits is_print c' user m s l k)
            | inr o ↦ ground (arith, template-permits is_print c' user u a o s)
          ])
        (verb-value is_print verb v)

-- ===== src/Config/Names/Slug.antt =====
-- Slugs: what `Slugify` returns, and that it leaves a slug alone.
use systemd2mqtt.Base.{ℕ, ◌≡◌, refl, Bool, true, false, [], ◌∷◌, arith, all, subst, sym}
use systemd2mqtt.Base.Text.{Text}
use systemd2mqtt.Base.Text.Space.{trim, starts_clean, ends_clean}
use systemd2mqtt.Base.Text.Case.{lower, to_lower}
use systemd2mqtt.Base.Text.Search.{trim_suffix}
use systemd2mqtt.Base.Text.Runs.{
  replace_runs, in_class, singles, replace_runs-in_class, replace_runs-singles, replace_runs_clean,
}
use systemd2mqtt.Base.Text.Trimmed.{
  all-trim, singles-trim, trim-starts_clean, trim-ends_clean, trim_clean,
}
use systemd2mqtt.Config.Names.{is_alnum, is_underscore, service_suffix, slugify}

abbrev pub is_slug_char : ℕ → Bool
is_slug_char = in_class is_alnum b'_'

-- Lower-case letters, digits and single underscores, with none at either end.
pub record IsSlug (s : Text) : Type 0 where
  pub class : all is_slug_char s ≡ true
  pub single : singles b'_' false s ≡ true
  pub start : starts_clean is_underscore s ≡ true
  pub end : ends_clean is_underscore s ≡ true

-- `Slugify` returns a slug for every name: only lower-case letters, digits and underscores,
-- no two underscores side by side and none at either end.
pub slugify-IsSlug : (name : Text) → IsSlug (slugify name)
unfolding slugify
slugify-IsSlug name =
    let s = replace_runs is_alnum b'_' false (trim_suffix service_suffix (to_lower name)) in
    record {
      class =
          all-trim is_underscore is_slug_char s (
            replace_runs-in_class is_alnum b'_' false (trim_suffix service_suffix (to_lower name)));
      single = singles-trim is_underscore b'_' s (
          replace_runs-singles is_alnum b'_' false (trim_suffix service_suffix (to_lower name))
            refl);
      start = trim-starts_clean is_underscore s;
      end = trim-ends_clean is_underscore s;
    }

lower_slug_char : (c : ℕ) → is_slug_char c ≡ true → lower c ≡ c
unfolding lower
lower_slug_char c h = ground arith

to_lower_slug : (s : Text) → all is_slug_char s ≡ true → to_lower s ≡ s
unfolding to_lower
to_lower_slug [] h = refl
to_lower_slug (c ∷ s) h = ground (arith, lower_slug_char c, to_lower_slug s)

trim_suffix_slug : (s : Text) → all is_slug_char s ≡ true → trim_suffix service_suffix s ≡ s
unfolding trim_suffix
trim_suffix_slug [] h = refl
trim_suffix_slug (c ∷ s) h = ground (arith, trim_suffix_slug s)

-- `Slugify` leaves a slug as it is.
slugify_slug : (s : Text) → IsSlug s → slugify s ≡ s
unfolding slugify
slugify_slug s h =
    subst
      (λ t.
        trim is_underscore (replace_runs is_alnum b'_' false (trim_suffix service_suffix t)) ≡ s)
      (sym (to_lower_slug s h.class))
      (subst (λ t. trim is_underscore (replace_runs is_alnum b'_' false t) ≡ s)
        (sym (trim_suffix_slug s h.class))
        (subst (λ t. trim is_underscore t ≡ s)
          (sym (replace_runs_clean is_alnum b'_' false s refl h.class h.single))
          (trim_clean is_underscore s h.start h.end)))

-- An object id made from a name is stable: its own slug is the same id.
pub slugify_idem : (name : Text) → slugify (slugify name) ≡ slugify name
slugify_idem name = slugify_slug (slugify name) (slugify-IsSlug name)

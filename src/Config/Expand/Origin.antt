-- ===== src/Config/Expand/Origin.antt =====
-- Where the units of an expanded configuration come from.
use systemd2mqtt.Base.{
  ℕ, suc, ◌≡◌, refl, sym, subst, Option, none, some, List, [], ◌∷◌, ◌++◌, map, ◌⊎◌, inl, inr, All,
  All-mono, All-append, All-self, In, here, there,
}
use systemd2mqtt.Base.Text.{Text}
use systemd2mqtt.Config.Data.{UnitConfig, InstanceConfig, TemplateConfig, Config}
use systemd2mqtt.Config.Names.{split_template}
use systemd2mqtt.Config.Load.{entries}
use systemd2mqtt.Config.Expand.{
  expand_instance, template_units, template_select, fill_template, ExpandResult, expanded,
  not_a_template, expand_one, expand_from, expand, with_expansion, add_template,
}
use systemd2mqtt.Config.Expand.Selects.{filled_entries, inr-inj}

-- The unit is named as an instance of one of the templates, and has its scope.
abbrev pub HasOrigin : List TemplateConfig → UnitConfig → Type 0
HasOrigin ts u =
    (t : TemplateConfig) × In t ts
    × (p : Text) × (q : Text) × (inst : Text) × (split_template t.name ≡ some (p, q))
    × (u.name ≡ p ++ (inst ++ q))
    × (u.scope ≡ t.scope)

later :
    (t : TemplateConfig) (ts : List TemplateConfig) (us : List UnitConfig)
    → All (HasOrigin ts) us
    → All (HasOrigin (t ∷ ts)) us
later t ts us = All-mono (λ u o. (o.0, there o.1, o.2, o.3, o.4, o.5, o.6, o.7)) us

instances-HasOrigin :
    (t : TemplateConfig) (ts : List TemplateConfig) (p q : Text) (insts : List InstanceConfig)
    → split_template t.name ≡ some (p, q)
    → All (HasOrigin (t ∷ ts)) (map (expand_instance t p q) insts)
unfolding expand_instance
instances-HasOrigin t ts p q [] h = tt
instances-HasOrigin t ts p q (i ∷ insts) h =
    ((t, here refl, p, q, i.name, h, refl, refl), instances-HasOrigin t ts p q insts h)

abbrev ResultOrigin : ExpandResult → Type 0
ResultOrigin (not_a_template i name) = Unit
ResultOrigin (expanded e) = All (HasOrigin e.filled) e.units

add_template-Origin :
    (t : TemplateConfig) (p q : Text) (r : ExpandResult)
    → split_template t.name ≡ some (p, q)
    → ResultOrigin r
    → ResultOrigin (add_template t (template_units t p q) (template_select t p q) r)
unfolding template_units
add_template-Origin t p q (not_a_template i name) h k = tt
add_template-Origin t p q (expanded e) h k =
    All-append (HasOrigin (t ∷ e.filled)) (template_units t p q) e.units
      (instances-HasOrigin t e.filled p q t.instances h) (later t e.filled e.units k)

expand_one-Origin :
    (i : ℕ) (t : TemplateConfig) (o : Option (Text × Text)) (r : ExpandResult)
    → split_template t.name ≡ o
    → ResultOrigin r
    → ResultOrigin (expand_one i t o r)
unfolding expand_one fill_template
expand_one-Origin i t none r h k = tt
expand_one-Origin i t (some (p, q)) r h k = add_template-Origin (fill_template t p q) p q r h k

expand_from-Origin : (i : ℕ) (ts : List TemplateConfig) → ResultOrigin (expand_from i ts)
unfolding expand_from
expand_from-Origin i [] = tt
expand_from-Origin i (t ∷ ts) =
    expand_one-Origin i t (split_template t.name) (expand_from (suc i) ts) refl
      (expand_from-Origin (suc i) ts)

abbrev pub Comes : Config → UnitConfig → Type 0
Comes c u = In u (entries c.units) ⊎ HasOrigin (entries c.templates) u

with_expansion-Comes :
    (c : Config) (r : ExpandResult) {c' : Config}
    → expand_from 0 (entries c.templates) ≡ r
    → ResultOrigin r
    → with_expansion c r ≡ inr c'
    → All (Comes c') c'.all
with_expansion-Comes c (not_a_template i name) e k h = cc
with_expansion-Comes c (expanded x) {c'} e k h =
    subst (λ d. All (Comes d) (d.all)) (inr-inj h)
      (All-append _ (entries c.units) x.units
        (All-mono (λ u m. inl m) (entries c.units) (All-self (entries c.units)))
        (All-mono
          (λ u o. inr (subst (λ ts. HasOrigin ts u) (sym (filled_entries c.templates x e)) o))
          x.units k))

-- Each unit of a configuration that `expand` returns is one of the file's units, or is named as an
-- instance of one of the templates and has its scope.
pub expand-Comes : (c c' : Config) → expand c ≡ inr c' → All (Comes c') c'.all
unfolding expand
expand-Comes c c' h =
    with_expansion-Comes c (expand_from 0 (entries c.templates)) refl
      (expand_from-Origin 0 (entries c.templates)) h

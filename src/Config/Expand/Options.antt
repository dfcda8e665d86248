-- ===== src/Config/Expand/Options.antt =====
-- The select entities that expansion makes name units that it makes.
use systemd2mqtt.Base.{
  ℕ, suc, ◌≡◌, refl, subst, Bool-cases, Option, none, some, List, [], ◌∷◌, ◌++◌, map, ◌⊎◌, inl, inr,
  All, All-mono, In, here, there, In-append_left, In-append_right, arith,
}
use systemd2mqtt.Base.Text.{Text}
use systemd2mqtt.Config.Data.{
  UnitConfig, InstanceConfig, TemplateConfig, TemplateSelect, SelectOption, Config,
}
use systemd2mqtt.Config.Unit.{object_id}
use systemd2mqtt.Config.Names.{slugify, split_template}
use systemd2mqtt.Config.Load.{entries}
use systemd2mqtt.Config.Expand.{
  expand_instance, select_option, template_units, template_select, fill_template, ExpandResult,
  expanded, not_a_template, expand_one, expand_from, expand, with_expansion, add_template,
}

-- The option is about one of the units: its id, its name, its label and the scope are that unit's.
abbrev pub Names : List UnitConfig → TemplateSelect → SelectOption → Type 0
Names us sel opt =
    (u : UnitConfig) × In u us
    × (object_id u ≡ opt.unit_id)
    × (u.name ≡ opt.unit_name)
    × (u.friendly_name ≡ opt.label)
    × (u.scope ≡ sel.scope)

abbrev pub SelectNames : List UnitConfig → TemplateSelect → Type 0
SelectNames us sel = All (Names us sel) sel.options

Names-append_left :
    (us vs : List UnitConfig) (sel : TemplateSelect)
    → SelectNames us sel
    → SelectNames (us ++ vs) sel
Names-append_left us vs sel =
    All-mono (λ opt n. (n.0, In-append_left us vs n.1, n.2, n.3, n.4, n.5)) sel.options

Names-append_right :
    (us vs : List UnitConfig) (sel : TemplateSelect)
    → SelectNames vs sel
    → SelectNames (us ++ vs) sel
Names-append_right us vs sel =
    All-mono (λ opt n. (n.0, In-append_right us vs n.1, n.2, n.3, n.4, n.5)) sel.options

-- The id that expansion gives a unit is its object id, also where the slug is empty.
object_id_slug : (u : UnitConfig) → u.id ≡ slugify u.name → object_id u ≡ u.id
unfolding object_id
object_id_slug u h = ground arith

abbrev Fits : TemplateSelect → UnitConfig → Type 0
Fits sel u = (object_id u ≡ u.id) × (u.scope ≡ sel.scope)

Names-of_units :
    (sel : TemplateSelect) (us : List UnitConfig)
    → All (Fits sel) us
    → All (Names us sel) (map select_option us)
Names-of_units sel [] h = tt
Names-of_units sel (u ∷ us) (h, hs) = (
  (u, here refl, h.0, refl, refl, h.1),
  All-mono (λ opt n. (n.0, there n.1, n.2, n.3, n.4, n.5)) (map select_option us)
      (Names-of_units sel us hs),
)

instances-Fits :
    (t : TemplateConfig) (p q : Text) (insts : List InstanceConfig)
    → All (Fits (template_select t p q)) (map (expand_instance t p q) insts)
unfolding template_select expand_instance
instances-Fits t p q [] = tt
instances-Fits t p q (inst ∷ insts) =
    ((object_id_slug (expand_instance t p q inst) refl, refl), instances-Fits t p q insts)

template_select-SelectNames :
    (t : TemplateConfig) (p q : Text) → SelectNames (template_units t p q) (template_select t p q)
unfolding template_select template_units
template_select-SelectNames t p q =
    Names-of_units (template_select t p q) (template_units t p q) (instances-Fits t p q t.instances)

abbrev ResultNames : ExpandResult → Type 0
ResultNames (not_a_template i name) = Unit
ResultNames (expanded e) = All (SelectNames e.units) e.selects

add_template-Names :
    (t : TemplateConfig) (us : List UnitConfig) (sel : TemplateSelect) (r : ExpandResult)
    → SelectNames us sel
    → ResultNames r
    → ResultNames (add_template t us sel r)
add_template-Names t us sel (not_a_template i name) h k = tt
add_template-Names t us sel (expanded e) h k = elim (Bool-cases t.exclusive) [
  | inl yes_ ↦
      rw yes_
        (Names-append_left us e.units sel h, All-mono (Names-append_right us e.units) e.selects k)
  | inr no_ ↦ rw no_ (All-mono (Names-append_right us e.units) e.selects k)
]

expand_one-Names :
    (i : ℕ) (t : TemplateConfig) (o : Option (Text × Text)) (r : ExpandResult)
    → ResultNames r
    → ResultNames (expand_one i t o r)
unfolding expand_one
expand_one-Names i t none r k = tt
expand_one-Names i t (some (p, q)) r k =
    let t' = fill_template t p q in
    add_template-Names t' (template_units t' p q) (template_select t' p q) r
      (template_select-SelectNames t' p q) k

expand_from-Names : (i : ℕ) (ts : List TemplateConfig) → ResultNames (expand_from i ts)
unfolding expand_from
expand_from-Names i [] = tt
expand_from-Names i (t ∷ ts) =
    expand_one-Names i t (split_template t.name) (expand_from (suc i) ts)
      (expand_from-Names (suc i) ts)

inr-inj : {A B : Type 0} {x y : B} → ◌≡◌ {A = A ⊎ B} (inr x) (inr y) → x ≡ y
inr-inj h = cc

with_expansion-Names :
    (c : Config) (r : ExpandResult) {c' : Config}
    → ResultNames r
    → with_expansion c r ≡ inr c'
    → All (SelectNames c'.all) c'.selects
with_expansion-Names c (not_a_template i name) k h = cc
with_expansion-Names c (expanded e) {c'} k h =
    subst (λ d. All (SelectNames (d.all)) (d.selects)) (inr-inj h)
      (All-mono (Names-append_right (entries c.units) e.units) e.selects k)

-- In a configuration that `expand` returns, each option of each exclusive template's select
-- names a unit of the list of all units: the option's id, unit name and label and the select's
-- scope are that unit's object id, name, friendly name and scope.
pub expand_options_named : (c c' : Config) → expand c ≡ inr c' → All (SelectNames c'.all) c'.selects
unfolding expand
expand_options_named c c' h =
    with_expansion-Names c (expand_from 0 (entries c.templates))
      (expand_from-Names 0 (entries c.templates)) h

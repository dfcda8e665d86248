-- ===== src/Config/Expand/Selects.antt =====
-- The select entities that expansion makes are those of the exclusive templates.
use systemd2mqtt.Base.{
  ℕ, suc, ◌≡◌, refl, sym, ap₂, subst, Bool, Option, none, some, List, [], ◌∷◌, map, true, false,
  if◌then◌else◌, ◌⊎◌, inr, All, All-mono, In, here, there, keep, arith,
}
use systemd2mqtt.Base.Text.{Text}
use systemd2mqtt.Config.Data.{UnitConfig, InstanceConfig, TemplateConfig, TemplateSelect, Config}
use systemd2mqtt.Config.Names.{split_template}
use systemd2mqtt.Config.Load.{entries}
use systemd2mqtt.Config.Expand.{
  expand_instance, select_option, template_units, template_select, fill_template, Expansion,
  ExpandResult, expanded, not_a_template, expand_one, expand_from, expand, with_expansion,
  add_template, set_entries,
}
use systemd2mqtt.Config.Validate.Units.{is_nil}

abbrev pub exclusive_ids : List TemplateConfig → List Text
exclusive_ids ts = map (λ t. t.id) (keep (λ t. t.exclusive) ts)

-- The select is that of one of the templates, and has an option where the template has an instance.
abbrev pub HasTemplate : List TemplateConfig → TemplateSelect → Type 0
HasTemplate ts s =
    (t : TemplateConfig) × In t ts × (s.id ≡ t.id) × (is_nil s.options ≡ is_nil t.instances)

abbrev pub Selects : List TemplateConfig → List TemplateSelect → Type 0
Selects ts ss = (map (λ s. s.id) ss ≡ exclusive_ids ts) × All (HasTemplate ts) ss

abbrev ResultSelects : ExpandResult → Type 0
ResultSelects (not_a_template i name) = Unit
ResultSelects (expanded e) = Selects e.filled e.selects

select-options :
    (t : TemplateConfig) (p q : Text) → is_nil (template_select t p q).options ≡ is_nil t.instances
unfolding template_select template_units
select-options t p q = go t.instances
  where
    go :
        (insts : List InstanceConfig)
        → is_nil (map select_option (map (expand_instance t p q) insts)) ≡ is_nil insts
    go [] = refl
    go (i ∷ insts) = refl

ids_if :
    (b : Bool) (s : TemplateSelect) (t : TemplateConfig) (ss : List TemplateSelect)
    (ts : List TemplateConfig)
    → s.id ≡ t.id
    → map (λ x. x.id) ss ≡ map (λ x. x.id) ts
    → map (λ x. x.id) (if b then s ∷ ss else ss) ≡ map (λ x. x.id) (if b then t ∷ ts else ts)
ids_if true s t ss ts e h = ap₂ ◌∷◌ e h
ids_if false s t ss ts e h = h

All-if :
    (P : TemplateSelect → Type 0) (b : Bool) (s : TemplateSelect) (ss : List TemplateSelect)
    → P s
    → All P ss
    → All P (if b then s ∷ ss else ss)
All-if P true s ss p h = (p, h)
All-if P false s ss p h = h

add_template-Selects :
    (t : TemplateConfig) (us : List UnitConfig) (p q : Text) (r : ExpandResult)
    → ResultSelects r
    → ResultSelects (add_template t us (template_select t p q) r)
add_template-Selects t us p q (not_a_template i name) h = tt
add_template-Selects t us p q (expanded e) h =
    let sel = template_select t p q in
    let same : sel.id ≡ t.id = unfold template_select in refl in
    (
      ids_if t.exclusive sel t e.selects (keep (λ x. x.exclusive) e.filled) same h.0,
      All-if _ t.exclusive sel e.selects (t, here refl, same, select-options t p q)
          (All-mono (λ s k. (k.0, there k.1, k.2, k.3)) e.selects h.1),
    )

expand_one-Selects :
    (i : ℕ) (t : TemplateConfig) (o : Option (Text × Text)) (r : ExpandResult)
    → ResultSelects r
    → ResultSelects (expand_one i t o r)
unfolding expand_one
expand_one-Selects i t none r h = tt
expand_one-Selects i t (some (p, q)) r h =
    let t' = fill_template t p q in add_template-Selects t' (template_units t' p q) p q r h

expand_from-Selects : (i : ℕ) (ts : List TemplateConfig) → ResultSelects (expand_from i ts)
unfolding expand_from
expand_from-Selects i [] = (refl, tt)
expand_from-Selects i (t ∷ ts) =
    expand_one-Selects i t (split_template t.name) (expand_from (suc i) ts)
      (expand_from-Selects (suc i) ts)

pub inr-inj : {A B : Type 0} {x y : B} → ◌≡◌ {A = A ⊎ B} (inr x) (inr y) → x ≡ y
inr-inj h = cc

pub filled_entries :
    (o : Option (List TemplateConfig)) (e : Expansion)
    → expand_from 0 (entries o) ≡ expanded e
    → entries (set_entries e.filled o) ≡ e.filled
unfolding expand_from
filled_entries none e h = ground arith
filled_entries (some ts) e h = refl

with_expansion-Selects :
    (c : Config) (r : ExpandResult) {c' : Config}
    → expand_from 0 (entries c.templates) ≡ r
    → ResultSelects r
    → with_expansion c r ≡ inr c'
    → Selects (entries c'.templates) c'.selects
with_expansion-Selects c (not_a_template i name) e k h = cc
with_expansion-Selects c (expanded x) {c'} e k h =
    subst (λ d. Selects (entries (d.templates)) (d.selects)) (inr-inj h)
      (subst (λ ts. Selects ts x.selects) (sym (filled_entries c.templates x e)) k)

-- The selects of a configuration that `expand` returns have, in order, the ids of its exclusive
-- templates, and each has an option where its template has an instance.
pub expand_selects : (c c' : Config) → expand c ≡ inr c' → Selects (entries c'.templates) c'.selects
unfolding expand
expand_selects c c' h =
    with_expansion-Selects c (expand_from 0 (entries c.templates)) refl
      (expand_from-Selects 0 (entries c.templates)) h

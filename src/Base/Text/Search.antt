-- ===== src/Base/Text/Search.antt =====
-- Prefixes, suffixes, occurrences and separators: `strings.CutPrefix`, `TrimSuffix`, `Index`,
-- `Contains`, `ContainsAny` and `Split` by one code point.
use Prim.Native.Nat.{ℕ}
use mathlib.Core.Path.{◌≡◌, refl, ap}
use mathlib.Core.Logic.{inl, inr}
use mathlib.Core.Bool.{Bool, true, false}
use mathlib.Core.Option.{Option, none, some}
use mathlib.Core.List.{List, [], ◌∷◌, ◌++◌}
use native.Mathlib.Omega.{arith}
use systemd2mqtt.Base.Tests.{if◌then◌else◌, ◌==◌, ==_iff, Bool-cases}
use systemd2mqtt.Base.Lists.{any, All}
use systemd2mqtt.Base.Text.{Text, text_eq}

-- What follows the prefix.
unfoldable pub cut_prefix : Text → Text → Option Text
cut_prefix [] s = some s
cut_prefix (p ∷ ps) [] = none
cut_prefix (p ∷ ps) (c ∷ s) = if p == c then cut_prefix ps s else none

pub cut_prefix-append : (p s : Text) → cut_prefix p (p ++ s) ≡ some s
unfolding cut_prefix
cut_prefix-append [] s = refl
cut_prefix-append (c ∷ p) s = ground (arith, cut_prefix-append p s)

pub cut_prefix_sound : (p s r : Text) → cut_prefix p s ≡ some r → s ≡ p ++ r
unfolding cut_prefix
cut_prefix_sound [] s r h = cc
cut_prefix_sound (c ∷ p) [] r h = cc
cut_prefix_sound (c ∷ p) (d ∷ s) r h = ground (arith, cut_prefix_sound p s r)

-- `trim_suffix suf s` drops `suf` from the end of `s` once.
unfoldable pub trim_suffix : Text → Text → Text
unfolding text_eq
trim_suffix suf [] = []
trim_suffix suf (c ∷ s) = if text_eq (c ∷ s) suf then [] else c ∷ trim_suffix suf s

abbrev pub prepend : ℕ → Option (Text × Text) → Option (Text × Text)
prepend c none = none
prepend c (some (a, b)) = some (c ∷ a, b)

-- The text before the first occurrence of `sub`, and the text from there on.
unfoldable pub index : Text → Text → Option (Text × Text)
unfolding cut_prefix
index sub [] = elim (cut_prefix sub []) [ some r ↦ some ([], []) | none ↦ none ]
index sub (c ∷ s) = elim (cut_prefix sub (c ∷ s)) [
  | some r ↦ some ([], c ∷ s)
  | none ↦ prepend c (index sub s)
]

unfoldable pub contains_any : (ℕ → Bool) → Text → Bool
contains_any p s = any p s

abbrev pub push_head : ℕ → List Text → List Text
push_head c [] = (c ∷ []) ∷ []
push_head c (w ∷ ws) = (c ∷ w) ∷ ws

-- `strings.Split(s, sep)` for a separator of one code point.
unfoldable pub split : ℕ → Text → List Text
split sep [] = [] ∷ []
split sep (c ∷ s) = let rest = split sep s in if c == sep then [] ∷ rest else push_head c rest

-- The separator does not occur.
abbrev pub lacks : ℕ → Text → Bool
lacks sep [] = true
lacks sep (c ∷ s) = if c == sep then false else lacks sep s

pub split-lacks : (sep : ℕ) (s : Text) → lacks sep s ≡ true → split sep s ≡ s ∷ []
unfolding split
split-lacks sep [] h = refl
split-lacks sep (c ∷ s) h = ground (arith, split-lacks sep s)

pub split-append :
    (sep : ℕ) (a b : Text) → lacks sep a ≡ true → split sep (a ++ (sep ∷ b)) ≡ a ∷ split sep b
unfolding split
split-append sep [] b h = ground arith
split-append sep (c ∷ a) b h = ground (arith, split-append sep a b)

-- The words with a separator between each two.
abbrev pub join : ℕ → List Text → Text
join sep [] = []
join sep (w ∷ []) = w
join sep (w ∷ v ∷ ws) = w ++ (sep ∷ join sep (v ∷ ws))

join-push_head : (sep c : ℕ) (ws : List Text) → join sep (push_head c ws) ≡ c ∷ join sep ws
join-push_head sep c [] = refl
join-push_head sep c (w ∷ []) = refl
join-push_head sep c (w ∷ v ∷ ws) = refl

split-ne-nil : (sep : ℕ) (s : Text) → (w : Text) × (ws : List Text) × (split sep s ≡ w ∷ ws)
unfolding split
split-ne-nil sep [] = ([], [], refl)
split-ne-nil sep (c ∷ s) = elim (Bool-cases (c == sep)) [
  | inl same ↦ ([], split sep s, rw same)
  | inr other ↦ let (w, ws, e) = split-ne-nil sep s in (c ∷ w, ws, rw (other, e))
]

pub join-split : (sep : ℕ) (s : Text) → join sep (split sep s) ≡ s
unfolding split
join-split sep [] = refl
join-split sep (c ∷ s) = elim (Bool-cases (c == sep)) [
  | inl same ↦
      let (w, ws, e) = split-ne-nil sep s in
      rw (same, e) (cc ((==_iff c sep).0 same, join-split sep s, ap (join sep) e))
  | inr other ↦ rw other (cc (join-push_head sep c (split sep s), join-split sep s))
]

push_head-lacks :
    (sep c : ℕ) (ws : List Text)
    → (c == sep) ≡ false
    → All (λ w. lacks sep w ≡ true) ws
    → All (λ w. lacks sep w ≡ true) (push_head c ws)
push_head-lacks sep c [] h a = (rw h, tt)
push_head-lacks sep c (w ∷ ws) h a = (rw h a.0, a.1)

pub split-All-lacks : (sep : ℕ) (s : Text) → All (λ w. lacks sep w ≡ true) (split sep s)
unfolding split
split-All-lacks sep [] = (refl, tt)
split-All-lacks sep (c ∷ s) = elim (Bool-cases (c == sep)) [
  | inl same ↦ rw same (refl, split-All-lacks sep s)
  | inr other ↦ rw other (push_head-lacks sep c (split sep s) other (split-All-lacks sep s))
]

pub split-append_any :
    (sep : ℕ) (a b : Text) → split sep (a ++ (sep ∷ b)) ≡ split sep a ++ split sep b
unfolding split
split-append_any sep [] b = ground arith
split-append_any sep (c ∷ a) b = elim (Bool-cases (c == sep)) [
  | inl same ↦ rw same (ap (◌∷◌ []) (split-append_any sep a b))
  | inr other ↦ let (w, ws, e) = split-ne-nil sep a in rw (other, split-append_any sep a b, e)
]

-- ===== src/Config/Names/Template.antt =====
-- Template unit names: `splitTemplate` cuts a name in two pieces that make it up.
use systemd2mqtt.Base.{
  ℕ, ◌≡◌, ◌≢◌, refl, ap, true, Option, none, some, [], ◌∷◌, ◌++◌, append_assoc, arith,
}
use systemd2mqtt.Base.Text.{Text, text}
use systemd2mqtt.Base.Text.Search.{cut_prefix, index, prepend, lacks}
use systemd2mqtt.Config.Names.{cut_at, split_template}

-- What `index` finds is a cut of the text, and the second piece begins with the text sought.
abbrev Found : Text → Text → Option (Text × Text) → Type 0
Found sub s none = Unit
Found sub s (some (a, b)) = (s ≡ a ++ b) × ((r : Text) × (cut_prefix sub b ≡ some r))

prepend-Found :
    (sub : Text) (c : ℕ) (s : Text) (o : Option (Text × Text))
    → Found sub s o
    → Found sub (c ∷ s) (prepend c o)
prepend-Found sub c s none f = tt
prepend-Found sub c s (some (a, b)) f = (ap (◌∷◌ c) f.0, f.1)

index-Found : (d : ℕ) (sub : Text) (s : Text) → Found (d ∷ sub) s (index (d ∷ sub) s)
unfolding index cut_prefix
index-Found d sub [] = tt
index-Found d sub (c ∷ s) =
    elim (cut_prefix (d ∷ sub) (c ∷ s))
        as (λ o.
          cut_prefix (d ∷ sub) (c ∷ s) ≡ o
          → Found (d ∷ sub) (c ∷ s)
              (elim o [ some r ↦ some ([], c ∷ s) | none ↦ prepend c (index (d ∷ sub) s) ])) [
                | none ↦ λ e. prepend-Found (d ∷ sub) c s (index (d ∷ sub) s) (index-Found d sub s)
                | some r ↦ λ e. (refl, (r, e))
              ]
      refl

cut_two :
    (b d : ℕ) (s r : Text) → cut_prefix (text "@.") (b ∷ d ∷ s) ≡ some r → (b ≡ b'@') × (d ≡ b'.')
unfolding cut_prefix
cut_two b d s r h = ground arith

cut_at-parts :
    (name : Text) (o : Option (Text × Text)) {p q : Text}
    → Found (text "@.") name o
    → cut_at o ≡ some (p, q)
    → (x : Text) × (t : Text) × (p ≡ x ++ text "@")
      × (q ≡ text "." ++ t)
      × (x ≢ [])
      × (t ≢ [])
      × (name ≡ p ++ q)
cut_at-parts name none f h = cc
cut_at-parts name (some ([], b)) f h = cc
cut_at-parts name (some (c ∷ a, [])) f h = cc
cut_at-parts name (some (c ∷ a, b ∷ [])) f h = cc
cut_at-parts name (some (c ∷ a, b ∷ d ∷ [])) f h = cc
cut_at-parts name (some (c ∷ a, b ∷ d ∷ e ∷ t)) (whole, (r, found)) h =
    let (hb, hd) = cut_two b d (e ∷ t) r found in
    (c ∷ a, e ∷ t, cc, cc, (λ z. cc), (λ z. cc), cc (append_assoc (c ∷ a) (b ∷ []) (d ∷ e ∷ t)))

-- A name that `splitTemplate` accepts is the two pieces it returns, put together: the first is
-- a nonempty text and an at sign, the second a dot and a nonempty text.
pub split_template_sound :
    (name p q : Text)
    → split_template name ≡ some (p, q)
    → (x : Text) × (t : Text) × (p ≡ x ++ text "@")
      × (q ≡ text "." ++ t)
      × (x ≢ [])
      × (t ≢ [])
      × (name ≡ p ++ q)
unfolding split_template
split_template_sound name p q h =
    cut_at-parts name (index (text "@.") name) (index-Found b'@' (text ".") name) h

index-at :
    (x t : Text)
    → lacks b'@' x ≡ true
    → index (text "@.") (x ++ (text "@." ++ t)) ≡ some (x, text "@." ++ t)
unfolding index cut_prefix
index-at [] t h = refl
index-at (c ∷ x) t h = ground (arith, index-at x t)

-- Every template unit name is accepted, and cut behind its at sign: a nonempty text with no at
-- sign, then `@.` and a nonempty text.
pub split_template_complete :
    (x t : Text)
    → lacks b'@' x ≡ true
    → x ≢ []
    → t ≢ []
    → split_template (x ++ (text "@." ++ t)) ≡ some (x ++ text "@", text "." ++ t)
unfolding split_template
split_template_complete [] t h n m = absurd (n refl)
split_template_complete (c ∷ x) [] h n m = absurd (m refl)
split_template_complete (c ∷ x) (e ∷ t) h n m = rw (index-at (c ∷ x) (e ∷ t) h, cut_at)

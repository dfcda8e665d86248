-- ===== src/Base/Text/Trimmed.antt =====
-- What trimming keeps of a text: the class of its code points and its single separators.
use Prim.Native.Nat.{ℕ}
use mathlib.Core.Path.{◌≡◌, refl}
use mathlib.Core.Bool.{Bool, true, false}
use mathlib.Core.List.{[], ◌∷◌}
use native.Mathlib.Omega.{arith}
use systemd2mqtt.Base.Tests.{◌==◌}
use systemd2mqtt.Base.Lists.{all}
use systemd2mqtt.Base.Text.{Text}
use systemd2mqtt.Base.Text.Space.{
  trim_left, trim_right, trim, cons_right, starts_clean, ends_clean, trim_left-starts_clean,
  trim_right-starts_clean, trim_right-ends_clean, trim_left_clean, trim_right_clean,
}
use systemd2mqtt.Base.Text.Runs.{singles, singles_weaken}

all-trim_left : (p q : ℕ → Bool) (s : Text) → all q s ≡ true → all q (trim_left p s) ≡ true
unfolding trim_left
all-trim_left p q [] h = refl
all-trim_left p q (c ∷ s) h = ground (arith, all-trim_left p q s)

all-cons_right :
    (p q : ℕ → Bool) (c : ℕ) (s : Text)
    → q c ≡ true
    → all q s ≡ true
    → all q (cons_right p c s) ≡ true
all-cons_right p q c [] a b = ground arith
all-cons_right p q c (d ∷ s) a b = ground arith

all-trim_right : (p q : ℕ → Bool) (s : Text) → all q s ≡ true → all q (trim_right p s) ≡ true
unfolding trim_right
all-trim_right p q [] h = refl
all-trim_right p q (c ∷ s) h =
    ground (arith, all-trim_right p q s, all-cons_right p q c (trim_right p s))

pub all-trim : (p q : ℕ → Bool) (s : Text) → all q s ≡ true → all q (trim p s) ≡ true
unfolding trim
all-trim p q s h = all-trim_right p q (trim_left p s) (all-trim_left p q s h)

singles-trim_left :
    (p : ℕ → Bool) (sep : ℕ) (s : Text)
    → singles sep false s ≡ true
    → singles sep false (trim_left p s) ≡ true
unfolding trim_left
singles-trim_left p sep [] h = refl
singles-trim_left p sep (c ∷ s) h = ground (arith, singles-trim_left p sep s, singles_weaken sep s)

singles-cons_right :
    (p : ℕ → Bool) (sep : ℕ) (r : Bool) (c : ℕ) (s : Text)
    → singles sep r (c ∷ s) ≡ true
    → singles sep r (cons_right p c s) ≡ true
singles-cons_right p sep r c [] h = ground arith
singles-cons_right p sep r c (d ∷ s) h = h

singles-trim_right :
    (p : ℕ → Bool) (sep : ℕ) (r : Bool) (s : Text)
    → singles sep r s ≡ true
    → singles sep r (trim_right p s) ≡ true
unfolding trim_right
singles-trim_right p sep r [] h = refl
singles-trim_right p sep r (c ∷ s) h =
    singles-cons_right p sep r c (trim_right p s)
      (ground (arith, singles-trim_right p sep (c == sep) s))

pub singles-trim :
    (p : ℕ → Bool) (sep : ℕ) (s : Text)
    → singles sep false s ≡ true
    → singles sep false (trim p s) ≡ true
unfolding trim
singles-trim p sep s h =
    singles-trim_right p sep false (trim_left p s) (singles-trim_left p sep s h)

pub trim-starts_clean : (p : ℕ → Bool) (s : Text) → starts_clean p (trim p s) ≡ true
unfolding trim
trim-starts_clean p s = trim_right-starts_clean p (trim_left p s) (trim_left-starts_clean p s)

pub trim-ends_clean : (p : ℕ → Bool) (s : Text) → ends_clean p (trim p s) ≡ true
unfolding trim
trim-ends_clean p s = trim_right-ends_clean p (trim_left p s)

pub trim_clean :
    (p : ℕ → Bool) (s : Text) → starts_clean p s ≡ true → ends_clean p s ≡ true → trim p s ≡ s
unfolding trim
trim_clean p s a b =
    mathlib.Core.Path.subst (λ t. trim_right p t ≡ s)
      (mathlib.Core.Path.sym (trim_left_clean p s a)) (trim_right_clean p s b)

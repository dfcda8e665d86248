-- ===== src/Base/Text/Space.antt =====
-- `strings.TrimSpace` and `strings.Trim` with a set of one code point.
use Prim.Native.Nat.{ℕ}
use mathlib.Core.Path.{◌≡◌, refl}
use mathlib.Core.Bool.{Bool, true, false, ◌&&◌, ◌||◌}
use mathlib.Core.List.{[], ◌∷◌}
use native.Mathlib.Omega.{arith}
use systemd2mqtt.Base.Tests.{if◌then◌else◌, ◌==◌, leb}
use systemd2mqtt.Base.Text.{Text}

-- `unicode.IsSpace`
unfoldable pub is_space : ℕ → Bool
is_space c =
    leb 9 c && leb c 13
    || c == 32
    || c == 0x85
    || c == 0xa0
    || c == 0x1680
    || leb 0x2000 c && leb c 0x200a
    || c == 0x2028
    || c == 0x2029
    || c == 0x202f
    || c == 0x205f
    || c == 0x3000

unfoldable pub trim_left : (ℕ → Bool) → Text → Text
trim_left p [] = []
trim_left p (c ∷ s) = if p c then trim_left p s else c ∷ s

-- A dropped code point stays dropped only while nothing is kept behind it.
abbrev pub cons_right : (ℕ → Bool) → ℕ → Text → Text
cons_right p c [] = if p c then [] else c ∷ []
cons_right p c (d ∷ s) = c ∷ d ∷ s

unfoldable pub trim_right : (ℕ → Bool) → Text → Text
trim_right p [] = []
trim_right p (c ∷ s) = cons_right p c (trim_right p s)

unfoldable pub trim : (ℕ → Bool) → Text → Text
unfolding trim_left trim_right
trim p s = trim_right p (trim_left p s)

unfoldable pub trim_space : Text → Text
unfolding trim is_space
trim_space s = trim is_space s

-- No code point at either end passes the test.
abbrev pub starts_clean : (ℕ → Bool) → Text → Bool
starts_clean p [] = true
starts_clean p (c ∷ s) = if p c then false else true

pub trim_left-starts_clean : (p : ℕ → Bool) (s : Text) → starts_clean p (trim_left p s) ≡ true
unfolding trim_left
trim_left-starts_clean p [] = refl
trim_left-starts_clean p (c ∷ s) = ground (arith, trim_left-starts_clean p s)

pub trim_left_clean : (p : ℕ → Bool) (s : Text) → starts_clean p s ≡ true → trim_left p s ≡ s
unfolding trim_left
trim_left_clean p [] h = refl
trim_left_clean p (c ∷ s) h = ground arith

pub trim_right-starts_clean :
    (p : ℕ → Bool) (s : Text) → starts_clean p s ≡ true → starts_clean p (trim_right p s) ≡ true
unfolding trim_right
trim_right-starts_clean p [] h = refl
trim_right-starts_clean p (c ∷ s) h = ground arith

abbrev pub ends_clean : (ℕ → Bool) → Text → Bool
ends_clean p [] = true
ends_clean p (c ∷ []) = if p c then false else true
ends_clean p (c ∷ d ∷ s) = ends_clean p (d ∷ s)

pub trim_right-ends_clean : (p : ℕ → Bool) (s : Text) → ends_clean p (trim_right p s) ≡ true
unfolding trim_right
trim_right-ends_clean p [] = refl
trim_right-ends_clean p (c ∷ s) = ground (arith, trim_right-ends_clean p s)

pub trim_right_clean : (p : ℕ → Bool) (s : Text) → ends_clean p s ≡ true → trim_right p s ≡ s
unfolding trim_right
trim_right_clean p [] h = refl
trim_right_clean p (c ∷ []) h = ground arith
trim_right_clean p (c ∷ d ∷ s) h = ground (arith, trim_right_clean p (d ∷ s) h)

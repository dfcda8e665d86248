-- ===== src/Base/Text.antt =====
-- Texts: Go strings that are valid UTF-8, as lists of code points, with the functions of the
-- packages `strings` and `unicode` that the program calls.
pub mod Space
pub mod Case
pub mod Search
pub mod Runs
pub mod Trimmed
use Prim.Native.Char.{code}
use Prim.Native.Nat.{ℕ}
use Prim.Native.String.{String}
use mathlib.Core.Path.{◌≡◌, refl, subst}
use mathlib.Core.Logic.{◌↔◌}
use mathlib.Core.Bool.{Bool, true, false, ◌&&◌, ◌||◌}
use mathlib.Core.List.{List, [], ◌∷◌, ◌++◌}
use native.Mathlib.Omega.{arith}
use systemd2mqtt.Base.Tests.{◌==◌, ==_iff, &&-true}
use systemd2mqtt.Base.Lists.{In, here, there}

abbrev pub Text : Type 0
Text = List ℕ

-- A literal.
abbrev pub text : String → Text
text String.[] = []
text (String.◌∷◌ c s) = code c ∷ text s

-- `a == b`
unfoldable pub text_eq : Text → Text → Bool
text_eq [] [] = true
text_eq [] (b ∷ bs) = false
text_eq (a ∷ as') [] = false
text_eq (a ∷ as') (b ∷ bs) = (a == b) && text_eq as' bs

pub text_eq-true : (a b : Text) → text_eq a b ≡ true → a ≡ b
unfolding text_eq
text_eq-true [] [] h = refl
text_eq-true [] (b ∷ bs) h = cc
text_eq-true (a ∷ as') [] h = cc
text_eq-true (a ∷ as') (b ∷ bs) h =
    cc ((==_iff a b).0 (&&-true (a == b) _ h).0, text_eq-true as' bs (&&-true (a == b) _ h).1)

pub text_eq_refl : (a : Text) → text_eq a a ≡ true
unfolding text_eq
text_eq_refl [] = refl
text_eq_refl (a ∷ as') = ground (arith, text_eq_refl as')

pub text_eq_iff : (a b : Text) → (text_eq a b ≡ true) ↔ (a ≡ b)
text_eq_iff a b = (text_eq-true a b, λ e. subst (λ x. text_eq a x ≡ true) e (text_eq_refl a))

-- `slices.Contains`
unfoldable pub contains : List Text → Text → Bool
contains [] a = false
contains (x ∷ xs) a = text_eq x a || contains xs a

pub text_ne : (a b : Text) → text_eq a b ≡ false → a ≡ b → ⊥
text_ne a b h e = cc ((text_eq_iff a b).1 e)

pub text_eq-append : (a b c : Text) → text_eq (a ++ b) (a ++ c) ≡ text_eq b c
unfolding text_eq
text_eq-append [] b c = refl
text_eq-append (x ∷ a) b c = ground (arith, text_eq-append a b c)

pub contains-In : (xs : List Text) (a : Text) → In a xs → contains xs a ≡ true
unfolding contains
contains-In [] a m = elim m [ ]
contains-In (x ∷ xs) a (here e) = ground (arith, text_eq_iff x a, e)
contains-In (x ∷ xs) a (there m) = ground (arith, contains-In xs a m)

-- ===== src/Base/Text/Runs.antt =====
-- `regexp.ReplaceAllString` for a pattern `[^...]+`: each longest run of code points outside a
-- class becomes one separator.
use Prim.Native.Nat.{ℕ}
use mathlib.Core.Path.{◌≡◌, refl}
use mathlib.Core.Bool.{Bool, true, false, ◌&&◌, ◌||◌}
use mathlib.Core.List.{[], ◌∷◌}
use native.Mathlib.Omega.{arith}
use systemd2mqtt.Base.Tests.{if◌then◌else◌, ◌==◌}
use systemd2mqtt.Base.Lists.{all}
use systemd2mqtt.Base.Text.{Text}

abbrev pub emit : Bool → Bool → ℕ → ℕ → Text → Text
emit true in_run sep c rest = c ∷ rest
emit false true sep c rest = rest
emit false false sep c rest = sep ∷ rest

abbrev pub outside : Bool → Bool
outside true = false
outside false = true

-- `in_run` tells that the code point before was outside the class.
unfoldable pub replace_runs : (ℕ → Bool) → ℕ → Bool → Text → Text
replace_runs keep sep in_run [] = []
replace_runs keep sep in_run (c ∷ s) =
    emit (keep c) in_run sep c (replace_runs keep sep (outside (keep c)) s)

-- Each code point is in the class, or is the separator.
abbrev pub in_class : (ℕ → Bool) → ℕ → ℕ → Bool
in_class keep sep c = keep c || c == sep

-- No two separators stand side by side; `after_sep` tells that one stands before the text.
abbrev pub singles : ℕ → Bool → Text → Bool
singles sep after_sep [] = true
singles sep after_sep (c ∷ s) =
    let rest = singles sep (c == sep) s in if c == sep && after_sep then false else rest

pub replace_runs-in_class :
    (keep : ℕ → Bool) (sep : ℕ) (r : Bool) (s : Text)
    → all (in_class keep sep) (replace_runs keep sep r s) ≡ true
unfolding replace_runs
replace_runs-in_class keep sep r [] = refl
replace_runs-in_class keep sep r (c ∷ s) =
    ground (arith, replace_runs-in_class keep sep (outside (keep c)) s)

pub replace_runs-singles :
    (keep : ℕ → Bool) (sep : ℕ) (r : Bool) (s : Text)
    → keep sep ≡ false
    → singles sep r (replace_runs keep sep r s) ≡ true
unfolding replace_runs
replace_runs-singles keep sep r [] h = refl
replace_runs-singles keep sep r (c ∷ s) h =
    ground (arith, replace_runs-singles keep sep (outside (keep c)) s h)

-- A text of that form has no run to replace.
pub replace_runs_clean :
    (keep : ℕ → Bool) (sep : ℕ) (r : Bool) (s : Text)
    → keep sep ≡ false
    → all (in_class keep sep) s ≡ true
    → singles sep r s ≡ true
    → replace_runs keep sep r s ≡ s
unfolding replace_runs
replace_runs_clean keep sep r [] h a b = refl
replace_runs_clean keep sep r (c ∷ s) h a b =
    ground (arith, replace_runs_clean keep sep (outside (keep c)) s h)

pub singles_weaken : (sep : ℕ) (s : Text) → singles sep true s ≡ true → singles sep false s ≡ true
singles_weaken sep [] h = refl
singles_weaken sep (c ∷ s) h = ground arith

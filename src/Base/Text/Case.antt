-- ===== src/Base/Text/Case.antt =====
-- `strings.ToLower` and `strings.ToUpper`, exact on the code points whose image is ASCII.
use Prim.Native.Nat.{ℕ, ◌+◌, ◌-◌}
use mathlib.Core.Bool.{◌&&◌}
use mathlib.Core.List.{map}
use systemd2mqtt.Base.Tests.{if◌then◌else◌, ◌==◌, leb}
use systemd2mqtt.Base.Text.{Text}

-- The long K (the Kelvin sign) and the dotted capital I are the only others that fall to ASCII.
unfoldable pub lower : ℕ → ℕ
lower c =
    if leb b'A' c && leb c b'Z'
    then c + 32
    else if c == 0x212a
    then b'k'
    else if c == 0x130
    then b'i'
    else c

-- The dotless i and the long s are the only others that rise to ASCII.
unfoldable pub upper : ℕ → ℕ
upper c =
    if leb b'a' c && leb c b'z'
    then c - 32
    else if c == 0x131
    then b'I'
    else if c == 0x17f
    then b'S'
    else c

unfoldable pub to_lower : Text → Text
unfolding lower
to_lower s = map lower s

unfoldable pub to_upper : Text → Text
unfolding upper
to_upper s = map upper s

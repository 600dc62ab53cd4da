-- ===== src/Prelude/Texts.antt =====
-- Python's `lower` for ASCII letters, and `in` for texts.
use Prim.Native.Nat.{ℕ, ◌-◌}
use Prim.Native.Char.{Char, code}
use Prim.Native.String.{String, [], ◌∷◌, char_at}
use mathlib.Core.Bool.{Bool, true, false, ◌&&◌}
use mathlib.Core.Option.{Option, none, some}
use text.Mathlib.Text.{find?}
use fossilsafe_t.Prelude.Tests.{leb, if◌then◌else◌}

abbrev pub lower_char : Char → Char
lower_char c =
    if leb 65 (code c) && leb (code c) 90
    then char_at "abcdefghijklmnopqrstuvwxyz" (code c - 65)
    else c

unfoldable pub lower : String → String
lower [] = []
lower (c ∷ s) = lower_char c ∷ lower s

abbrev is_found : Option ℕ → Bool
is_found none = false
is_found (some n) = true

-- `needle in text`
unfoldable pub has : String → String → Bool
has needle text = is_found (find? text needle)

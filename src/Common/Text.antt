-- ===== src/Common/Text.antt =====
-- `strings.TrimSpace` over the characters of a text.
use Prim.Native.Nat.{ℕ}
use Prim.Native.Char.{Char, code}
use Prim.Native.String.{String}
use mathlib.Core.Path.{◌≡◌, ap}
use Prim.Native.String.compare.{cons-nil}
use Prim.Native.String.append.{cons}
use Prim.Native.String.{◌++◌ as append}
use text.Mathlib.Text.{◌==◌ as str_eq, is_eq}
use mathlib.Core.Bool.{Bool, false, ◌&&◌, ◌||◌}
use gitrank.Common.Tests.{leb, ◌==◌, if◌then◌else◌}

-- `unicode.IsSpace`: the code points with the property White_Space.
unfoldable pub is_space : ℕ → Bool
is_space c =
    (leb 9 c && leb c 13)
    || c == 32
    || c == 0x85
    || c == 0xa0
    || c == 0x1680
    || (leb 0x2000 c && leb c 0x200a)
    || c == 0x2028
    || c == 0x2029
    || c == 0x202f
    || c == 0x205f
    || c == 0x3000

trim_left : String → String
trim_left String.[] = String.[]
trim_left (String.◌∷◌ c s) =
    let rest = trim_left s in if is_space (code c) then rest else String.◌∷◌ c s

drop_space : Char → String → String
drop_space c String.[] = if is_space (code c) then String.[] else String.◌∷◌ c String.[]
drop_space c (String.◌∷◌ d t) = String.◌∷◌ c (String.◌∷◌ d t)

trim_right : String → String
unfolding drop_space
trim_right String.[] = String.[]
trim_right (String.◌∷◌ c s) = drop_space c (trim_right s)

unfoldable pub trim_space : String → String
unfolding is_space trim_left trim_right
trim_space s = trim_right (trim_left s)

drop_space-ne :
    (c : Char) (s : String) → is_space (code c) ≡ false → str_eq (drop_space c s) "" ≡ false
unfolding drop_space
drop_space-ne c String.[] h = rw h (ap is_eq (cons-nil c String.[]))
drop_space-ne c (String.◌∷◌ d t) h = ap is_eq (cons-nil c (String.◌∷◌ d t))

-- A text that begins with no space is not trimmed away.
pub trim_space-ne :
    (c : Char) (s : String)
    → is_space (code c) ≡ false
    → str_eq (trim_space (String.◌∷◌ c s)) "" ≡ false
unfolding trim_space trim_left
trim_space-ne c s h = rw h (drop_space-ne c (trim_right s) h)

pub append-ne :
    (c : Char) (s t : String)
    → is_space (code c) ≡ false
    → str_eq (trim_space (append (String.◌∷◌ c s) t)) "" ≡ false
append-ne c s t h = rw (cons c s t) (trim_space-ne c (append s t) h)

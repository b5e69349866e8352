-- ===== src/Common/Words.antt =====
-- Go's `strings`, `strconv` and `path/filepath` functions as the services use them. Letters outside
-- ASCII have no case here.
use Prim.Native.Nat.{ℕ, zero, suc, ◌+◌, ◌/◌, ◌%◌}
use Prim.Native.Char.{Char, code}
use Prim.Native.String.{String, ◌++◌}
use text.Mathlib.Text.{◌==◌ as str_eq}
use mathlib.Core.Bool.{Bool, true, false, not, ◌&&◌, ◌||◌}
use mathlib.Core.List.{List, [], ◌∷◌}
use gitrank.Common.Tests.{◌==◌, ltb, if◌then◌else◌}
use gitrank.Common.Int.{ℤ, pos, negsuc}

abbrev upper_and_lower : List (Char × Char)
upper_and_lower =
    ("A", "a")
    ∷ ("B", "b")
    ∷ ("C", "c")
    ∷ ("D", "d")
    ∷ ("E", "e")
    ∷ ("F", "f")
    ∷ ("G", "g")
    ∷ ("H", "h")
    ∷ ("I", "i")
    ∷ ("J", "j")
    ∷ ("K", "k")
    ∷ ("L", "l")
    ∷ ("M", "m")
    ∷ ("N", "n")
    ∷ ("O", "o")
    ∷ ("P", "p")
    ∷ ("Q", "q")
    ∷ ("R", "r")
    ∷ ("S", "s")
    ∷ ("T", "t")
    ∷ ("U", "u")
    ∷ ("V", "v")
    ∷ ("W", "w")
    ∷ ("X", "x")
    ∷ ("Y", "y")
    ∷ ("Z", "z")
    ∷ []

lower_char : List (Char × Char) → Char → Char
lower_char [] c = c
lower_char ((upper, lower) ∷ rest) c =
    let other = lower_char rest c in if code c == code upper then lower else other

-- `strings.ToLower`
unfoldable pub to_lower : String → String
unfolding lower_char
to_lower String.[] = String.[]
to_lower (String.◌∷◌ c s) = String.◌∷◌ (lower_char upper_and_lower c) (to_lower s)

-- `strings.EqualFold`
abbrev pub equal_fold : String → String → Bool
equal_fold s t = str_eq (to_lower s) (to_lower t)

-- strings.HasPrefix(s, prefix)
unfoldable pub has_prefix : String → String → Bool
has_prefix s String.[] = true
has_prefix String.[] (String.◌∷◌ d t) = false
has_prefix (String.◌∷◌ c s) (String.◌∷◌ d t) =
    let rest = has_prefix s t in if code c == code d then rest else false

-- strings.HasSuffix(s, suffix)
unfoldable pub has_suffix : String → String → Bool
has_suffix String.[] t = str_eq String.[] t
has_suffix (String.◌∷◌ c s) t =
    let rest = has_suffix s t in if str_eq (String.◌∷◌ c s) t then true else rest

-- strings.Contains(s, part)
unfoldable pub contains : String → String → Bool
unfolding has_prefix
contains String.[] part = has_prefix String.[] part
contains (String.◌∷◌ c s) part =
    let rest = contains s part in if has_prefix (String.◌∷◌ c s) part then true else rest

-- strings.ReplaceAll(s, "_", " ")
unfoldable pub spaced : String → String
spaced String.[] = String.[]
spaced (String.◌∷◌ c s) = String.◌∷◌ (if code c == b'_' then " " else c) (spaced s)

-- strings.Join(parts, separator)
unfoldable pub join : List String → String → String
join [] separator = ""
join (s ∷ []) separator = s
join (s ∷ t ∷ rest) separator = s ++ separator ++ join (t ∷ rest) separator

abbrev digit : ℕ → String
digit n =
    if n == 0
    then "0"
    else if n == 1
    then "1"
    else if n == 2
    then "2"
    else if n == 3
    then "3"
    else if n == 4
    then "4"
    else if n == 5
    then "5"
    else if n == 6
    then "6"
    else if n == 7
    then "7"
    else if n == 8
    then "8"
    else "9"

-- The digits of `n`, before those of `tail`; a fuel of `suc n` is enough.
digits : ℕ → ℕ → String → String
digits zero n tail = tail
digits (suc fuel) n tail =
    let more = digits fuel (n / 10) (digit (n % 10) ++ tail) in
    if n / 10 == 0 then digit n ++ tail else more

-- `strconv.Itoa`
unfoldable pub itoa : ℤ → String
unfolding digits
itoa (pos n) = digits (suc n) n ""
itoa (negsuc n) = "-" ++ digits (suc (suc n)) (suc n) ""

-- slices.Contains(values, value)
unfoldable pub member : List String → String → Bool
member [] value = false
member (s ∷ rest) value = str_eq s value || member rest value

-- The length in bytes of the UTF-8 text: len(s).
unfoldable pub byte_length : String → ℕ
byte_length String.[] = 0
byte_length (String.◌∷◌ c s) =
    (if ltb (code c) 0x80
      then 1
      else if ltb (code c) 0x800
      then 2
      else if ltb (code c) 0x10000
      then 3
      else 4)
    + byte_length s

-- The order of Go's strings, which on UTF-8 text is that of the code points: s < t.
unfoldable pub less_string : String → String → Bool
less_string s String.[] = false
less_string String.[] (String.◌∷◌ d t) = true
less_string (String.◌∷◌ c s) (String.◌∷◌ d t) =
    let rest = less_string s t in
    if ltb (code c) (code d) then true else if code c == code d then rest else false

abbrev has_slash : String → Bool
has_slash String.[] = false
has_slash (String.◌∷◌ c s) = code c == b'/' || has_slash s

strip_slashes : String → String
strip_slashes String.[] = String.[]
strip_slashes (String.◌∷◌ c s) =
    let rest = strip_slashes s in
    if code c == b'/' && str_eq rest "" then String.[] else String.◌∷◌ c rest

last_part : String → String
last_part String.[] = String.[]
last_part (String.◌∷◌ c s) =
    let rest = last_part s in
    if has_slash s then rest else if code c == b'/' then s else String.◌∷◌ c s

-- filepath.Base(path)
unfoldable pub base_name : String → String
unfolding strip_slashes last_part
base_name path =
    if str_eq path ""
    then "."
    else if str_eq (last_part (strip_slashes path)) ""
    then "/"
    else last_part (strip_slashes path)

-- filepath.Ext(path)
unfoldable pub extension : String → String
extension String.[] = String.[]
extension (String.◌∷◌ c s) =
    let rest = extension s in
    if not (str_eq rest "")
    then rest
    else if code c == b'.' && not (has_slash s)
    then String.◌∷◌ c s
    else String.[]

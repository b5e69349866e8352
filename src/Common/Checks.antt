-- ===== src/Common/Checks.antt =====
-- A check gives its error, or none; checks follow one another as early returns do.
use mathlib.Core.Bool.{Bool}
use mathlib.Core.Option.{Option, none, some}
use mathlib.Core.Path.{◌≡◌}
use gitrank.Common.Tests.{if◌then◌else◌}

-- The first error of two checks, the second of which is made if the first finds nothing.
unfoldable pub ◌or_then◌ : {E : Type 0} → Option E → Option E → Option E

infixr 4 ◌or_then◌
none or_then second = second
some error or_then second = some error

-- An early return with an error
abbrev pub error_if : {E : Type 0} → Bool → E → Option E
error_if test error = if test then some error else none

pub passes_both :
    {E : Type 0} {first second : Option E}
    → first ≡ none
    → second ≡ none
    → (first or_then second) ≡ none
unfolding ◌or_then◌
passes_both f s = rw f s

-- ===== src/Base/Text.antt =====
-- The parts of Go's `strings` and `strconv` that the program uses, over native texts.
mod Decimal
mod Widths
mod Prefix
unfoldable pub use Decimal.*
unfoldable pub use Widths.*
unfoldable pub use Prefix.*
use Prim.Native.Char.{Char, code}
use Prim.Native.String.{String}
use mathlib.Core.Bool.{Bool, true, false}
use mathlib.Core.List.{List, [], ◌∷◌}
use composable_dra_driver.Base.Tests.{nat_beq, if◌then◌else◌}

-- The part up to the first separator, put before the parts of the rest.
abbrev extend : Char → List String → List String
extend c [] = (String.◌∷◌ c String.[]) ∷ []
extend c (part ∷ parts) = String.◌∷◌ c part ∷ parts

-- strings.Split(s, sep), for a separator of one character. The parts are never empty as a list.
unfoldable pub split : Char → String → List String
split sep String.[] = String.[] ∷ []
split sep (String.◌∷◌ c s) =
    let parts = split sep s in
    if nat_beq (code c) (code sep) then String.[] ∷ parts else extend c parts

-- The last element of a list that `split` returns.
unfoldable pub last_part : List String → String
last_part [] = String.[]
last_part (part ∷ []) = part
last_part (part ∷ next ∷ parts) = last_part (next ∷ parts)

-- ===== src/Base/Text/Widths.antt =====
-- The length of a text in bytes, and s + t.
use Prim.Native.Nat.{ℕ, ◌+◌}
use Prim.Native.Char.{Char, code}
use Prim.Native.String.{String}
use Prim.Native.String.{◌++◌ as append}
use composable_dra_driver.Base.Tests.{ltb, if◌then◌else◌}

-- The bytes of a character and of a text in UTF-8: Go's len of a string.
abbrev pub utf8_width : Char → ℕ
utf8_width c =
    if ltb (code c) 128
    then 1
    else if ltb (code c) 2048
    then 2
    else if ltb (code c) 65536
    then 3
    else 4

unfoldable pub byte_length : String → ℕ
byte_length String.[] = 0
byte_length (String.◌∷◌ c s) = utf8_width c + byte_length s

infixl 65 ◌⧺◌
-- s + t
abbrev pub ◌⧺◌ : String → String → String
s ⧺ t = append s t

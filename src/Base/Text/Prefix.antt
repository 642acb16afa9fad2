-- ===== src/Base/Text/Prefix.antt =====
-- strings.HasPrefix and strings.TrimPrefix.
use Prim.Native.Nat.{◌+◌}
use Prim.Native.Char.{code}
use Prim.Native.String.{String}
use mathlib.Core.Path.{◌≡◌, ap, ap₂, ◌∙◌}
use mathlib.Core.Bool.{Bool, true, false}
use mathlib.Core.Option.{Option, none, some}
use mathlib.Core.Logic.{inl, inr}
use native.Mathlib.Omega.{arith}
use text.Mathlib.TextEquality.{Char-path}
use text.Mathlib.TextLemmas.{nil-append, cons-append}
use composable_dra_driver.Base.Tests.{nat_beq, Bool-cases, if◌then◌else◌}
use composable_dra_driver.Base.Text.Widths.{byte_length, ◌⧺◌}

-- What follows a prefix.
unfoldable pub cut_prefix : String → String → Option String
cut_prefix s String.[] = some s
cut_prefix String.[] (String.◌∷◌ c p) = none
cut_prefix (String.◌∷◌ d s) (String.◌∷◌ c p) =
    let rest = cut_prefix s p in if nat_beq (code d) (code c) then rest else none

abbrev is_cut : Option String → Bool
is_cut none = false
is_cut (some t) = true

abbrev or_all : String → Option String → String
or_all s none = s
or_all s (some t) = t

abbrev pub has_prefix : String → String → Bool
has_prefix s prefix = is_cut (cut_prefix s prefix)

abbrev pub trim_prefix : String → String → String
trim_prefix s prefix = or_all s (cut_prefix s prefix)

pub cut_prefix-append : (p s : String) → cut_prefix (p ⧺ s) p ≡ some s
unfolding cut_prefix
cut_prefix-append String.[] s = ap some (nil-append s)
cut_prefix-append (String.◌∷◌ c p) s =
    rw (cons-append c p s) (ground (arith, cut_prefix-append p s))

pub append-cut_prefix : (s p t : String) → cut_prefix s p ≡ some t → p ⧺ t ≡ s
unfolding cut_prefix
append-cut_prefix s String.[] t e = cc (nil-append t)
append-cut_prefix String.[] (String.◌∷◌ c p) t e = cc
append-cut_prefix (String.◌∷◌ d s) (String.◌∷◌ c p) t e =
    elim (Bool-cases (nat_beq (code d) (code c))) [
      | inl same ↦
          cons-append c p t
          ∙ ap₂ String.◌∷◌ (Char-path c d (ground arith)) (append-cut_prefix s p t (rw same at e))
      | inr other ↦ cc (rw other at e)
    ]

pub byte_length-append : (s t : String) → byte_length (s ⧺ t) ≡ byte_length s + byte_length t
unfolding byte_length
byte_length-append String.[] t = rw (nil-append t) (omega arith)
byte_length-append (String.◌∷◌ c s) t =
    rw (cons-append c s t) (omega (arith, byte_length-append s t))

-- ===== src/Main/Pattern.antt =====
-- main.go: the regular expressions of the command line, each a sequence of character classes with
-- a count, anchored at both ends: `^[..]{8}-[..]{4}$`.
use Prim.Native.Char.{Char}
use text.Mathlib.TextLemmas.{nil-append, cons-append}
use composable_dra_driver.Base.{
  ℕ, zero, suc, ◌+◌, String, Bool, true, false, ◌&&◌, List, [], ◌∷◌, ◌≡◌, refl, ap, ap₂, sym, ◌∙◌,
  ◌↔◌, arith,
}
use composable_dra_driver.Base.Text.{◌⧺◌, byte_length, utf8_width, byte_length-append}

-- A class of characters, and how often it is repeated.
pub record Piece : Type 0 where
  pub count : ℕ
  pub accepts : Char → Bool

-- `count` characters of the class, and then what `rest` matches.
unfoldable pub match_piece : (Char → Bool) → ℕ → (String → Bool) → String → Bool
match_piece accepts zero rest s = rest s
match_piece accepts (suc n) rest String.[] = false
match_piece accepts (suc n) rest (String.◌∷◌ c s) = accepts c && match_piece accepts n rest s

abbrev is_empty : String → Bool
is_empty String.[] = true
is_empty (String.◌∷◌ c s) = false

-- Regexp.MatchString
unfoldable pub match_string : List Piece → String → Bool
unfolding match_piece
match_string [] s = is_empty s
match_string (p ∷ pieces) s = match_piece p.accepts p.count (match_string pieces) s

-- What such an expression describes: a text put together from one part for each piece, of as many
-- characters as the piece says, all of its class.
abbrev pub IsPart : (Char → Bool) → ℕ → String → Type 0
IsPart accepts zero String.[] = Unit
IsPart accepts zero (String.◌∷◌ c s) = ⊥
IsPart accepts (suc n) String.[] = ⊥
IsPart accepts (suc n) (String.◌∷◌ c s) = (accepts c ≡ true) × IsPart accepts n s

abbrev pub Describes : List Piece → String → Type 0
Describes [] s = s ≡ ""
Describes (p ∷ pieces) s =
    (part : String) × (rest : String) × (s ≡ part ⧺ rest)
    × IsPart p.accepts p.count part
    × Describes pieces rest

abbrev Splits : (Char → Bool) → ℕ → (String → Type 0) → String → Type 0
Splits accepts n P s =
    (part : String) × (rest : String) × (s ≡ part ⧺ rest) × IsPart accepts n part × P rest

and-true : (a b : Bool) → a && b ≡ true → (a ≡ true) × (b ≡ true)
and-true true b h = (refl, h)
and-true false b h = cc

match_piece-Splits :
    (accepts : Char → Bool) (n : ℕ) (rest : String → Bool) (P : String → Type 0) (s : String)
    → ((t : String) → rest t ≡ true → P t)
    → match_piece accepts n rest s ≡ true
    → Splits accepts n P s
unfolding match_piece
match_piece-Splits accepts zero rest P s f h = ("", s, sym (nil-append s), tt, f s h)
match_piece-Splits accepts (suc n) rest P String.[] f h = cc
match_piece-Splits accepts (suc n) rest P (String.◌∷◌ c s) f h =
    let (here, later) = and-true (accepts c) _ h in
    let (part, t, e, is, p) = match_piece-Splits accepts n rest P s f later in
    (String.◌∷◌ c part, t, ap (String.◌∷◌ c) e ∙ sym (cons-append c part t), (here, is), p)

match_piece-append :
    (accepts : Char → Bool) (n : ℕ) (rest : String → Bool) (part t : String)
    → IsPart accepts n part
    → match_piece accepts n rest (part ⧺ t) ≡ rest t
unfolding match_piece
match_piece-append accepts zero rest String.[] t h = ap rest (nil-append t)
match_piece-append accepts zero rest (String.◌∷◌ c s) t h = absurd h
match_piece-append accepts (suc n) rest String.[] t h = absurd h
match_piece-append accepts (suc n) rest (String.◌∷◌ c s) t (here, h) =
    rw (cons-append c s t) (rw here (match_piece-append accepts n rest s t h))

empty : (s : String) → is_empty s ≡ true → s ≡ ""
empty String.[] h = refl
empty (String.◌∷◌ c s) h = cc

match_string-Describes : (ps : List Piece) (s : String) → match_string ps s ≡ true → Describes ps s
unfolding match_string
match_string-Describes [] s h = empty s h
match_string-Describes (p ∷ ps) s h =
    match_piece-Splits p.accepts p.count (match_string ps) (Describes ps) s
      (match_string-Describes ps) h

Describes-match_string : (ps : List Piece) (s : String) → Describes ps s → match_string ps s ≡ true
unfolding match_string
Describes-match_string [] s h = rw h refl
Describes-match_string (p ∷ ps) s (part, rest, e, is, d) =
    ap (match_piece p.accepts p.count (match_string ps)) e
    ∙ match_piece-append p.accepts p.count (match_string ps) part rest is
    ∙ Describes-match_string ps rest d

-- The matcher accepts exactly the texts that are put together from the parts that the expression
-- describes, one for each piece.
pub match_string_iff : (ps : List Piece) (s : String) → (match_string ps s ≡ true) ↔ Describes ps s
match_string_iff ps s = (match_string-Describes ps s, Describes-match_string ps s)

-- A class of ASCII characters has one byte for each.
abbrev pub IsNarrow : Piece → Type 0
IsNarrow p = (c : Char) → p.accepts c ≡ true → utf8_width c ≡ 1

pub byte_length-IsPart :
    (p : Piece) (n : ℕ) (s : String) → IsNarrow p → IsPart p.accepts n s → byte_length s ≡ n
unfolding byte_length
byte_length-IsPart p zero String.[] narrow h = refl
byte_length-IsPart p zero (String.◌∷◌ c s) narrow h = absurd h
byte_length-IsPart p (suc n) String.[] narrow h = absurd h
byte_length-IsPart p (suc n) (String.◌∷◌ c s) narrow (here, h) =
    omega (arith, narrow c here, byte_length-IsPart p n s narrow h)

abbrev pub total : List Piece → ℕ
total [] = 0
total (p ∷ ps) = p.count + total ps

abbrev pub AreNarrow : List Piece → Type 0
AreNarrow [] = Unit
AreNarrow (p ∷ ps) = IsNarrow p × AreNarrow ps

pub byte_length-Describes :
    (ps : List Piece) (s : String) → AreNarrow ps → Describes ps s → byte_length s ≡ total ps
unfolding byte_length
byte_length-Describes [] s narrow h = rw h refl
byte_length-Describes (p ∷ ps) s (one, narrow) (part, rest, e, is, d) =
    ap byte_length e
    ∙ byte_length-append part rest
    ∙ ap₂ (λ (a b : ℕ). a + b) (byte_length-IsPart p p.count part one is)
        (byte_length-Describes ps rest narrow d)

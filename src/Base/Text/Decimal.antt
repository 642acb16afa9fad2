-- ===== src/Base/Text/Decimal.antt =====
-- strconv.Itoa: the decimal digits of an integer, and that no two integers share a text.
use Prim.Native.Nat.{ℕ, zero, suc, ◌+◌, ◌-◌, ◌*◌, ◌/◌, ◌%◌, ◌≤◌, ◌<◌}
use Prim.Native.Char.{Char, code}
use Prim.Native.String.{String}
use mathlib.Core.Logic.{◌≢◌, ◌⊎◌, inl, inr}
use mathlib.Core.Bool.{false}
use text.Mathlib.TextLemmas.{tail-eq_of_cons-eq}
use mathlib.Core.Path.{◌≡◌, refl, ap, subst, sym, ◌∙◌}
use native.Mathlib.Omega.{arith}
use composable_dra_driver.Base.Tests.{ltb, Bool-cases, if◌then◌else◌}
use composable_dra_driver.Base.Int.{ℤ, pos, negsuc}

unfoldable pub digit : ℕ → Char
digit zero = "0"
digit (suc zero) = "1"
digit (suc (suc zero)) = "2"
digit (suc (suc (suc zero))) = "3"
digit (suc (suc (suc (suc zero)))) = "4"
digit (suc (suc (suc (suc (suc zero))))) = "5"
digit (suc (suc (suc (suc (suc (suc zero)))))) = "6"
digit (suc (suc (suc (suc (suc (suc (suc zero))))))) = "7"
digit (suc (suc (suc (suc (suc (suc (suc (suc zero)))))))) = "8"
digit _ = "9"

code-digit : (d : ℕ) → d < 10 → code (digit d) ≡ 48 + d
unfolding digit
code-digit zero h = refl
code-digit (suc zero) h = refl
code-digit (suc (suc zero)) h = refl
code-digit (suc (suc (suc zero))) h = refl
code-digit (suc (suc (suc (suc zero)))) h = refl
code-digit (suc (suc (suc (suc (suc zero))))) h = refl
code-digit (suc (suc (suc (suc (suc (suc zero)))))) h = refl
code-digit (suc (suc (suc (suc (suc (suc (suc zero))))))) h = refl
code-digit (suc (suc (suc (suc (suc (suc (suc (suc zero)))))))) h = refl
code-digit (suc (suc (suc (suc (suc (suc (suc (suc (suc zero))))))))) h = refl
code-digit (suc (suc (suc (suc (suc (suc (suc (suc (suc (suc d)))))))))) h = absurd (omega arith)

-- The digits of `n` before `rest`, the last digit first; one unit of fuel for each digit.
unfoldable decimal : ℕ → ℕ → String → String
decimal zero n rest = rest
decimal (suc f) n rest =
    let more = decimal f (n / 10) (String.◌∷◌ (digit (n % 10)) rest) in
    if ltb n 10 then String.◌∷◌ (digit n) rest else more

unfoldable pub itoa : ℤ → String
unfolding decimal digit
itoa (pos n) = decimal (suc n) n String.[]
itoa (negsuc n) = String.◌∷◌ "-" (decimal (suc (suc n)) (suc n) String.[])

itoa_0 : itoa (pos 0) ≡ "0"
unfolding itoa
itoa_0 = refl

itoa_128 : itoa (pos 128) ≡ "128"
unfolding itoa
itoa_128 = refl

itoa_negative : itoa (negsuc 11) ≡ "-12"
unfolding itoa
itoa_negative = refl

-- The number that a run of digits stands for, after the number read so far.
read : ℕ → String → ℕ
read a String.[] = a
read a (String.◌∷◌ c s) = read (a * 10 + (code c - 48)) s

ltb-false : (n k : ℕ) → ltb n k ≡ false → k ≤ n
ltb-false n k h = ground arith

read-cons_digit :
    (a d : ℕ) (rest : String) → d < 10 → read a (String.◌∷◌ (digit d) rest) ≡ read (a * 10 + d) rest
unfolding read
read-cons_digit a d rest h = rw (code-digit d h) (ap (λ k. read k rest) (omega arith))

-- Enough fuel prints a number that reads back.
read-decimal : (f n : ℕ) (rest : String) → n < f → read 0 (decimal f n rest) ≡ read n rest
unfolding decimal
read-decimal zero n rest h = absurd (omega arith)
read-decimal (suc f) n rest h = elim (Bool-cases (ltb n 10)) [
  | inl small ↦
      rw small (read-cons_digit 0 n rest (ground arith) ∙ ap (λ k. read k rest) (omega arith))
  | inr large ↦ rw large (
      read-decimal f (n / 10) (String.◌∷◌ (digit (n % 10)) rest) (ground arith)
      ∙ read-cons_digit (n / 10) (n % 10) rest (omega arith)
      ∙ ap (λ k. read k rest) (omega arith))
]

decimal_inj : (n m : ℕ) → decimal (suc n) n String.[] ≡ decimal (suc m) m String.[] → n ≡ m
unfolding read
decimal_inj n m e =
    sym (read-decimal (suc n) n String.[] (omega arith))
    ∙ ap (read 0) e
    ∙ read-decimal (suc m) m String.[] (omega arith)

-- A text of digits only, after which any text may follow.
abbrev pub IsDigits : String → Type 0
IsDigits String.[] = Unit
IsDigits (String.◌∷◌ c s) = (48 ≤ code c) × (code c ≤ 57) × IsDigits s

digit-IsDigits :
    (d : ℕ) (rest : String) → d < 10 → IsDigits rest → IsDigits (String.◌∷◌ (digit d) rest)
digit-IsDigits d rest h r = (omega (arith, code-digit d h), omega (arith, code-digit d h), r)

decimal-IsDigits : (f n : ℕ) (rest : String) → IsDigits rest → IsDigits (decimal f n rest)
unfolding decimal
decimal-IsDigits zero n rest r = r
decimal-IsDigits (suc f) n rest r = elim (Bool-cases (ltb n 10)) [
  | inl small ↦ rw small (digit-IsDigits n rest (ground arith) r)
  | inr large ↦
      rw large (decimal-IsDigits f (n / 10) _ (digit-IsDigits (n % 10) rest (omega arith) r))
]

-- The text of an integer: digits, or a minus sign and digits.
pub itoa-shape :
    (z : ℤ) → IsDigits (itoa z) ⊎ ((s : String) × (itoa z ≡ String.◌∷◌ "-" s) × IsDigits s)
unfolding itoa
itoa-shape (pos n) = inl (decimal-IsDigits (suc n) n String.[] tt)
itoa-shape (negsuc n) = inr (_, refl, decimal-IsDigits (suc (suc n)) (suc n) String.[] tt)

minus-not-IsDigits : (t : String) → ¬ IsDigits (String.◌∷◌ "-" t)
minus-not-IsDigits t d = omega arith

-- A text of digits does not begin with a minus sign.
digits-ne-minus : (s t : String) → IsDigits s → s ≡ String.◌∷◌ "-" t → ⊥
digits-ne-minus s t d e = minus-not-IsDigits t (subst IsDigits e d)

-- No two integers have the same text.
pub itoa_inj : (a b : ℤ) → itoa a ≡ itoa b → a ≡ b
unfolding itoa
itoa_inj (pos n) (pos m) e = ap pos (decimal_inj n m e)
itoa_inj (pos n) (negsuc m) e =
    absurd (digits-ne-minus _ _ (decimal-IsDigits (suc n) n String.[] tt) e)
itoa_inj (negsuc n) (pos m) e =
    absurd (digits-ne-minus _ _ (decimal-IsDigits (suc m) m String.[] tt) (sym e))
itoa_inj (negsuc n) (negsuc m) e =
    ap negsuc (omega (arith, decimal_inj (suc n) (suc m) (tail-eq_of_cons-eq e)))

abbrev HasCharacter : String → Type 0
HasCharacter String.[] = ⊥
HasCharacter (String.◌∷◌ c s) = Unit

decimal_after-HasCharacter :
    (f n : ℕ) (rest : String) → HasCharacter rest → HasCharacter (decimal f n rest)
unfolding decimal
decimal_after-HasCharacter zero n rest r = r
decimal_after-HasCharacter (suc f) n rest r = elim (Bool-cases (ltb n 10)) [
  | inl small ↦ rw small tt
  | inr large ↦ rw large (decimal_after-HasCharacter f (n / 10) _ tt)
]

decimal-HasCharacter : (f n : ℕ) → HasCharacter (decimal (suc f) n String.[])
unfolding decimal
decimal-HasCharacter f n = elim (Bool-cases (ltb n 10)) [
  | inl small ↦ rw small tt
  | inr large ↦ rw large (decimal_after-HasCharacter f (n / 10) _ tt)
]

-- The text of an integer is not empty.
pub itoa_nonempty : (z : ℤ) → itoa z ≢ ""
unfolding itoa
itoa_nonempty (pos n) e = subst HasCharacter e (decimal-HasCharacter n n)
itoa_nonempty (negsuc n) e = subst HasCharacter e tt

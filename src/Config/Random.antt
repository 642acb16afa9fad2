-- ===== src/Config/Random.antt =====
-- pkg/config/config.go: RandomString, which makes the ids of requests.
use Prim.Native.Char.{Char, code}
use Prim.Native.String.{String as Text}
use composable_dra_driver.Base.{
  ℕ, suc, zero, ◌≤◌, ◌<◌, String, Option, none, some, List, [], ◌∷◌, Outcome, ok, Action, pure,
  crash, continue, ◌>>=◌, length, get_elem?, ◌≡◌, refl, arith,
}
use composable_dra_driver.Base.Text.{byte_length, IsDigits}

abbrev pub char_set : List Char
char_set = "1" ∷ "2" ∷ "3" ∷ "4" ∷ "5" ∷ "6" ∷ "7" ∷ "8" ∷ "9" ∷ []

-- math/rand's Intn, over the state of its source.
abbrev pub Intn : Type 0 → Type 0
Intn S = ℕ → S → ℕ × S

abbrev draw : {S : Type 0} → Intn S → ℕ → Action S ℕ
draw intn k s = let (i, s') = intn k s in (ok i, s')

abbrev pick : {S : Type 0} → Option Char → Action S Char
pick none = crash
pick (some c) = pure c

-- One character after another; an index out of range panics.
unfoldable pub random_string : {S : Type 0} → Intn S → ℕ → Action S String
random_string intn zero = pure ""
random_string intn (suc n) = do
  i ← draw intn (length char_set)
  c ← pick (get_elem? char_set i)
  rest ← random_string intn n
  pure (Text.◌∷◌ c rest)

abbrev IsDigit : Char → Type 0
IsDigit c = (48 ≤ code c) × (code c ≤ 57)

-- The characters are digits.
char_set_lem : (i : ℕ) → i < 9 → (c : Char) × (get_elem? char_set i ≡ some c) × IsDigit c
char_set_lem zero h = ("1", refl, (omega arith, omega arith))
char_set_lem (suc zero) h = ("2", refl, (omega arith, omega arith))
char_set_lem (suc (suc zero)) h = ("3", refl, (omega arith, omega arith))
char_set_lem (suc (suc (suc zero))) h = ("4", refl, (omega arith, omega arith))
char_set_lem (suc (suc (suc (suc zero)))) h = ("5", refl, (omega arith, omega arith))
char_set_lem (suc (suc (suc (suc (suc zero))))) h = ("6", refl, (omega arith, omega arith))
char_set_lem (suc (suc (suc (suc (suc (suc zero)))))) h = ("7", refl, (omega arith, omega arith))
char_set_lem (suc (suc (suc (suc (suc (suc (suc zero))))))) h =
    ("8", refl, (omega arith, omega arith))
char_set_lem (suc (suc (suc (suc (suc (suc (suc (suc zero)))))))) h =
    ("9", refl, (omega arith, omega arith))
char_set_lem (suc (suc (suc (suc (suc (suc (suc (suc (suc i))))))))) h = absurd (omega arith)

-- A text of `n` digits, one byte each.
abbrev pub IsNumber : ℕ → String → Type 0
IsNumber n t = (byte_length t ≡ n) × IsDigits t

pub data Draws {S : Type 0} (n : ℕ) : Outcome String × S → Type 0 where
  drawn : {t : String} → IsNumber n t → (s : S) → Draws n (ok t, s)

module _ {S : Type 0} (intn : Intn S) (small : (s : S) → (intn 9 s).0 < 9) where
  longer :
      (c : Char) (n : ℕ) (t : String) → IsDigit c → IsNumber n t → IsNumber (suc n) (Text.◌∷◌ c t)
  unfolding byte_length
  longer c n t (low, high) (size, digits) = (ground arith, (low, high, digits))

  prefixed :
      (c : Char) (n : ℕ) (out : Outcome String × S)
      → IsDigit c
      → Draws n out
      → Draws (suc n) (continue out.0 (λ rest. pure (Text.◌∷◌ c rest)) out.1)
  prefixed c n out h (drawn {t} number s) = drawn (longer c n t h number) s

  -- Where the source of numbers below 9 keeps below 9, a random text of any length has that length
  -- in bytes, and is of digits only; no index is out of range.
  pub random_string-Draws : (n : ℕ) (s : S) → Draws n (random_string intn n s)
  unfolding random_string byte_length
  random_string-Draws zero s = drawn (refl, tt) s
  random_string-Draws (suc n) s =
      let (c, e, h) = char_set_lem (intn 9 s).0 (small s) in
      rw e (prefixed c n _ h (random_string-Draws n (intn 9 s).1))

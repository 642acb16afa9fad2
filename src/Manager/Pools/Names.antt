-- ===== src/Manager/Pools/Names.antt =====
-- pkg/manager/manager.go: the names of the pools. The text after the last "c" of "-fabric" is the
-- fabric's number, so the name determines both of its parts.
use Prim.Native.Char.{code}
use text.Mathlib.TextLemmas.{append_cancel_right, append_assoc, cons-append, nil-append}
use composable_dra_driver.Base.{
  ℤ, String, ◌≡◌, refl, sym, ap, ◌∙◌, inl, inr, arith, nat_beq, if◌then◌else◌,
}
use composable_dra_driver.Base.Text.{◌⧺◌, itoa, itoa_inj, itoa-shape, IsDigits}
use composable_dra_driver.Manager.Pools.{pool_name}

-- What follows the last "c" of a text, or else `rest`.
after_c : String → String → String
after_c rest String.[] = rest
after_c rest (String.◌∷◌ c s) = after_c (if nat_beq (code c) b'c' then s else rest) s

after_c-digits : (rest s : String) → IsDigits s → after_c rest s ≡ rest
unfolding after_c
after_c-digits rest String.[] d = refl
after_c-digits rest (String.◌∷◌ c s) d = ground (arith, after_c-digits rest s d.2)

after_c-minus : (rest s : String) → after_c rest (String.◌∷◌ "-" s) ≡ after_c rest s
unfolding after_c
after_c-minus rest s = refl

after_c-itoa : (rest : String) (z : ℤ) → after_c rest (itoa z) ≡ rest
after_c-itoa rest z = elim (itoa-shape z) [
  | inl d ↦ after_c-digits rest (itoa z) d
  | inr (s, e, d) ↦ rw e (after_c-minus rest s ∙ after_c-digits rest s d)
]

after_c-tail : (rest s : String) → after_c rest ("-fabric" ⧺ s) ≡ after_c s s
unfolding after_c
after_c-tail rest s = rw (
  cons-append "-" "fabric" s,
  cons-append "f" "abric" s,
  cons-append "a" "bric" s,
  cons-append "b" "ric" s,
  cons-append "r" "ic" s,
  cons-append "i" "c" s,
  cons-append "c" "" s,
  nil-append s,
)

after_c-fabric : (rest s : String) (z : ℤ) → after_c rest (s ⧺ ("-fabric" ⧺ itoa z)) ≡ itoa z
unfolding after_c
after_c-fabric rest String.[] z =
    rw nil-append (after_c-tail rest (itoa z) ∙ after_c-itoa (itoa z) z)
after_c-fabric rest (String.◌∷◌ c s) z =
    rw (cons-append c s ("-fabric" ⧺ itoa z))
      (after_c-fabric (if nat_beq (code c) b'c' then s ⧺ ("-fabric" ⧺ itoa z) else rest) s z)

pool_name-fabric : (s : String) (z : ℤ) → after_c "" (pool_name s z) ≡ itoa z
unfolding pool_name
pool_name-fabric s z = rw append_assoc (after_c-fabric "" s z)

-- Two pools have the same name only if their device names and their fabrics are the same.
pub pool_name_inj : (s t : String) (a b : ℤ) → pool_name s a ≡ pool_name t b → (s ≡ t) × (a ≡ b)
unfolding pool_name
pool_name_inj s t a b e = (names, fabrics)
  where
    fabrics : a ≡ b
    fabrics = itoa_inj a b (sym (pool_name-fabric s a) ∙ ap (after_c "") e ∙ pool_name-fabric t b)

    names : s ≡ t
    names =
        append_cancel_right s t "-fabric"
          (append_cancel_right _ _ (itoa a) (e ∙ ap (pool_name t) (sym fabrics)))

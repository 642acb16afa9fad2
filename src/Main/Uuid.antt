-- ===== src/Main/Uuid.antt =====
-- main.go: the texts that the format of a UUID describes, in its own words.
use text.Mathlib.TextEquality.{Char-path}
use text.Mathlib.TextLemmas.{append-nil}
use Prim.Native.Char.{Char}
use Prim.Native.String.{String as Text}
use composable_dra_driver.Base.{ℕ, String, ◌≡◌, refl, ap, sym, ◌↔◌, arith}
use composable_dra_driver.Base.Text.{◌⧺◌}
use composable_dra_driver.Main.Pattern.{IsPart, Describes}
use composable_dra_driver.Main.Flags.{is_hex, is_dash, uuid_format}

-- `n` hexadecimal digits.
abbrev pub AreHex : ℕ → String → Type 0
AreHex n s = IsPart is_hex n s

-- 8, 4, 4, 4 and 12 hexadecimal digits with a dash between each two groups.
abbrev pub IsUuid : String → Type 0
IsUuid s =
    (a : String) × (b : String) × (c : String) × (d : String) × (e : String) × (s
      ≡ a ⧺ ("-" ⧺ (b ⧺ ("-" ⧺ (c ⧺ ("-" ⧺ (d ⧺ ("-" ⧺ e))))))))
    × AreHex 8 a
    × AreHex 4 b
    × AreHex 4 c
    × AreHex 4 d
    × AreHex 12 e

dash_part : (s : String) → IsPart is_dash 1 s → s ≡ "-"
dash_part Text.[] h = absurd h
dash_part (Text.◌∷◌ c Text.[]) (h, more) =
    ap (λ (d : Char). Text.◌∷◌ d Text.[]) (Char-path c "-" (ground arith))
dash_part (Text.◌∷◌ c (Text.◌∷◌ d s)) (h, more) = absurd more

pub Describes-IsUuid : (s : String) → Describes uuid_format s → IsUuid s
Describes-IsUuid s
      (
        a,
        r1,
        e1,
        ha,
        (
          p,
          r2,
          e2,
          hp,
          (
            b,
            r3,
            e3,
            hb,
            (
              q,
              r4,
              e4,
              hq,
              (
                c,
                r5,
                e5,
                hc,
                (r, r6, e6, hr, (d, r7, e7, hd, (t, r8, e8, ht, (e, r9, e9, he, last)))),
              ),
            ),
          ),
        ),
      ) =
    (
      a,
      b,
      c,
      d,
      e,
      cc (dash_part p hp, dash_part q hq, dash_part r hr, dash_part t ht, append-nil e),
      ha,
      hb,
      hc,
      hd,
      he,
    )

IsUuid-Describes : (s : String) → IsUuid s → Describes uuid_format s
IsUuid-Describes s (a, b, c, d, e, whole, ha, hb, hc, hd, he) = (
  a,
  _,
  whole,
  ha,
  (
    "-",
    _,
    refl,
    (refl, tt),
    (
      b,
      _,
      refl,
      hb,
      (
        "-",
        _,
        refl,
        (refl, tt),
        (
          c,
          _,
          refl,
          hc,
          (
            "-",
            _,
            refl,
            (refl, tt),
            (d, _, refl, hd, ("-", e, refl, (refl, tt), (e, "", sym (append-nil e), he, refl))),
          ),
        ),
      ),
    ),
  ),
)

pub uuid_format_iff : (s : String) → Describes uuid_format s ↔ IsUuid s
uuid_format_iff s = (Describes-IsUuid s, IsUuid-Describes s)

-- ===== src/Main/Logging.antt =====
-- main.go: replaceAttr, which writes the place of a call in the log.
use composable_dra_driver.Base.{ℤ, String, Option, none, some, ◌==◌, string_eq, if◌then◌else◌}
use composable_dra_driver.Base.Text.{◌⧺◌, itoa}

-- A slog.Attr, with its value as it is printed.
pub record Attr : Type 0 where
  pub key : String
  pub value : String

-- `caller` is runtime.Caller(6), the path and the line if they are known; `base` is filepath.Base.
unfoldable pub replace_attr : Option (String × ℤ) → (String → String) → Attr → Attr
replace_attr caller base attr =
    if attr.key == "source"
    then elim caller [
      | none ↦ attr
      | some (file, line) ↦ record attr { value = base file ⧺ ":" ⧺ itoa line }
    ]
    else attr

-- ===== src/Client/Token/Secrets.antt =====
-- pkg/client/token.go: which secrets are taken.
use composable_dra_driver.Base.{
  ltb, String, Bool, Option, none, some, List, [], ◌∷◌, Outcome, ok, err, ◌≡◌, arith, if◌then◌else◌,
  string_eq,
}
use composable_dra_driver.Base.Dict.{Dict, lookup}
use composable_dra_driver.Base.Text.{◌⧺◌, byte_length}
use composable_dra_driver.Client.Token.{
  IdManagerSecret, secret_access_info_length, or_empty, read_secret,
}

-- The value of a key, "" where there is none, and whether it is short.
abbrev value_of : String → Dict String String → String
value_of name entries = or_empty (lookup name entries)

abbrev is_short : Dict String String → String → Bool
is_short entries name = ltb (byte_length (value_of name entries)) secret_access_info_length

-- The first of the names whose value is too long.
abbrev pub too_long : Dict String String → List String → Option String
too_long entries [] = none
too_long entries (name ∷ rest) = if is_short entries name then too_long entries rest else some name

abbrev pub secret_of : Dict String String → IdManagerSecret
secret_of entries = record {
  username = value_of "username" entries;
  password = value_of "password" entries;
  realm = value_of "realm" entries;
  client_id = value_of "client_id" entries;
  client_secret = value_of "client_secret" entries;
}

abbrev pub verdict : Option String → IdManagerSecret → Outcome IdManagerSecret
verdict none s = ok s
verdict (some name) s = err (name ⧺ " length exceeds the limitation")

-- The secret is taken as it is unless one of its five values has a thousand bytes or more, and then
-- the error names the first such value.
pub read_secret-verdict :
    (entries : Dict String String)
    → read_secret entries
      ≡ verdict
          (too_long entries
            ("username" ∷ "password" ∷ "realm" ∷ "client_id" ∷ "client_secret" ∷ []))
          (secret_of entries)
unfolding read_secret
read_secret-verdict entries = ground arith

-- ===== src/Client/Token.antt =====
-- pkg/client/token.go: the access token of the CDI components, from the secret to the cache.
pub mod Secrets
pub mod Cache
pub mod Concurrent
use composable_dra_driver.Base.{
  ℕ, ◌*◌, ℤ, ltb, ltb_ℤ, sub_nat, scale, String, Bool, true, false, Option, none, some, List, [],
  ◌∷◌, Outcome, ok, err, panic, Action, and_then, continue, lift, ◌>>=◌, if◌then◌else◌, ◌==◌,
  string_eq,
}
use composable_dra_driver.Base.Dict.{Dict, lookup}
use composable_dra_driver.Base.Text.{◌⧺◌, split, byte_length}
use composable_dra_driver.KubeUtils.Objects.{Secret}
use composable_dra_driver.Client.Types.{ImToken}

abbrev pub secret_key : String
secret_key = "composable-dra/composable-dra-secret"

abbrev pub secret_access_info_length : ℕ
secret_access_info_length = 1000

-- oauth2.Token: its text, and its expiry in nanoseconds since 1970.
pub record Token : Type 0 where
  pub access_token : String
  pub expiry : ℤ

pub record IdManagerSecret : Type 0 where
  pub username : String
  pub password : String
  pub realm : String
  pub client_id : String
  pub client_secret : String

abbrev pub or_empty : Option String → String
or_empty none = ""
or_empty (some t) = t

-- A value of the secret, "" where it is missing, which must be short.
unfoldable pub limited : String → Dict String String → Outcome String
limited name entries =
    let value = or_empty (lookup name entries) in
    if ltb (byte_length value) secret_access_info_length
    then ok value
    else err (name ⧺ " length exceeds the limitation")

unfoldable pub read_secret : Dict String String → Outcome IdManagerSecret
unfolding limited
read_secret entries = and_then (limited "username" entries) λ u.
    and_then (limited "password" entries) λ p. and_then (limited "realm" entries) λ r.
      and_then (limited "client_id" entries) λ i.
        and_then (limited "client_secret" entries) λ s.
          ok (record { username = u; password = p; realm = r; client_id = i; client_secret = s })

-- A secret with no data gives empty texts.
abbrev secret_in : Option (Dict String String) → Outcome IdManagerSecret
secret_in none =
    ok (record { username = ""; password = ""; realm = ""; client_id = ""; client_secret = "" })
secret_in (some entries) = read_secret entries

unfoldable pub get_id_manager_secret : Outcome Secret → Outcome IdManagerSecret
unfolding read_secret
get_id_manager_secret secret = and_then secret λ s. secret_in s.entries

-- encoding/base64's RawURLEncoding.DecodeString, and json.Unmarshal of the `exp` of the claims.
pub record TokenCodec : Type 0 where
  pub decode_string : String → Outcome String
  pub expiry_in : String → Outcome ℤ

abbrev pub second : List String → Option String
second [] = none
second (a ∷ []) = none
second (a ∷ b ∷ rest) = some b

abbrev pub failing {ℓ} : {A : Type ℓ} → String → Outcome A → Outcome A
failing text (err e) = err (text ⧺ e)
failing text r = r

abbrev pub second_to_nanosecond : ℕ
second_to_nanosecond = 1000000000

-- From the answer to the token: the claims are the second of the parts between dots.
unfoldable pub token_of : TokenCodec → ImToken → Outcome Token
token_of codec im = elim (second (split "." im.access_token)) [
  | none ↦ err ("invalid access token: " ⧺ im.access_token)
  | some part ↦ and_then (failing "failed to decode base64: " (codec.decode_string part)) λ bytes.
      and_then (failing "failed to unmarshal JSON: " (codec.expiry_in bytes)) λ exp.
        ok (record { access_token = im.access_token; expiry = scale exp second_to_nanosecond })
]

-- What the cached source keeps, and the state behind it.
pub record Session (S : Type 0) : Type 0 where
  pub token : Option Token
  pub behind : S

abbrev pub margin_time : ℕ
margin_time = 30 * second_to_nanosecond

-- The token that is kept, if it is there and does not expire within the margin.
unfoldable pub fresh_token : ℤ → Option Token → Option Token
fresh_token now none = none
fresh_token now (some t) = if ltb_ℤ now (sub_nat t.expiry margin_time) then some t else none

-- After an attempt to issue a token: what is answered, and what is kept. An old token serves where
-- no new one comes.
abbrev pub rotate : Option Token → Outcome Token → Outcome Token × Option Token
rotate old (ok new) = (ok new, some new)
rotate none (err e) = (err e, none)
rotate (some t) (err e) = (ok t, some t)
rotate old panic = (panic, old)

module _ {S : Type 0} where
  -- idManagerTokenSource.Token: the secret is read, then the token is asked for under a new
  -- request id.
  unfoldable pub issue_token :
      TokenCodec
      → Outcome Secret
      → (S → String × S)
      → (String → IdManagerSecret → Action S ImToken)
      → Action S Token
  unfolding get_id_manager_secret token_of
  issue_token codec secret request_id get_im_token =
      lift (get_id_manager_secret secret) >>= λ access s.
      let (id, s') = request_id s in (get_im_token id access >>= λ im. lift (token_of codec im)) s'

  -- cachedIMTokenSource.Token at the time `now`, over a source of new tokens.
  unfoldable pub cached_token : Action S Token → ℤ → Action (Session S) Token
  unfolding fresh_token
  cached_token source now s = elim (fresh_token now s.token) [
    | some t ↦ (ok t, s)
    | none ↦
        let (r, behind) = source s.behind in
        let (answer, kept) = rotate s.token r in (answer, record { token = kept; behind = behind })
  ]

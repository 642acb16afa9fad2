-- ===== src/Client/Build.antt =====
-- pkg/client/client.go and token.go: BuildCDIClient and the token source of the client.
pub mod Issuing
use composable_dra_driver.Base.{
  ℕ, ℤ, ltb, String, Option, none, some, Outcome, ok, err, Action, and_then, if◌then◌else◌,
  string_eq,
}
use composable_dra_driver.Base.Dict.{Dict, lookup}
use composable_dra_driver.Base.Text.{byte_length}
use composable_dra_driver.Config.Types.{Config}
use composable_dra_driver.KubeUtils.Objects.{Secret}
use composable_dra_driver.Client.Token.{
  Token, TokenCodec, Session, or_empty, issue_token, cached_token,
}
use composable_dra_driver.Client.Calls.{CdiClient, Network, Json, get_im_token}

abbrev pub secret_certificate_length : ℕ
secret_certificate_length = 10000

-- The certificate is empty where the secret has no data.
abbrev certificate_in : Option (Dict String String) → Outcome String
certificate_in none = ok ""
certificate_in (some entries) =
    let certificate = or_empty (lookup "certificate" entries) in
    if ltb (byte_length certificate) secret_certificate_length
    then ok certificate
    else err "certificate length exceeds the limitation"

-- The client, and the certificate that its transport trusts.
unfoldable pub build_cdi_client : Config → Outcome Secret → Outcome (CdiClient × String)
build_cdi_client config secret = and_then secret λ s.
    and_then (certificate_in s.entries) λ certificate. ok (
      record {
        host = config.cdi_endpoint;
        tenant_id = config.tenant_id;
        cluster_id = config.cluster_id;
      },
      certificate,
    )

-- The source of tokens: `clock` reads time.Now, and `get_secret` the secret at that moment.
unfoldable pub cached_im_token_source :
    {S : Type 0}
    → Network S
    → Json
    → TokenCodec
    → CdiClient
    → (S → Outcome Secret)
    → (S → String × S)
    → (S → ℤ)
    → Action (Session S) Token
unfolding issue_token cached_token
cached_im_token_source network json codec c get_secret request_id clock s =
    cached_token (λ b. issue_token codec (get_secret b) request_id (get_im_token network json c) b)
      (clock s.behind) s

-- ===== src/Client/Build/Issuing.antt =====
-- pkg/client/token.go: what the token source of a client ends with.
use composable_dra_driver.Base.{
  ℤ, String, Bool-cases, ltb, Option, none, some, Option-cases, inl, inr, Outcome, ok, err, panic,
  Action, Runs, Post, returns, throws, and_then-Post, >>=-Runs, lift, ◌≡◌, refl, string_eq,
}
use composable_dra_driver.Base.Dict.{Dict, lookup}
use composable_dra_driver.Base.Text.{split, byte_length}
use composable_dra_driver.KubeUtils.Objects.{Secret}
use composable_dra_driver.Client.Types.{ImToken}
use composable_dra_driver.Client.Token.{
  Token, TokenCodec, or_empty, secret_access_info_length, get_id_manager_secret, read_secret,
  limited, token_of, failing, second, fresh_token, rotate, issue_token, cached_token,
}
use composable_dra_driver.Client.Calls.{Json, Network, CdiClient, get_im_token}
use composable_dra_driver.Client.Calls.Replying.{Whatever, IsReplying, get_im_token-Runs}
use composable_dra_driver.Client.Build.{cached_im_token_source}

limited-Ends : (name : String) (entries : Dict String String) → Post Whatever (limited name entries)
unfolding limited
limited-Ends name entries =
    elim (Bool-cases
      (ltb (byte_length (or_empty (lookup name entries))) secret_access_info_length)) [
        | inl short ↦ rw short (returns tt)
        | inr long ↦ rw long (throws _)
      ]

read_secret-Ends : (entries : Dict String String) → Post Whatever (read_secret entries)
unfolding read_secret
read_secret-Ends entries = and_then-Post (limited-Ends "username" entries) λ u _.
    and_then-Post (limited-Ends "password" entries) λ p _.
      and_then-Post (limited-Ends "realm" entries) λ r _.
        and_then-Post (limited-Ends "client_id" entries)
          λ i _. and_then-Post (limited-Ends "client_secret" entries) λ s _. returns tt

secret_in-Ends :
    (entries : Option (Dict String String)) (secret : Secret)
    → secret.entries ≡ entries
    → Post Whatever (get_id_manager_secret (ok secret))
unfolding get_id_manager_secret
secret_in-Ends none secret e = rw e (returns tt)
secret_in-Ends (some entries) secret e = rw e (read_secret-Ends entries)

get_id_manager_secret-Ends :
    (secret : Outcome Secret) → Post Whatever secret → Post Whatever (get_id_manager_secret secret)
unfolding get_id_manager_secret
get_id_manager_secret-Ends (ok secret) h = secret_in-Ends secret.entries secret refl
get_id_manager_secret-Ends (err e) h = throws e
get_id_manager_secret-Ends panic h = elim h [ ]

-- The decoders of tokens do not panic.
pub record IsDecoding (codec : TokenCodec) : Type 0 where
  pub decodes : (t : String) → Post Whatever (codec.decode_string t)
  pub expires : (t : String) → Post Whatever (codec.expiry_in t)

failing-Ends :
    {A : Type 0} (text : String) {r : Outcome A} → Post Whatever r → Post Whatever (failing text r)
failing-Ends text (returns h) = returns tt
failing-Ends text (throws e) = throws _

token_of-Ends :
    (codec : TokenCodec) (im : ImToken) → IsDecoding codec → Post Whatever (token_of codec im)
unfolding token_of
token_of-Ends codec im d = elim (Option-cases (second (split "." im.access_token))) [
  | inl absent ↦ rw (absent, token_of) (throws _)
  | inr (part, there) ↦
      rw (there, token_of)
        (and_then-Post (failing-Ends _ (d.decodes part))
          λ bytes _. and_then-Post (failing-Ends _ (d.expires bytes)) λ exp _. returns tt)
]

rotate-Ends :
    (old : Option Token) {r : Outcome Token} → Post Whatever r → Post Whatever (rotate old r).0
rotate-Ends old (returns h) = returns tt
rotate-Ends none (throws e) = throws e
rotate-Ends (some t) (throws e) = returns tt

module _ {S : Type 0} where
  cached_token-Runs :
      (source : Action S Token) (now : ℤ)
      → Runs Whatever source
      → Runs Whatever (cached_token source now)
  unfolding cached_token
  cached_token-Runs source now h s = elim (Option-cases (fresh_token now s.token)) [
    | inl old ↦ rw (old, cached_token) (rotate-Ends s.token (h s.behind))
    | inr (t, new) ↦ rw (new, cached_token) (returns tt)
  ]

  module _ (network : Network S) (json : Json) (replying : IsReplying network json)
      (codec : TokenCodec) (decoding : IsDecoding codec) (c : CdiClient)
      (get_secret : S → Outcome Secret) (secrets : (s : S) → Post Whatever (get_secret s))
      (request_id : S → String × S) where
    issue_token-Runs :
        (secret : Outcome Secret)
        → Post Whatever secret
        → Runs Whatever (issue_token codec secret request_id (get_im_token network json c))
    unfolding issue_token
    issue_token-Runs secret h =
        >>=-Runs (lift (get_id_manager_secret secret)) _ (λ s. get_id_manager_secret-Ends secret h)
          λ access _ s.
            let (id, s') = request_id s in
            >>=-Runs (get_im_token network json c id access) _
              (get_im_token-Runs network json replying c id access)
              (λ im _ t. token_of-Ends codec im decoding) s'

    -- The source of tokens ends with a token or an error.
    pub cached_im_token_source-Runs :
        (clock : S → ℤ)
        → Runs Whatever (cached_im_token_source network json codec c get_secret request_id clock)
    unfolding cached_im_token_source
    cached_im_token_source-Runs clock s =
        cached_token-Runs
          (λ b. issue_token codec (get_secret b) request_id (get_im_token network json c) b)
          (clock s.behind) (λ b. issue_token-Runs (get_secret b) (secrets b) b) s

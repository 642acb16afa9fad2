-- ===== src/Client/Calls/Authorized.antt =====
-- pkg/client/client.go: which requests the five calls make.
use mathlib.Core.Path.{fun_ext}
use composable_dra_driver.Base.{
  ℤ, ap, subst, none, ◌⊎◌, String, some, [], ◌∷◌, Outcome, ok, err, panic, Action, ◌≡◌, refl, ◌∙◌,
  continue, inl, inr, string_eq,
}
use composable_dra_driver.Base.Dict.{lookup, insert, remove}
use composable_dra_driver.Base.Order.{Range}
use composable_dra_driver.Base.Text.{◌⧺◌}
use composable_dra_driver.Client.Types.{CmNodeGroup}
use composable_dra_driver.KubeUtils.Objects.{Secret}
use composable_dra_driver.Client.Token.{Token, TokenCodec, Session, issue_token, cached_token}
use composable_dra_driver.Client.Build.{cached_im_token_source}
use composable_dra_driver.Client.Request.{
  Request, append_value, add_header, new_request, set_header, set_host, set_path, set_query,
  set_body,
}
use composable_dra_driver.Client.Calls.{
  Json, Network, CdiClient, exchange, new_http_request, new_http_request_cases, call,
  get_fm_machine_list, get_fm_available_reserved_resources, get_cm_node_groups,
  get_cm_node_group_info, get_cm_node_details, get_im_token, behind,
}

-- A GET of the client's host over https that bears the token.
abbrev pub IsAuthorized : CdiClient → Token → Request → Type 0
IsAuthorized c t r =
    (r.method ≡ "GET")
    × (r.scheme ≡ "https")
    × (r.host ≡ c.host)
    × (lookup "Authorization" r.headers ≡ some (("Bearer " ⧺ t.access_token) ∷ []))

-- A POST to id_manager over https on the client's host that bears no token.
abbrev pub IsLogin : CdiClient → Request → Type 0
IsLogin c r =
    (r.method ≡ "POST")
    × (r.scheme ≡ "https")
    × (r.host ≡ c.host)
    × ((realm : String) × (r.path
          ≡ "id_manager/realms/" ⧺ realm ⧺ "/protocol/openid-connect/token"))
    × (lookup "Authorization" r.headers ≡ none)

abbrev pub IsPermitted : CdiClient → Request → Type 0
IsPermitted c r = ((t : Token) × IsAuthorized c t r) ⊎ IsLogin c r

-- Two networks that treat both kinds of request alike.
abbrev pub Alike : {S : Type 0} → CdiClient → Network S → Network S → Type 0
Alike {S} c m n =
    (r : Request)
    → IsPermitted c r
    → (m.refuses r ≡ n.refuses r) × ((id : String) → m.client_do id r ≡ n.client_do id r)

call-Alike :
    {S A : Type 0} (c : CdiClient) (m n : Network S) (json : Json) (type : String)
    (read : String → Outcome A) (id : String) (r : Request) (s : S)
    → Alike c m n
    → IsPermitted c r
    → call m json type read id r s ≡ call n json type read id r s
unfolding call exchange
call-Alike c m n json type read id r s alike permitted =
    let (refused, exchanged) = alike r permitted in
    let made : new_http_request m json r ≡ new_http_request n json r =
      rw (refused, new_http_request) refl in
    elim (new_http_request_cases n json r) [
      | inl (free, p) ↦ rw (made ∙ p, p, exchanged id, call, exchange) refl
      | inr (e, why, p) ↦ rw (made ∙ p, p, call) refl
    ]

module _ {S : Type 0} (c : CdiClient) (m n : Network S) (json : Json) (range : Range)
    (token : Action (Session S) Token) (alike : Alike c m n) where
  continue-Alike :
      {A : Type 0} (type : String) (read : String → Outcome A) (id : String)
      (build : Token → Request) (answer : Outcome Token) (s : Session S)
      → ((t : Token) → IsAuthorized c t (build t))
      → continue answer (λ t. behind m json (call m json type read id (build t))) s
        ≡ continue answer (λ t. behind n json (call n json type read id (build t))) s
  continue-Alike type read id build (ok t) s auth =
      rw (call-Alike c m n json type read id (build t) s.behind alike (inl (t, auth t))) refl
  continue-Alike type read id build (err e) s auth = refl
  continue-Alike type read id build panic s auth = refl

  -- The five calls, with one source of tokens.
  bearing-Alike :
      (id muuid model : String) (group : CmNodeGroup) (s : Session S)
      → (get_fm_machine_list m json range token c id s
          ≡ get_fm_machine_list n json range token c id s)
        × (get_fm_available_reserved_resources m json range token c id muuid model s
            ≡ get_fm_available_reserved_resources n json range token c id muuid model s)
        × (get_cm_node_groups m json range token c id s
            ≡ get_cm_node_groups n json range token c id s)
        × (get_cm_node_group_info m json range token c id group s
            ≡ get_cm_node_group_info n json range token c id group s)
        × (get_cm_node_details m json range token c id muuid s
            ≡ get_cm_node_details n json range token c id muuid s)
  unfolding get_fm_machine_list get_fm_available_reserved_resources get_cm_node_groups
      get_cm_node_group_info get_cm_node_details new_request set_header set_host set_path set_query
      lookup insert remove append_value add_header
  bearing-Alike id muuid model group s = (
    continue-Alike "*client.FMMachineList" _ id _ (token s).0 (token s).1
        (λ t. (refl, refl, refl, refl)),
    continue-Alike "*client.FMAvailableReservedResources" _ id _ (token s).0 (token s).1
        (λ t. (refl, refl, refl, refl)),
    continue-Alike "*client.CMNodeGroups" _ id _ (token s).0 (token s).1
        (λ t. (refl, refl, refl, refl)),
    continue-Alike "*client.CMNodeGroupInfo" _ id _ (token s).0 (token s).1
        (λ t. (refl, refl, refl, refl)),
    continue-Alike "*client.CMNodeDetails" _ id _ (token s).0 (token s).1
        (λ t. (refl, refl, refl, refl)),
  )

module _ {S : Type 0} (c : CdiClient) (m n : Network S) (json : Json) (range : Range)
    (codec : TokenCodec) (get_secret : S → Outcome Secret) (request_id : S → String × S)
    (clock : S → ℤ) where
  get_im_token-Alike : Alike c m n → get_im_token m json c ≡ get_im_token n json c
  unfolding get_im_token new_request set_host set_path set_body set_header lookup insert remove
      append_value add_header
  get_im_token-Alike alike = fun_ext λ id. fun_ext λ secret. fun_ext λ s.
      call-Alike c m n json "*client.IMToken" json.im_token id _ s alike
        (inr (refl, refl, refl, (secret.realm, refl), refl))

  -- The source of tokens of the program, over a network.
  abbrev pub source_over : Network S → Action (Session S) Token
  source_over network = cached_im_token_source network json codec c get_secret request_id clock

  source-Alike : Alike c m n → source_over m ≡ source_over n
  unfolding cached_im_token_source
  source-Alike alike =
      ap
        (λ get. λ (s : Session S).
          cached_token (λ b. issue_token codec (get_secret b) request_id get b) (clock s.behind) s)
        (get_im_token-Alike alike)

  -- The five calls, with the program's own source of tokens, make no requests but two kinds, all of them
  -- over https to the client's host: GET requests that bear a token, and POST requests for a token
  -- to id_manager, which bear none. Over two networks that treat those alike they behave alike.
  pub calls-Alike :
      Alike c m n
      → (id muuid model : String) (group : CmNodeGroup) (s : Session S)
      → (get_fm_machine_list m json range (source_over m) c id s
          ≡ get_fm_machine_list n json range (source_over n) c id s)
        × (get_fm_available_reserved_resources m json range (source_over m) c id muuid model s
            ≡ get_fm_available_reserved_resources n json range (source_over n) c id muuid model s)
        × (get_cm_node_groups m json range (source_over m) c id s
            ≡ get_cm_node_groups n json range (source_over n) c id s)
        × (get_cm_node_group_info m json range (source_over m) c id group s
            ≡ get_cm_node_group_info n json range (source_over n) c id group s)
        × (get_cm_node_details m json range (source_over m) c id muuid s
            ≡ get_cm_node_details n json range (source_over n) c id muuid s)
  calls-Alike alike id muuid model group s =
      subst
        (λ token.
          (get_fm_machine_list m json range (source_over m) c id s
            ≡ get_fm_machine_list n json range token c id s)
          × (get_fm_available_reserved_resources m json range (source_over m) c id muuid model s
              ≡ get_fm_available_reserved_resources n json range token c id muuid model s)
          × (get_cm_node_groups m json range (source_over m) c id s
              ≡ get_cm_node_groups n json range token c id s)
          × (get_cm_node_group_info m json range (source_over m) c id group s
              ≡ get_cm_node_group_info n json range token c id group s)
          × (get_cm_node_details m json range (source_over m) c id muuid s
              ≡ get_cm_node_details n json range token c id muuid s))
        (source-Alike alike)
        (bearing-Alike c m n json range (source_over m) alike id muuid model group s)

-- ===== src/Client/Calls.antt =====
-- pkg/client/client.go: the calls of the CDI components.
pub mod Replies
pub mod Authorized
pub mod Replying
use composable_dra_driver.Base.{
  ℕ, ltb, leb, String, Bool, true, false, ◌||◌, ◌&&◌, Option, none, some, List, [], ◌∷◌, Outcome,
  ok, err, panic, Error, Action, and_then, continue, lift, ◌>>=◌, ◌>>◌, if◌then◌else◌, ◌==◌,
  string_eq, ◌≡◌, ◌⊎◌, refl, inl, inr, Option-cases,
}
use composable_dra_driver.Base.Dict.{Dict}
use composable_dra_driver.Base.Order.{Range}
use composable_dra_driver.Base.Text.{◌⧺◌}
use composable_dra_driver.Client.Types.{
  ImToken, FmMachineList, FmAvailableReservedResources, CmNodeGroup, CmNodeGroups, CmNodeGroupInfo,
  CmNodeDetails, Condition, CdiApi,
}
use composable_dra_driver.Client.Token.{IdManagerSecret, Token, Session}
use composable_dra_driver.Client.Request.{
  Request, new_request, set_host, set_path, set_query, set_body, set_header,
}

pub record Reply : Type 0 where
  pub status_code : ℕ
  pub body : String

-- encoding/json: a condition as text, the answers read from a body, and the message in the detail
-- of an answer that reports a failure.
pub record Json : Type 0 where
  pub marshal : Condition → String
  pub im_token : String → Outcome ImToken
  pub machine_list : String → Outcome FmMachineList
  pub available : String → Outcome FmAvailableReservedResources
  pub node_groups : String → Outcome CmNodeGroups
  pub node_group_info : String → Outcome CmNodeGroupInfo
  pub node_details : String → Outcome CmNodeDetails
  pub detail_message : String → Outcome String

-- A response: its body is nil, or is read to its end, which may fail.
pub record Response : Type 0 where
  pub status_code : ℕ
  pub body : Option (Outcome String)

-- net/http: whether http.NewRequest refuses a request, and Client.Do, with the request's id in its
-- context.
pub record Network (S : Type 0) : Type 0 where
  pub refuses : Request → Option Error
  pub client_do : String → Request → Action S Response

-- The reply of a response, whose body stays empty where it is nil.
abbrev read_response : ℕ → Option (Outcome String) → Outcome Reply
read_response status none = ok (record { status_code = status; body = "" })
read_response status (some body) = and_then body λ t. ok (record { status_code = status; body = t })

-- CDIClient.do
unfoldable pub exchange : {S : Type 0} → Network S → String → Request → Action S Reply
exchange network id req =
    network.client_do id req >>= λ response. lift (read_response response.status_code response.body)

pub record CdiClient : Type 0 where
  pub host : String
  pub tenant_id : String
  pub cluster_id : String

-- The message of an unsuccessful response: the detail's, or else the body.
unfoldable pub failure_message : Outcome String → String → String
failure_message (ok message) body = if message == "" then body else message
failure_message (err e) body = body
failure_message panic body = body

-- `read` is json.Unmarshal into the value, of which `type` is the type's name.
unfoldable pub into : {A : Type 0} → Json → String → (String → Outcome A) → Reply → Outcome A
unfolding failure_message
into json type read reply =
    let unsuccessful = err (
      "received unsuccessful response: "
      ⧺ failure_message (json.detail_message reply.body) reply.body) in
    if ltb reply.status_code 200 || leb 300 reply.status_code
    then unsuccessful
    else (elim (read reply.body) [
      | ok a ↦ ok a
      | err e ↦ err ("failed to read response data into " ⧺ type ⧺ ": " ⧺ e)
      | panic ↦ panic
    ])

module _ {S : Type 0} (network : Network S) (json : Json) where
  unfoldable pub new_http_request : Request → Outcome Request
  new_http_request req = elim (network.refuses req) [ some e ↦ err e | none ↦ ok req ]

  -- newHTTPRequest, do and into, as every call ends.
  unfoldable pub call : {A : Type 0} → String → (String → Outcome A) → String → Request → Action S A
  unfolding into exchange new_http_request
  call type read id req = elim (new_http_request req) [
    | ok http_req ↦ exchange network id http_req >>= λ reply. lift (into json type read reply)
    | err e ↦ lift (err e)
    | panic ↦ lift panic
  ]

  -- A request is made as it is, or refused.
  new_http_request_cases :
      (req : Request)
      → ((network.refuses req ≡ none) × (new_http_request req ≡ ok req))
        ⊎ ((e : String) × (network.refuses req ≡ some e) × (new_http_request req ≡ err e))
  unfolding new_http_request
  new_http_request_cases req = elim (Option-cases (network.refuses req)) [
    | inl taken ↦ inl (taken, rw (taken, new_http_request) refl)
    | inr (e, refused) ↦ inr (e, refused, rw (refused, new_http_request) refl)
  ]

  unfoldable pub get_im_token : CdiClient → String → IdManagerSecret → Action S ImToken
  unfolding call new_request set_host set_path set_body set_header
  get_im_token c id secret =
      let path = "id_manager/realms/" ⧺ secret.realm ⧺ "/protocol/openid-connect/token" in
      let entries =
        "client_id=" ⧺ secret.client_id ⧺ "&client_secret=" ⧺ secret.client_secret ⧺ "&username="
        ⧺ secret.username ⧺ "&password=" ⧺ secret.password
        ⧺ "&scope=openid&response=id_token token&grant_type=password" in
      call "*client.IMToken" json.im_token id (
        set_header "Content-Type" ("application/x-www-form-urlencoded" ∷ [])
          (set_body entries (set_path path (set_host c.host (new_request "POST")))))

  -- An action of the state behind the session.
  abbrev behind : {A : Type 0} → Action S A → Action (Session S) A
  behind m s = let (r, rest) = m s.behind in (r, record s { behind = rest })

  module _ (range : Range) (token : Action (Session S) Token) (c : CdiClient) where
    abbrev bearer : Token → Request → Request
    bearer t = set_header "Authorization" (("Bearer " ⧺ t.access_token) ∷ [])

    abbrev get : String → Request
    get path = set_path path (set_host c.host (new_request "GET"))

    abbrev clusters : String → String
    clusters version =
        "cluster_manager/cluster_autoscaler/" ⧺ version ⧺ "/tenants/" ⧺ c.tenant_id ⧺ "/clusters/"
        ⧺ c.cluster_id

    unfoldable pub get_fm_machine_list : String → Action (Session S) FmMachineList
    unfolding call new_request set_host set_path set_query set_header
    get_fm_machine_list id = do
      t ← token
      behind (
          call "*client.FMMachineList" json.machine_list id (
            bearer t (
              set_query range (("tenant_uuid", c.tenant_id) ∷ [])
                (get "fabric_manager/api/v1/machines"))))

    unfoldable pub get_fm_available_reserved_resources :
        String → String → String → Action (Session S) FmAvailableReservedResources
    unfolding call new_request set_host set_path set_query set_header
    get_fm_available_reserved_resources id muuid model_name =
        let condition =
          json.marshal (record { column = "model"; operator = "eq"; value = model_name }) in
        let query =
          ("tenant_uuid", c.tenant_id) ∷ ("res_type", "gpu") ∷ ("condition", condition) ∷ [] in
        token >>= λ t. behind (
          call "*client.FMAvailableReservedResources" json.available id (
            bearer t (
              set_query range query (
                get
                  ("fabric_manager/api/v1/machines/" ⧺ muuid ⧺ "/available-reserved-resources")))))

    unfoldable pub get_cm_node_groups : String → Action (Session S) CmNodeGroups
    unfolding call new_request set_host set_path set_header
    get_cm_node_groups id = do
      t ← token
      behind (
          call "*client.CMNodeGroups" json.node_groups id
            (bearer t (get (clusters "v2" ⧺ "/nodegroups"))))

    unfoldable pub get_cm_node_group_info :
        String → CmNodeGroup → Action (Session S) CmNodeGroupInfo
    unfolding call new_request set_host set_path set_header
    get_cm_node_group_info id ng = do
      t ← token
      behind (
          call "*client.CMNodeGroupInfo" json.node_group_info id
            (bearer t (get (clusters "v2" ⧺ "/nodegroups/" ⧺ ng.uuid))))

    unfoldable pub get_cm_node_details : String → String → Action (Session S) CmNodeDetails
    unfolding call new_request set_host set_path set_header
    get_cm_node_details id muuid = do
      t ← token
      behind (
          call "*client.CMNodeDetails" json.node_details id
            (bearer t (get (clusters "v3" ⧺ "/machines/" ⧺ muuid))))

    -- The client as the manager uses it.
    abbrev pub cdi_api : (S → String × S) → CdiApi (Session S)
    cdi_api request_id = record {
      request_id = λ s. let (id, rest) = request_id s.behind in (id, record s { behind = rest });
      get_fm_machine_list = get_fm_machine_list;
      get_fm_available_reserved_resources = get_fm_available_reserved_resources;
      get_cm_node_groups = get_cm_node_groups;
      get_cm_node_group_info = get_cm_node_group_info;
      get_cm_node_details = get_cm_node_details;
    }

-- ===== src/Client/Calls/Replying.antt =====
-- pkg/client/client.go: what the calls end with, over a network that replies.
use composable_dra_driver.Base.{
  ℕ, pos, String, Bool-cases, ltb, leb, ◌||◌, Option, none, some, inl, inr, Outcome, ok, err, panic,
  Action, Runs, Post, returns, throws, and_then-Post, >>=-Runs, ◌>>=◌, ◌≡◌,
}
use composable_dra_driver.Base.Order.{Range}
use composable_dra_driver.Base.Text.{◌⧺◌}
use composable_dra_driver.Client.Types.{FmAvailableReservedResources, CmNodeGroup}
use composable_dra_driver.Client.Token.{IdManagerSecret, Token, Session}
use composable_dra_driver.Client.Request.{Request}
use composable_dra_driver.Client.Calls.{
  Json, Network, Reply, CdiClient, into, read_response, exchange, new_http_request_cases, call,
  behind, get_im_token, get_fm_machine_list, get_fm_available_reserved_resources,
  get_cm_node_groups, get_cm_node_group_info, get_cm_node_details,
}

abbrev pub Whatever {ℓ} : {A : Type ℓ} → A → Type 0
Whatever a = Unit

abbrev pub IsNatural : FmAvailableReservedResources → Type 0
IsNatural a = (n : ℕ) × (a.reserved_resource_num ≡ pos n)

-- Reading a text ends with a value or an error, and no number of free devices in it is negative.
pub record Reads (json : Json) (body : String) : Type 0 where
  pub im_token : Post Whatever (json.im_token body)
  pub machine_list : Post Whatever (json.machine_list body)
  pub available : Post IsNatural (json.available body)
  pub node_groups : Post Whatever (json.node_groups body)
  pub node_group_info : Post Whatever (json.node_group_info body)
  pub node_details : Post Whatever (json.node_details body)

abbrev pub BodyReads : Json → Option (Outcome String) → Type 0
BodyReads json none = Reads json ""
BodyReads json (some body) = Post (Reads json) body

-- A request ends with an error or with a response whose body can be read.
abbrev pub IsReplying : {S : Type 0} → Network S → Json → Type 0
IsReplying network json =
    (id : String) (req : Request)
    → Runs (λ response. BodyReads json response.body) (network.client_do id req)

read_response-Reads :
    (json : Json) (status : ℕ) (body : Option (Outcome String))
    → BodyReads json body
    → Post (λ reply. Reads json reply.body) (read_response status body)
read_response-Reads json status none h = returns h
read_response-Reads json status (some body) h = and_then-Post h λ t reads. returns reads

module _ {A : Type 0} {P : A → Type 0} (json : Json) (type : String)
    (read : String → Outcome A) where
  read-Post :
      (r : Outcome A)
      → Post P r
      → Post P (elim r [
        | ok a ↦ ok a
        | err e ↦ err ("failed to read response data into " ⧺ type ⧺ ": " ⧺ e)
        | panic ↦ panic
      ])
  read-Post (ok a) h = h
  read-Post (err e) h = throws _
  read-Post panic h = h

  into-Post : (reply : Reply) → Post P (read reply.body) → Post P (into json type read reply)
  unfolding into
  into-Post reply h = elim (Bool-cases (ltb reply.status_code 200 || leb 300 reply.status_code)) [
    | inl unsuccessful ↦ rw unsuccessful (throws _)
    | inr successful ↦ rw successful (read-Post (read reply.body) h)
  ]

module _ {S : Type 0} (network : Network S) (json : Json) (replying : IsReplying network json) where
  exchange-Reads :
      (id : String) (req : Request)
      → Runs (λ reply. Reads json reply.body) (exchange network id req)
  unfolding exchange
  exchange-Reads id req =
      >>=-Runs (network.client_do id req) _ (replying id req)
        λ response h s. read_response-Reads json response.status_code response.body h

  -- A call ends with an error or with a value that can be read from a body.
  pub call-Runs :
      {A : Type 0} {P : A → Type 0} (type : String) (read : String → Outcome A) (id : String)
      (req : Request)
      → ((body : String) → Reads json body → Post P (read body))
      → Runs P (call network json type read id req)
  unfolding call
  call-Runs type read id req h s = elim (new_http_request_cases network json req) [
    | inl (free, taken) ↦
        rw (taken, call)
          (>>=-Runs (exchange network id req) _ (exchange-Reads id req)
            (λ reply reads t. into-Post json type read reply (h reply.body reads)) s)
    | inr (e, why, refused) ↦ rw (refused, call) (throws e)
  ]

  pub get_im_token-Runs :
      (c : CdiClient) (id : String) (secret : IdManagerSecret)
      → Runs Whatever (get_im_token network json c id secret)
  unfolding get_im_token
  get_im_token-Runs c id secret =
      call-Runs "*client.IMToken" json.im_token id _ (λ body reads. reads.im_token)

  module _ (range : Range) (token : Action (Session S) Token) (tokens : Runs Whatever token)
      (c : CdiClient) where
    bearing :
        {A : Type 0} {P : A → Type 0} (type : String) (read : String → Outcome A) (id : String)
        (build : Token → Request)
        → ((body : String) → Reads json body → Post P (read body))
        → Runs P (token >>= λ t. behind network json (call network json type read id (build t)))
    bearing type read id build h =
        >>=-Runs token _ tokens λ t u s. call-Runs type read id (build t) h s.behind

    pub get_fm_machine_list-Runs :
        (id : String) → Runs Whatever (get_fm_machine_list network json range token c id)
    unfolding get_fm_machine_list
    get_fm_machine_list-Runs id =
        bearing "*client.FMMachineList" json.machine_list id _ (λ body reads. reads.machine_list)

    pub get_fm_available_reserved_resources-Runs :
        (id muuid model : String)
        → Runs IsNatural
            (get_fm_available_reserved_resources network json range token c id muuid model)
    unfolding get_fm_available_reserved_resources
    get_fm_available_reserved_resources-Runs id muuid model =
        bearing "*client.FMAvailableReservedResources" json.available id _
          (λ body reads. reads.available)

    pub get_cm_node_groups-Runs :
        (id : String) → Runs Whatever (get_cm_node_groups network json range token c id)
    unfolding get_cm_node_groups
    get_cm_node_groups-Runs id =
        bearing "*client.CMNodeGroups" json.node_groups id _ (λ body reads. reads.node_groups)

    pub get_cm_node_group_info-Runs :
        (id : String) (ng : CmNodeGroup)
        → Runs Whatever (get_cm_node_group_info network json range token c id ng)
    unfolding get_cm_node_group_info
    get_cm_node_group_info-Runs id ng =
        bearing "*client.CMNodeGroupInfo" json.node_group_info id _
          (λ body reads. reads.node_group_info)

    pub get_cm_node_details-Runs :
        (id muuid : String)
        → Runs Whatever (get_cm_node_details network json range token c id muuid)
    unfolding get_cm_node_details
    get_cm_node_details-Runs id muuid =
        bearing "*client.CMNodeDetails" json.node_details id _ (λ body reads. reads.node_details)

-- ===== src/Client/Tests.antt =====
-- Runs of pkg/client at concrete inputs.
use composable_dra_driver.KubeUtils.Objects.{Secret}
use composable_dra_driver.Base.{
  inl, inr, if◌then◌else◌, ◌==◌, pos, String, none, some, [], ◌∷◌, ok, err, Action, All, ◌≡◌, refl,
  string_eq,
}
use composable_dra_driver.Base.Dict.{Dict}
use composable_dra_driver.Base.Order.{in_order}
use composable_dra_driver.Base.Text.{split}
use composable_dra_driver.Client.Types.{ImToken, CmNodeGroup}
use composable_dra_driver.Client.Token.{
  Token, TokenCodec, Session, token_of, cached_token, read_secret,
}
use composable_dra_driver.Client.Token.Cache.{answers, Gives, Issues, answers-Gives}
use composable_dra_driver.Client.Token.Secrets.{too_long, secret_of, verdict, read_secret-verdict}
use composable_dra_driver.Client.Request.{new_request}
use composable_dra_driver.Client.Calls.{
  Json, Network, CdiClient, exchange, call, get_fm_machine_list,
  get_fm_available_reserved_resources, get_cm_node_groups, get_cm_node_group_info,
  get_cm_node_details,
}
use composable_dra_driver.Client.Build.{cached_im_token_source}
use composable_dra_driver.Client.Calls.Authorized.{Alike, calls-Alike}

abbrev old_token : Token
old_token = record { access_token = "old"; expiry = pos 100000000000 }

-- A source that issues nothing.
abbrev broken : Action (Unit {0}) Token
broken s = (err "no id manager", s)

abbrev IsOld : Token → Type 0
IsOld t = t.access_token ≡ "old"

broken-Issues : Issues IsOld broken
broken-Issues s = ((λ e. cc), λ t e. cc)

abbrev session : Session (Unit {0})
session = record { token = some old_token; behind = tt }

-- The old token serves before and after its expiry.
answers-Gives_example :
    All (Gives IsOld) (answers broken (pos 1 ∷ pos 80000000000 ∷ pos 200000000000 ∷ []) session)
answers-Gives_example =
    answers-Gives IsOld broken (pos 1 ∷ pos 80000000000 ∷ pos 200000000000 ∷ []) session
      broken-Issues (old_token, refl, refl)

abbrev credentials : Dict String String
credentials = ("username", "admin") ∷ ("password", "secret") ∷ []

read_secret-verdict_example :
    read_secret credentials
    ≡ verdict
        (too_long credentials
          ("username" ∷ "password" ∷ "realm" ∷ "client_id" ∷ "client_secret" ∷ []))
        (secret_of credentials)
read_secret-verdict_example = read_secret-verdict credentials

abbrev pub codec : TokenCodec
codec = record { decode_string = λ t. ok t; expiry_in = λ t. ok (pos 7) }

abbrev im_token : ImToken
im_token = record { access_token = "head.claims.sign"; expires_in = pos 60 }

abbrev made : Token
made = record { access_token = "head.claims.sign"; expiry = pos 7000000000 }

token_made : token_of codec im_token ≡ ok made
unfolding token_of split
token_made = refl

-- No answer can be read but the one of the node groups.
abbrev pub json : Json
json = record {
  marshal = λ c. c.value;
  im_token = λ t. err "";
  machine_list = λ t. err "";
  available = λ t. err "";
  node_groups = λ t. ok (record { node_groups = [] });
  node_group_info = λ t. err "";
  node_details = λ t. err "";
  detail_message = λ t. err "";
}

-- Every request is answered with the path that it asks for.
abbrev pub echo : Network (Unit {0})
echo = record {
  refuses = λ r. none;
  client_do = λ id r s. (ok (record { status_code = 200; body = some (ok r.path) }), s);
}

groups_read :
    (call echo json "*client.CMNodeGroups" json.node_groups "111111" (new_request "GET") tt).0
    ≡ ok (record { node_groups = [] })
unfolding call
groups_read = refl

-- A network that answers the permitted requests as `echo` does, and refuses every other method.
abbrev strict : Network (Unit {0})
strict = record {
  refuses = λ r.
      if r.method == "GET"
      then none
      else if r.method == "POST"
      then none
      else some "method not allowed";
  client_do = λ id r s. (ok (record { status_code = 200; body = some (ok r.path) }), s);
}

abbrev pub cdi_client : CdiClient
cdi_client = record { host = "cdi"; tenant_id = "t"; cluster_id = "c" }

echo-Alike : Alike cdi_client echo strict
echo-Alike r (inl (t, auth)) = (rw (auth.0) refl, λ id. refl)
echo-Alike r (inr login) = (rw (login.0) refl, λ id. refl)

abbrev no_entries : Secret
no_entries = record { entries = none }

abbrev group : CmNodeGroup
group = record { uuid = "g"; name = "group" }

abbrev token : Action (Session (Unit {0})) Token
token = cached_token broken (pos 1)

-- The program's own source of tokens, over a network.
abbrev source : Network (Unit {0}) → Action (Session (Unit {0})) Token
source network =
    cached_im_token_source network json codec cdi_client (λ s. ok no_entries) (λ s. ("222222", s))
      (λ s. pos 1)

calls-Alike_example :
    (get_fm_machine_list echo json in_order (source echo) cdi_client "1" session
      ≡ get_fm_machine_list strict json in_order (source strict) cdi_client "1" session)
    × (get_fm_available_reserved_resources echo json in_order
          (source echo)
          cdi_client
          "1"
          "m"
          "A100"
          session
        ≡ get_fm_available_reserved_resources strict json in_order
            (source strict)
            cdi_client
            "1"
            "m"
            "A100"
            session)
    × (get_cm_node_groups echo json in_order (source echo) cdi_client "1" session
        ≡ get_cm_node_groups strict json in_order (source strict) cdi_client "1" session)
    × (get_cm_node_group_info echo json in_order (source echo) cdi_client "1" group session
        ≡ get_cm_node_group_info strict json in_order (source strict) cdi_client "1" group session)
    × (get_cm_node_details echo json in_order (source echo) cdi_client "1" "m" session
        ≡ get_cm_node_details strict json in_order (source strict) cdi_client "1" "m" session)
calls-Alike_example =
    calls-Alike cdi_client echo strict json in_order codec (λ s. ok no_entries) (λ s. ("222222", s))
      (λ s. pos 1) echo-Alike "1" "m" "A100" group session

-- The node groups are asked for with the token that is kept.
groups_listed :
    (get_cm_node_groups echo json in_order token cdi_client "1" session).0
    ≡ ok (record { node_groups = [] })
unfolding get_cm_node_groups cached_token call exchange
groups_listed = refl

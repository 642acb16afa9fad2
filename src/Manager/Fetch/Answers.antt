-- ===== src/Manager/Fetch/Answers.antt =====
-- pkg/client as pkg/manager uses it: the client's calls keep to what the manager relies on.
use composable_dra_driver.Base.{ℤ, String, Outcome, Post}
use composable_dra_driver.Base.Order.{Range}
use composable_dra_driver.KubeUtils.Objects.{Secret}
use composable_dra_driver.Client.Token.{TokenCodec}
use composable_dra_driver.Client.Calls.{Json, Network, CdiClient, cdi_api}
use composable_dra_driver.Client.Calls.Replying.{
  Whatever, IsReplying, get_fm_machine_list-Runs, get_fm_available_reserved_resources-Runs,
  get_cm_node_groups-Runs, get_cm_node_group_info-Runs, get_cm_node_details-Runs,
}
use composable_dra_driver.Client.Build.{cached_im_token_source}
use composable_dra_driver.Client.Build.Issuing.{IsDecoding, cached_im_token_source-Runs}
use composable_dra_driver.Manager.Fetch.Safe.{IsAnswering}

-- Where every request ends with an error or with a response whose body can be read and counts no devices below zero,
-- the secret can be read and the decoders of tokens do not panic, the client with its cached source
-- of tokens keeps to what the manager relies on: its calls end with a value or an error, never with
-- a panic, and no number of free devices is negative.
pub cdi_api-IsAnswering :
    {S : Type 0} (network : Network S) (json : Json) (range : Range) (codec : TokenCodec)
    (c : CdiClient) (get_secret : S → Outcome Secret) (request_id : S → String × S) (clock : S → ℤ)
    → IsReplying network json
    → IsDecoding codec
    → ((s : S) → Post Whatever (get_secret s))
    → IsAnswering (
        cdi_api network json range
          (cached_im_token_source network json codec c get_secret request_id clock)
          c
          request_id)
cdi_api-IsAnswering network json range codec c get_secret request_id clock replying decoding
      secrets =
    let token = cached_im_token_source network json codec c get_secret request_id clock in
    let tokens =
      cached_im_token_source-Runs network json replying codec decoding c get_secret secrets
        request_id clock in
    record {
      machine_list = get_fm_machine_list-Runs network json replying range token tokens c;
      available =
          get_fm_available_reserved_resources-Runs network json replying range token tokens c;
      node_groups = get_cm_node_groups-Runs network json replying range token tokens c;
      node_group_info = get_cm_node_group_info-Runs network json replying range token tokens c;
      node_details = get_cm_node_details-Runs network json replying range token tokens c;
    }

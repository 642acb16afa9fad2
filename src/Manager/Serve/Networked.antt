-- ===== src/Manager/Serve/Networked.antt =====
-- pkg/manager/manager.go with pkg/client: StartCDIManager with the client that BuildCDIClient makes.
use composable_dra_driver.Base.{
  ℤ, String, Outcome, ok, ok_inj, and_then-ok, Post, lift, >>=-ok, ◌≡◌, ap, sym, subst,
}
use composable_dra_driver.Config.Types.{Config}
use composable_dra_driver.KubeUtils.Objects.{Secret}
use composable_dra_driver.KubeUtils.Discovery.{DiscoveryClient, KubeControllers, run}
use composable_dra_driver.Client.Token.{TokenCodec, Session}
use composable_dra_driver.Client.Calls.{Json, Network, CdiClient, cdi_api}
use composable_dra_driver.Client.Calls.Replying.{Whatever, IsReplying}
use composable_dra_driver.Client.Build.{cached_im_token_source}
use composable_dra_driver.Client.Build.Issuing.{IsDecoding}
use composable_dra_driver.Manager.Types.{Settings}
use composable_dra_driver.Manager.Fetch.Safe.{IsAnswering}
use composable_dra_driver.Manager.Fetch.Answers.{cdi_api-IsAnswering}
use composable_dra_driver.Manager.Start.{init_driver_resources, start_resource_slice_controller}
use composable_dra_driver.Manager.Serve.{
  Cluster, Process, Manager, connect, configure, start_manager, on_calls, prepare,
}

-- What is behind a client: the network as a certificate lets it through, the readers of its texts, the secret as it is at a moment,
-- the source of request ids and the clock.
pub record Surroundings (S : Type 0) : Type 0 where
  pub network : String → Network S
  pub json : Json
  pub codec : TokenCodec
  pub secret : S → Outcome Secret
  pub request_id : S → String × S
  pub clock : S → ℤ

-- The manager's client is the one that BuildCDIClient makes, with its cached source of tokens.
abbrev pub with_client :
    {K U S : Type 0} → Surroundings S → Cluster K U (Session S) → Cluster K U (Session S)
with_client w cluster = record cluster {
  api = λ client.
      cdi_api (w.network client.1) w.json cluster.range
        (cached_im_token_source (w.network client.1) w.json w.codec client.0 w.secret w.request_id
          w.clock)
        client.0 w.request_id;
}

-- Every request ends with an error or with a response whose body can be read and counts no devices
-- below zero; the secret can be read, and the decoders of tokens do not panic.
pub record AreSound {S : Type 0} (w : Surroundings S) : Type 0 where
  pub replying : (certificate : String) → IsReplying (w.network certificate) w.json
  pub decoding : IsDecoding w.codec
  pub secrets : (s : S) → Post Whatever (w.secret s)

module _ {K U S : Type 0} (cluster : Cluster K U S) (cfg : Config) where
  started_api :
      (client : DiscoveryClient) (kc : KubeControllers) (cdi_client : CdiClient × String)
      (settings : Settings) (m : Manager S)
      → start_manager cluster cfg client kc cdi_client settings ≡ ok m
      → m.cdi_api ≡ cluster.api cdi_client
  unfolding start_manager
  started_api client kc cdi_client settings m h =
      let (controllers, started, rest) =
        and_then-ok
          (start_resource_slice_controller cluster.range client cluster.starter
            (init_driver_resources settings.device_infos))
          _ h in
      sym (ap (λ (m : Manager S). m.cdi_api) (ok_inj rest))

  -- A manager that was prepared calls what the client makes.
  pub prepare-IsAnswering :
      (p : Process S) (m : Manager S) (q : Process S)
      → ((client : CdiClient × String) → IsAnswering (cluster.api client))
      → prepare cluster cfg p ≡ (ok m, q)
      → IsAnswering m.cdi_api
  unfolding prepare
  prepare-IsAnswering p m q answering e =
      let ((client, kc), _, e1) = >>=-ok (lift (connect cluster cfg)) _ p e in
      let (u, _, e2) = >>=-ok (on_calls (run cluster.synced kc)) _ p e1 in
      let ((cdi_client, s), _, e3) = >>=-ok (lift (configure cluster cfg)) _ _ e2 in
      subst IsAnswering
        (sym (
          started_api client kc cdi_client s m
            (ap (λ (o : Outcome (Manager S) × Process S). o.0) e3)))
        (answering cdi_client)

pub with_client-IsAnswering :
    {K U S : Type 0} (w : Surroundings S) (cluster : Cluster K U (Session S))
    → AreSound w
    → (client : CdiClient × String) → IsAnswering ((with_client w cluster).api client)
with_client-IsAnswering w cluster sound client =
    cdi_api-IsAnswering (w.network client.1) w.json cluster.range w.codec client.0 w.secret
      w.request_id w.clock (sound.replying client.1) sound.decoding sound.secrets

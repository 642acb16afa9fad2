-- ===== src/Main/Tests.antt =====
-- Runs of main.go at concrete inputs.
use composable_dra_driver.Base.{
  ◌*◌, ◌≤◌, pos, String, true, false, none, [], ◌∷◌, ok, ◌≡◌, ◌↔◌, refl, arith, ◌==◌, string_eq,
  if◌then◌else◌,
}
use composable_dra_driver.Base.Text.{◌⧺◌, byte_length, cut_prefix}
use composable_dra_driver.Config.Types.{Config}
use composable_dra_driver.Main.Pattern.{match_string}
use composable_dra_driver.Main.Flags.{
  Kind, int_flag, duration_flag, string_flag, bool_flag, Of, Context, time_second, check_tenant_id,
  check_endpoint, check_cluster_id, before,
}
use composable_dra_driver.Main.Uuid.{IsUuid}
use composable_dra_driver.Main.Cli.{Reaches, no_config}
use composable_dra_driver.Main.Accepted.{
  check_tenant_id_iff, check_endpoint_iff, IsConfigured, Reaches-IsConfigured,
}
use composable_dra_driver.Main.Shutdown.{
  App, started, notify, send_result, shut_down, drain, signal_arrives, manager_returns,
  takes_signal, takes_end, Run, here, outside, inside, returned, ended, signal_received,
}
use composable_dra_driver.Main.Shutdown.Orderly.{Said, Run-ended}

abbrev tenant : String
tenant = "0123abcd-89EF-4000-8000-00000000000a"

-- The command line `--tenant-id ... --cdi-endpoint ... --cluster-id ... --use-cm`.
abbrev values : (k : Kind) → String → Of k
values int_flag name = pos 0
values duration_flag name = pos (60 * time_second)
values string_flag name = if name == "cdi-endpoint" then "https://cdi.example.com" else tenant
values bool_flag name = name == "use-cm"

abbrev context : Context
context = record {
  args = [];
  is_set = λ name. if name == "scan-interval" then false else true;
  value = values;
}

abbrev configured : Config
configured = record {
  log_level = pos 0;
  scan_interval = pos (60 * time_second);
  tenant_id = tenant;
  cluster_id = tenant;
  cdi_endpoint = "cdi.example.com";
  use_capi_bmh = false;
  use_cm = true;
}

check_tenant_id_iff_example :
    (check_tenant_id context tenant configured ≡ (ok tt, configured)) ↔ IsUuid tenant
check_tenant_id_iff_example = check_tenant_id_iff context tenant configured

host_short : byte_length "cdi.example.com" ≤ 992
unfolding byte_length
host_short = omega arith

check_endpoint_iff_example :
    (check_endpoint context "https://cdi.example.com" no_config
      ≡ (ok tt, record no_config { cdi_endpoint = "cdi.example.com" }))
    ↔ ((host : String) × (record no_config { cdi_endpoint = "cdi.example.com" }
          ≡ record no_config { cdi_endpoint = host })
        × ("https://" ⧺ host ≡ "https://cdi.example.com")
        × (byte_length host ≤ 992))
check_endpoint_iff_example =
    check_endpoint_iff context "https://cdi.example.com" no_config
      (record no_config { cdi_endpoint = "cdi.example.com" })

abbrev parsed : Config
parsed = record configured { cdi_endpoint = "https://cdi.example.com" }

reached : Reaches context configured
unfolding before check_tenant_id check_endpoint check_cluster_id match_string byte_length cut_prefix
reached = record {
  given = (tt, ((refl, refl), (tt, (tt, (tt, (tt, (tt, tt)))))));
  filled = parsed;
  parsed = refl;
  accepted = refl;
  called = (
    parsed,
    refl,
    (
      parsed,
      refl,
      (
        parsed,
        refl,
        (parsed, refl, (configured, refl, (configured, refl, (configured, refl, refl)))),
      ),
    ),
  );
}

Reaches-IsConfigured_example : IsConfigured context configured
Reaches-IsConfigured_example = Reaches-IsConfigured context configured reached

-- SIGTERM arrives and is taken, and the manager returns.
abbrev after_signal : App
after_signal = shut_down "terminated" (notify "terminated" started)

signalled : Run started 1 after_signal
unfolding started notify
signalled =
    inside (outside here (signal_arrives "terminated")) (takes_signal "terminated" refl refl)

abbrev after_manager : App
after_manager = send_result none after_signal

manager_done : Run started 1 after_manager
unfolding started notify shut_down
manager_done = outside signalled (manager_returns none refl λ e. refl)

abbrev after_wait : App
after_wait = drain none after_manager

terminated : Run started 2 after_wait
unfolding started notify shut_down send_result
terminated = inside manager_done (takes_end none refl refl)

terminated_ended : after_wait.main ≡ ended none
unfolding drain
terminated_ended = refl

Run-ended_example :
    (after_wait.manager ≡ returned) × Said (ended none) after_wait.canceled after_wait.log
Run-ended_example = Run-ended none terminated terminated_ended

-- What the log says then.
said : after_wait.log ≡ signal_received "terminated" ∷ []
unfolding started notify shut_down send_result drain
said = refl

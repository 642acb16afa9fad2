-- ===== src/Main/Accepted.antt =====
-- main.go: the settings that the checks of the flags let pass.
use Prim.Native.Char.{Char}
use composable_dra_driver.Base.{
  ℕ, ◌*◌, ◌≤◌, ℤ, pos, negsuc, ltb, ltb_ℤ, String, Bool, true, false, ◌||◌, ok, ◌≡◌, ◌≢◌, subst,
  length, refl, ap, ap₂, sym, ◌∙◌, ◌↔◌, arith, Bool-cases, Option-cases, inl, inr,
}
use composable_dra_driver.Base.Text.{
  ◌⧺◌, byte_length, utf8_width, cut_prefix, cut_prefix-append, append-cut_prefix,
  byte_length-append,
}
use composable_dra_driver.Config.Types.{Config}
use composable_dra_driver.Main.Pattern.{
  match_string, Describes, match_string_iff, byte_length-Describes,
}
use composable_dra_driver.Main.Uuid.{IsUuid, uuid_format_iff}
use composable_dra_driver.Main.Cli.{Reaches, When, When-same}
use composable_dra_driver.Main.Flags.{
  int_flag, string_flag, bool_flag, duration_flag, Context, time_second, is_hex, is_dash,
  uuid_format, check_scan_interval, check_tenant_id, check_cluster_id, check_endpoint, before,
}

hex-narrow : (c : Char) → is_hex c ≡ true → utf8_width c ≡ 1
hex-narrow c h = ground arith

dash-narrow : (c : Char) → is_dash c ≡ true → utf8_width c ≡ 1
dash-narrow c h = ground arith

accepted-IsUuid : (s : String) → match_string uuid_format s ≡ true → IsUuid s
accepted-IsUuid s h = (uuid_format_iff s).0 ((match_string_iff uuid_format s).0 h)

-- A tenant id is accepted exactly if it is put together from 8, 4, 4, 4 and 12 hexadecimal digits
-- with a dash between each two groups.
pub check_tenant_id_iff :
    (ctx : Context) (tenant_id : String) (config : Config)
    → (check_tenant_id ctx tenant_id config ≡ (ok tt, config)) ↔ IsUuid tenant_id
unfolding check_tenant_id
check_tenant_id_iff ctx tenant_id config =
    let (there, back) = match_string_iff uuid_format tenant_id in
    let (is, form) = uuid_format_iff tenant_id in
    (
      λ e. elim (Bool-cases (match_string uuid_format tenant_id)) [
        | inl well ↦ is (there well)
        | inr bad ↦ cc (rw bad at e)
      ],
      λ h. rw (back (form h)) refl,
    )

-- Such a text has 36 bytes.
pub uuid_format-byte_length : (s : String) → Describes uuid_format s → byte_length s ≡ 36
uuid_format-byte_length s h =
    byte_length-Describes uuid_format s
      (
        hex-narrow,
        (
          dash-narrow,
          (
            hex-narrow,
            (
              dash-narrow,
              (hex-narrow, (dash-narrow, (hex-narrow, (dash-narrow, (hex-narrow, tt))))),
            ),
          ),
        ),
      )
      h

-- A check that succeeds leaves the settings as they are, and the interval is from 5 to 86400 seconds.
pub check_scan_interval-bounds :
    (ctx : Context) (interval : ℤ) (config after : Config)
    → check_scan_interval ctx interval config ≡ (ok tt, after)
    → (after ≡ config)
      × ((n : ℕ) × (interval ≡ pos n) × (5 * time_second ≤ n) × (n ≤ 86400 * time_second))
unfolding check_scan_interval
check_scan_interval-bounds ctx (pos n) config after e =
    elim (Bool-cases
      (ltb_ℤ (pos n) (pos (5 * time_second)) || ltb_ℤ (pos (86400 * time_second)) (pos n))) [
        | inl out ↦ cc (rw out at e)
        | inr within ↦ (cc (rw within at e), (n, refl, ground arith, ground arith))
      ]
check_scan_interval-bounds ctx (negsuc n) config after e =
    elim (Bool-cases (ltb_ℤ (negsuc n) (pos (5 * time_second)))) [
      | inl less ↦ cc (rw less at e)
      | inr more ↦ ground arith
    ]

pub check_tenant_id-Describes :
    (ctx : Context) (tenant_id : String) (config after : Config)
    → check_tenant_id ctx tenant_id config ≡ (ok tt, after)
    → (after ≡ config) × IsUuid tenant_id
unfolding check_tenant_id
check_tenant_id-Describes ctx tenant_id config after e =
    elim (Bool-cases (match_string uuid_format tenant_id)) [
      | inl well ↦ (cc (rw well at e), accepted-IsUuid tenant_id well)
      | inr bad ↦ cc (rw bad at e)
    ]

pub check_cluster_id-Describes :
    (ctx : Context) (cluster_id : String) (config after : Config)
    → check_cluster_id ctx cluster_id config ≡ (ok tt, after)
    → (after ≡ config) × (ctx.value bool_flag "use-cm" ≡ true → IsUuid cluster_id)
unfolding check_cluster_id
check_cluster_id-Describes ctx cluster_id config after e =
    elim (Bool-cases (ctx.value bool_flag "use-cm")) [
      | inr off ↦ (cc (rw off at e), λ on. cc)
      | inl on ↦ elim (Bool-cases (match_string uuid_format cluster_id)) [
        | inl well ↦ (cc (rw (on, well) at e), λ on. accepted-IsUuid cluster_id well)
        | inr bad ↦ cc (rw (on, bad) at e)
      ]
    ]

-- What is kept of an accepted endpoint is the endpoint without `https://`, in at most 992 bytes.
pub check_endpoint-prefix :
    (ctx : Context) (endpoint : String) (config after : Config)
    → check_endpoint ctx endpoint config ≡ (ok tt, after)
    → (host : String) × (after ≡ record config { cdi_endpoint = host })
      × ("https://" ⧺ host ≡ endpoint)
      × (byte_length host ≤ 992)
unfolding check_endpoint byte_length
check_endpoint-prefix ctx endpoint config after e =
    elim (Bool-cases (ltb 1000 (byte_length endpoint))) [
      | inl long ↦ cc (rw long at e)
      | inr short ↦ elim (Option-cases (cut_prefix endpoint "https://")) [
        | inl other ↦ cc (rw (short, other) at e)
        | inr (host, cut) ↦
            let whole = append-cut_prefix endpoint "https://" host cut in
            (
              host,
              cc (rw (short, cut) at e),
              whole,
              ground (arith, byte_length-append "https://" host, ap byte_length whole),
            )
      ]
    ]

check_endpoint-host :
    (ctx : Context) (host : String) (config : Config)
    → byte_length host ≤ 992
    → check_endpoint ctx ("https://" ⧺ host) config ≡ (ok tt, record config { cdi_endpoint = host })
unfolding check_endpoint byte_length
check_endpoint-host ctx host config h =
    rw (cut_prefix-append "https://" host)
      (elim (Bool-cases (ltb 1000 (byte_length ("https://" ⧺ host)))) [
        | inl long ↦ absurd (ground (arith, byte_length-append "https://" host))
        | inr short ↦ rw short refl
      ])

-- An endpoint is accepted, with some settings, exactly if it is `https://` and a host, which may be
-- empty, of at most 992 bytes, and the settings are those that were given, with that host.
pub check_endpoint_iff :
    (ctx : Context) (endpoint : String) (config after : Config)
    → (check_endpoint ctx endpoint config ≡ (ok tt, after)) ↔ (
        (host : String) × (after ≡ record config { cdi_endpoint = host })
        × ("https://" ⧺ host ≡ endpoint)
        × (byte_length host ≤ 992))
check_endpoint_iff ctx endpoint config after = (
  check_endpoint-prefix ctx endpoint config after,
  λ (host, kept, whole, short).
      subst (λ (x : String × Config). check_endpoint ctx x.0 config ≡ (ok tt, x.1))
        (ap₂ (λ (e : String) (c : Config). (e, c)) whole (sym kept))
        (check_endpoint-host ctx host config short),
)

-- The settings that the parser fills in, with the host that is kept.
abbrev pub filled_with : Context → String → Config
filled_with c host = record {
  log_level = c.value int_flag "v";
  scan_interval = c.value duration_flag "scan-interval";
  tenant_id = c.value string_flag "tenant-id";
  cluster_id = c.value string_flag "cluster-id";
  cdi_endpoint = host;
  use_capi_bmh = c.value bool_flag "use-capi-bmh";
  use_cm = c.value bool_flag "use-cm";
}

-- What the manager is started with, for the flags of the command line.
pub record IsConfigured (c : Context) (config : Config) : Type 0 where
  pub scanned :
      (n : ℕ) × (config.scan_interval ≡ pos n) × (5 * time_second ≤ n) × (n ≤ 86400 * time_second)
  pub tenant : IsUuid config.tenant_id
  pub cluster : config.use_cm ≡ true → IsUuid config.cluster_id
  pub endpoint : "https://" ⧺ config.cdi_endpoint ≡ c.value string_flag "cdi-endpoint"
  pub short : byte_length config.cdi_endpoint ≤ 992
  pub others : config ≡ filled_with c config.cdi_endpoint

module _ (c : Context) where
  cluster_id_given :
      before c ≡ ok tt → c.value bool_flag "use-cm" ≡ true → c.value string_flag "cluster-id" ≢ ""
  unfolding before byte_length
  cluster_id_given e on none_given = elim (Bool-cases (ltb 0 (length c.args))) [
    | inl some_left ↦ cc (rw some_left at e)
    | inr well ↦ cc (rw (well, on, none_given) at e)
  ]

  abbrev HasInterval : ℤ → Type 0
  HasInterval z = (n : ℕ) × (z ≡ pos n) × (5 * time_second ≤ n) × (n ≤ 86400 * time_second)

  module _ (start after : Config) where
    interval_step :
        (set : Bool) (interval : ℤ)
        → When set Unit ((false ≡ false) × (interval ≡ pos (60 * time_second)))
        → When set (check_scan_interval c interval start ≡ (ok tt, after)) (after ≡ start)
        → (after ≡ start) × HasInterval interval
    interval_step true interval given called =
        check_scan_interval-bounds c interval start after called
    interval_step false interval (free, e) called =
        (called, (60 * time_second, e, omega arith, omega arith))

    tenant_step :
        (set : Bool) (id : String)
        → When set Unit ((true ≡ false) × (id ≡ ""))
        → When set (check_tenant_id c id start ≡ (ok tt, after)) (after ≡ start)
        → (after ≡ start) × IsUuid id
    tenant_step true id given called = check_tenant_id-Describes c id start after called
    tenant_step false id (free, e) called = cc free

    cluster_step :
        (set : Bool) (id : String)
        → (c.value bool_flag "use-cm" ≡ true → id ≢ "")
        → When set Unit ((false ≡ false) × (id ≡ ""))
        → When set (check_cluster_id c id start ≡ (ok tt, after)) (after ≡ start)
        → (after ≡ start) × (c.value bool_flag "use-cm" ≡ true → IsUuid id)
    cluster_step true id there given called = check_cluster_id-Describes c id start after called
    cluster_step false id there (free, e) called = (called, λ on. absurd (there on e))

    endpoint_step :
        (set : Bool) (endpoint : String)
        → When set Unit ((true ≡ false) × (endpoint ≡ ""))
        → When set (check_endpoint c endpoint start ≡ (ok tt, after)) (after ≡ start)
        → (host : String) × (after ≡ record start { cdi_endpoint = host })
          × ("https://" ⧺ host ≡ endpoint)
          × (byte_length host ≤ 992)
    endpoint_step true endpoint given called = check_endpoint-prefix c endpoint start after called
    endpoint_step false endpoint (free, e) called = cc free

  -- Where the command line leads to the start of the manager, the scan interval is from 5 to 86400
  -- seconds, the tenant id is a UUID, the cluster id is one where the cluster manager is used, the
  -- endpoint given is `https://` and the host that is kept, which has at most 992 bytes, and the other
  -- settings are the values of their flags.
  pub Reaches-IsConfigured : (config : Config) → Reaches c config → IsConfigured c config
  Reaches-IsConfigured config r =
      let (g0, (g1, (g2, (g3, (g4, (g5, (g6, end))))))) = r.given in
      let (b0, k0, (b1, k1, (b2, k2, (b3, k3, (b4, k4, (b5, k5, (b6, k6, last))))))) = r.called in
      let (e1, interval) = interval_step b0 b1 (c.is_set "scan-interval") _ g1 k1 in
      let (e2, tenant) = tenant_step b1 b2 (c.is_set "tenant-id") _ g2 k2 in
      let (e3, cluster) =
        cluster_step b2 b3 (c.is_set "cluster-id") _ (cluster_id_given r.accepted) g3 k3 in
      let (host, e4, whole, short) = endpoint_step b3 b4 (c.is_set "cdi-endpoint") _ g4 k4 in
      let unchanged : b3 ≡ r.filled = e3 ∙ e2 ∙ e1 ∙ When-same (c.is_set "v") k0 in
      let same : config ≡ filled_with c host =
        last
        ∙ When-same (c.is_set "use-cm") k6
        ∙ When-same (c.is_set "use-capi-bmh") k5
        ∙ e4
        ∙ ap (λ (s : Config). record s { cdi_endpoint = host }) (unchanged ∙ r.parsed) in
      subst (IsConfigured c) (sym same) (record {
        scanned = interval;
        tenant = tenant;
        cluster = cluster;
        endpoint = whole;
        short = short;
        others = refl;
      })

-- ===== src/Main/Flags.antt =====
-- main.go: newApp's flags and their checks.
use Prim.Native.Char.{Char, code}
use composable_dra_driver.Base.{
  ℕ, ◌*◌, ltb, leb, ℤ, pos, ltb_ℤ, String, Bool, true, false, ◌&&◌, ◌||◌, Option, none, some, List,
  [], ◌∷◌, Outcome, ok, err, Action, pure, fail, length, nat_beq, if◌then◌else◌,
}
use composable_dra_driver.Base.Text.{◌⧺◌, byte_length, has_prefix, trim_prefix}
use composable_dra_driver.Config.Types.{Config}
use composable_dra_driver.Main.Pattern.{Piece, match_string}

-- The kinds of flags, with the types of their values.
pub data Kind : Type 0 where
  int_flag duration_flag string_flag bool_flag : Kind

abbrev pub Of : Kind → Type 0
Of int_flag = ℤ
Of duration_flag = ℤ
Of string_flag = String
Of bool_flag = Bool

-- cli.Context: the arguments that are no flags, which flags are set, by the command line or the
-- environment, and their values.
pub record Context : Type 0 where
  pub args : List String
  pub is_set : String → Bool
  pub value : (k : Kind) → String → Of k

-- A cli.Flag with an Action for what it is set to, where it has one.
pub record Flag (k : Kind) : Type 0 where
  pub name : String
  pub env_vars : List String
  pub required : Bool
  pub default : Of k
  pub destination : Of k → Config → Config
  pub action : Option (Context → Of k → Action Config (Unit {0}))

pub data AnyFlag : Type 0 where
  flag : (k : Kind) → Flag k → AnyFlag

abbrev pub time_second : ℕ
time_second = 1000000000

abbrev between : ℕ → ℕ → Char → Bool
between low high c = leb low (code c) && leb (code c) high

-- [a-fA-F0-9]
abbrev pub is_hex : Char → Bool
is_hex c = between 97 102 c || between 65 70 c || between 48 57 c

abbrev pub is_dash : Char → Bool
is_dash c = nat_beq (code c) 45

abbrev hex : ℕ → Piece
hex n = record { count = n; accepts = is_hex }

abbrev dash : Piece
dash = record { count = 1; accepts = is_dash }

abbrev pub uuid_format : List Piece
uuid_format = hex 8 ∷ dash ∷ hex 4 ∷ dash ∷ hex 4 ∷ dash ∷ hex 4 ∷ dash ∷ hex 12 ∷ []

unfoldable pub check_scan_interval : Context → ℤ → Action Config (Unit {0})
check_scan_interval ctx scan_interval =
    if ltb_ℤ scan_interval (pos (5 * time_second))
      || ltb_ℤ (pos (86400 * time_second)) scan_interval
    then fail "scan interval must be set from 5s to 86400s"
    else pure tt

unfoldable pub check_tenant_id : Context → String → Action Config (Unit {0})
check_tenant_id ctx tenant_id =
    if match_string uuid_format tenant_id
    then pure tt
    else fail "tenant id must be set as uuid format"

unfoldable pub check_cluster_id : Context → String → Action Config (Unit {0})
check_cluster_id ctx cluster_id =
    if ctx.value bool_flag "use-cm"
    then if match_string uuid_format cluster_id
      then pure tt
      else fail "cluster id must be set as uuid format"
    else pure tt

unfoldable pub check_endpoint : Context → String → Action Config (Unit {0})
check_endpoint ctx endpoint config =
    if ltb 1000 (byte_length endpoint)
    then (err "cdi endpoint length must be set within 1000 bytes", config)
    else if has_prefix endpoint "https://"
    then (ok tt, record config { cdi_endpoint = trim_prefix endpoint "https://" })
    else (err "cdi endpoint format must be set starting https://", config)

-- The Flags of the app, in their order.
abbrev pub flags : List AnyFlag
flags =
    flag int_flag (record {
      name = "v";
      env_vars = [];
      required = false;
      default = pos 0;
      destination = λ level config. record config { log_level = level };
      action = none;
    })
    ∷ flag duration_flag (record {
      name = "scan-interval";
      env_vars = "SCAN_INTERVAL" ∷ [];
      required = false;
      default = pos (60 * time_second);
      destination = λ interval config. record config { scan_interval = interval };
      action = some check_scan_interval;
    })
    ∷ flag string_flag (record {
      name = "tenant-id";
      env_vars = "TENANT_ID" ∷ [];
      required = true;
      default = "";
      destination = λ id config. record config { tenant_id = id };
      action = some check_tenant_id;
    })
    ∷ flag string_flag (record {
      name = "cluster-id";
      env_vars = "CLUSTER_ID" ∷ [];
      required = false;
      default = "";
      destination = λ id config. record config { cluster_id = id };
      action = some check_cluster_id;
    })
    ∷ flag string_flag (record {
      name = "cdi-endpoint";
      env_vars = "CDI_ENDPOINT" ∷ [];
      required = true;
      default = "";
      destination = λ endpoint config. record config { cdi_endpoint = endpoint };
      action = some check_endpoint;
    })
    ∷ flag bool_flag (record {
      name = "use-capi-bmh";
      env_vars = "USE_CAPI_BMH" ∷ [];
      required = false;
      default = false;
      destination = λ b config. record config { use_capi_bmh = b };
      action = none;
    })
    ∷ flag bool_flag (record {
      name = "use-cm";
      env_vars = "USE_CM" ∷ [];
      required = false;
      default = false;
      destination = λ b config. record config { use_cm = b };
      action = none;
    })
    ∷ []

abbrev joined : List String → String
joined [] = ""
joined (a ∷ []) = a
joined (a ∷ b ∷ rest) = a ⧺ " " ⧺ joined (b ∷ rest)

-- The app's Before.
unfoldable pub before : Context → Outcome (Unit {0})
before c =
    if ltb 0 (length c.args)
    then err ("arguments not supported: " ⧺ "[" ⧺ joined c.args ⧺ "]")
    else if c.value bool_flag "use-cm"
    then if nat_beq (byte_length (c.value string_flag "cluster-id")) 0
      then err "cluster id must be set when USE_CM is true"
      else ok tt
    else ok tt

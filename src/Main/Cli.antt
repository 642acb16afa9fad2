-- ===== src/Main/Cli.antt =====
-- main.go: what newApp relies on of github.com/urfave/cli, as its manual describes App.Run.
use composable_dra_driver.Base.{
  pos, Bool, true, false, Option, none, some, List, [], ◌∷◌, ok, Action, ◌≡◌, ◌⊎◌, inl, inr, refl,
}
use composable_dra_driver.Config.Types.{Config}
use composable_dra_driver.Main.Flags.{Kind, Of, Context, Flag, AnyFlag, flag, flags, before}

-- Config{}: every field has the zero value of its type.
abbrev pub no_config : Config
no_config = record {
  log_level = pos 0;
  scan_interval = pos 0;
  tenant_id = "";
  cluster_id = "";
  cdi_endpoint = "";
  use_capi_bmh = false;
  use_cm = false;
}

abbrev pub When : Bool → Type 0 → Type 0 → Type 0
When true A B = A
When false A B = B

pub When-cases : {A B : Type 0} (b : Bool) → When b A B → ((b ≡ true) × A) ⊎ ((b ≡ false) × B)
When-cases true a = inl (refl, a)
When-cases false b = inr (refl, b)

pub When-same : {A : Type 0} (b : Bool) → When b A A → A
When-same true a = a
When-same false a = a

module _ (c : Context) where
  -- A Destination receives the value of its flag.
  abbrev pub Parsed : List AnyFlag → Config → Config → Type 0
  Parsed [] start after = after ≡ start
  Parsed (flag k f ∷ rest) start after = Parsed rest (f.destination (c.value k f.name) start) after

  abbrev pub Answered :
      (k : Kind)
      → Option (Context → Of k → Action Config (Unit {0}))
      → Of k
      → Config
      → Config
      → Type 0
  Answered k none value start after = after ≡ start
  Answered k (some act) value start after = act c value start ≡ (ok tt, after)

  -- The Action of a flag that is set is called, and has returned nil; no other is called.
  abbrev pub Called : {k : Kind} → Flag k → Config → Config → Type 0
  Called {k} f start after =
      When (c.is_set f.name) (Answered k f.action (c.value k f.name) start after) (after ≡ start)

  -- The flags' Actions are called in the order of the flags.
  abbrev pub AllCalled : List AnyFlag → Config → Config → Type 0
  AllCalled [] start after = after ≡ start
  AllCalled (flag k f ∷ rest) start after =
      (between : Config) × Called f start between × AllCalled rest between after

  -- A flag that is required is set, and one that is not set has its default value.
  abbrev pub Given : AnyFlag → Type 0
  Given (flag k f) =
      When (c.is_set f.name) Unit ((f.required ≡ false) × (c.value k f.name ≡ f.default))

  abbrev pub AllGiven : List AnyFlag → Type 0
  AllGiven [] = Unit
  AllGiven (f ∷ rest) = Given f × AllGiven rest

  -- App.Run comes to the app's Action, with this Config.
  pub record Reaches (config : Config) : Type 0 where
    pub given : AllGiven flags
    pub filled : Config
    pub parsed : Parsed flags no_config filled
    pub accepted : before c ≡ ok tt
    pub called : AllCalled flags filled config

-- ===== src/Manager/Pools/Contents.antt =====
-- pkg/manager/manager.go: the whole contents of the pool that generatePool makes.
use composable_dra_driver.Base.{
  ℕ, ◌<◌, ℤ, pos, pos_part, String, true, Option, none, some, List, [], ◌∷◌, length, get_elem?, ◌≡◌,
  refl, sym, ◌∙◌, arith, string_eq,
}
use composable_dra_driver.Base.Dict.{Dict, lookup, insert, Distinct, lookup-insert}
use composable_dra_driver.Base.Order.{Range, IsOrder, lookup-range, range-Distinct}
use composable_dra_driver.Base.Text.{◌⧺◌, itoa}
use composable_dra_driver.Manager.Types.{Device, ResourceDevice, Pool, Settings}
use composable_dra_driver.Manager.Pools.{
  copy_attributes, resource_device, resource_devices, generate_pool,
}
use composable_dra_driver.Manager.Pools.Shape.{generate_pool-devices, number_inj}

-- A device of a slice: its name ends in its number, and its attributes are the map that is given.
pub record IsDeviceOf (name : String) (attributes : Dict String String) (i : ℕ) (d : ResourceDevice)
    : Type 0 where
  pub named : d.name ≡ name ⧺ "-" ⧺ itoa (pos i)
  pub attributed : (key : String) → lookup key d.attributes ≡ lookup key attributes
  pub binds : d.binds_to_node ≡ true
  pub ready : d.binding_conditions ≡ "FabricDeviceReady" ∷ []
  pub failing : d.binding_failure_conditions ≡ "FabricDeviceReschedule" ∷ "FabricDeviceFailed" ∷ []

-- The pool of a device on a fabric: it is for the nodes with the labels of both, and its one slice
-- has `count` devices, numbered from 0.
pub record IsPoolOf (prefix name : String) (attributes : Dict String String) (fabric_id : ℤ)
    (count : ℕ) (p : Pool) : Type 0 where
  pub devices : List ResourceDevice
  pub selected :
      p.node_selector
      ≡ (record { key = prefix ⧺ "/" ⧺ name; values = "true" ∷ [] }
          ∷ record { key = prefix ⧺ "/" ⧺ "fabric"; values = itoa fabric_id ∷ [] }
          ∷ [])
        ∷ []
  pub sliced : p.slices ≡ record { devices = devices } ∷ []
  pub counted : length devices ≡ count
  pub each :
      (i : ℕ)
      → i < count
      → (d : ResourceDevice) × (get_elem? devices i ≡ some d) × IsDeviceOf name attributes i d

abbrev copied : Option String → Option String → Option String
copied none before = before
copied (some v) before = some v

copied-none : (o : Option String) → copied o none ≡ o
copied-none none = refl
copied-none (some v) = refl

lookup-copy_attributes :
    (entries out : Dict String String) (key : String)
    → Distinct entries
    → lookup key (copy_attributes entries out) ≡ copied (lookup key entries) (lookup key out)
unfolding copy_attributes lookup
lookup-copy_attributes [] out key d = refl
lookup-copy_attributes ((k, v) ∷ rest) out key d = ground (
  arith,
  lookup-copy_attributes rest (insert k v out) key d.1,
  lookup-insert k key v out,
  string_eq.equals_iff k key,
)

module _ {range : Range} (order : IsOrder range) where
  resource_device-IsDeviceOf :
      (device : Device) (i : ℕ)
      → Distinct device.dra_attributes
      → IsDeviceOf device.k8s_device_name device.dra_attributes i (resource_device range device i)
  unfolding resource_device lookup
  resource_device-IsDeviceOf device i distinct = record {
    named = refl;
    attributed = λ key.
        lookup-copy_attributes (range String String device.dra_attributes) [] key
          (range-Distinct order device.dra_attributes distinct)
        ∙ copied-none (lookup key (range String String device.dra_attributes))
        ∙ lookup-range order device.dra_attributes distinct key;
    binds = refl;
    ready = refl;
    failing = refl;
  }

  -- Whatever the order of the attributes, which have distinct keys, the pool of a device is for the
  -- nodes with the labels of the device and the fabric, and has the generation it is given and one
  -- slice, with as many devices as are available, none where the count is negative; the device with
  -- the number i is named after it, has the attributes of the device, binds to its node and has the
  -- three binding conditions; no two have one name.
  pub generate_pool-IsPoolOf :
      (m : Settings) (device : Device) (fabric_id generation : ℤ)
      → Distinct device.dra_attributes
      → let p = generate_pool range m device fabric_id generation in
        IsPoolOf m.label_prefix device.k8s_device_name device.dra_attributes fabric_id
          (pos_part device.available_device_count)
          p
        × (p.generation ≡ generation)
        × ((i j : ℕ) (d e : ResourceDevice)
            → IsDeviceOf device.k8s_device_name device.dra_attributes i d
            → IsDeviceOf device.k8s_device_name device.dra_attributes j e
            → d.name ≡ e.name
            → i ≡ j)
  unfolding generate_pool
  generate_pool-IsPoolOf m device fabric_id generation distinct =
      let (sliced, counted, each) = generate_pool-devices range m device fabric_id generation in
      (
        record {
          devices = resource_devices range device 0 (pos_part device.available_device_count);
          selected = refl;
          sliced = sliced;
          counted = counted;
          each = λ i h. (
            resource_device range device i,
            each i h,
            resource_device-IsDeviceOf device i distinct,
          );
        },
        refl,
        λ i j d e one other same.
            number_inj device.k8s_device_name i j (sym one.named ∙ same ∙ other.named),
      )

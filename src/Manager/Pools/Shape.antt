-- ===== src/Manager/Pools/Shape.antt =====
-- pkg/manager/manager.go: what generatePool puts into a pool.
use mathlib.Core.Path.{◌≡◌, refl, ap, ◌∙◌}
use Prim.Native.Nat.{◌<◌}
use text.Mathlib.TextLemmas.{append_cancel_left}
use composable_dra_driver.Base.{
  String, ℕ, zero, suc, ◌+◌, ℤ, pos, pos_part, some, [], ◌∷◌, length, get_elem?, arith,
}
use composable_dra_driver.Base.Order.{Range}
use composable_dra_driver.Base.Text.{◌⧺◌, itoa, itoa_inj}
use composable_dra_driver.Manager.Types.{Device, Settings}
use composable_dra_driver.Manager.Pools.{resource_device, resource_devices, generate_pool}

module _ (range : Range) where
  length-resource_devices :
      (device : Device) (i rounds : ℕ) → length (resource_devices range device i rounds) ≡ rounds
  unfolding resource_devices
  length-resource_devices device i zero = refl
  length-resource_devices device i (suc rounds) =
      ap suc (length-resource_devices device (i + 1) rounds)

  get_elem?-resource_devices :
      (device : Device) (i rounds k : ℕ)
      → k < rounds
      → get_elem? (resource_devices range device i rounds) k
        ≡ some (resource_device range device (i + k))
  unfolding resource_devices
  get_elem?-resource_devices device i zero k h = absurd (omega arith)
  get_elem?-resource_devices device i (suc rounds) zero h =
      ap (λ (j : ℕ). some (resource_device range device j)) (omega arith)
  get_elem?-resource_devices device i (suc rounds) (suc k) h =
      get_elem?-resource_devices device (i + 1) rounds k (omega arith)
      ∙ ap (λ (j : ℕ). some (resource_device range device j)) (omega arith)

  -- The pool of a device has one slice, with as many devices as are available, the i-th of them made
  -- for the number i; it has no device where the count is negative.
  pub generate_pool-devices :
      (m : Settings) (device : Device) (fabric_id generation : ℤ)
      → let p = generate_pool range m device fabric_id generation in
        let devices = resource_devices range device 0 (pos_part device.available_device_count) in
        (p.slices ≡ record { devices = devices } ∷ [])
        × (length devices ≡ pos_part device.available_device_count)
        × ((i : ℕ)
            → i < pos_part device.available_device_count
            → get_elem? devices i ≡ some (resource_device range device i))
  unfolding generate_pool
  generate_pool-devices m device fabric_id generation = (
    refl,
    length-resource_devices device 0 (pos_part device.available_device_count),
    λ i h.
        get_elem?-resource_devices device 0 (pos_part device.available_device_count) i h
        ∙ ap (λ (j : ℕ). some (resource_device range device j)) (omega arith),
  )

-- Two numbers make two names.
pub number_inj :
    (name : String) (i j : ℕ) → name ⧺ "-" ⧺ itoa (pos i) ≡ name ⧺ "-" ⧺ itoa (pos j) → i ≡ j
number_inj name i j e = cc (itoa_inj (pos i) (pos j) (append_cancel_left (name ⧺ "-") _ _ e))

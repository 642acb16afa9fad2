-- ===== src/Manager/Slices/Reorder.antt =====
-- pkg/manager/manager.go: the jobs of two calls that go through the device lists in other orders.
use composable_dra_driver.Base.{
  ℤ, String, Bool, Option, none, some, List, [], ◌∷◌, ◌++◌, All, All-append, ◌↔◌, Bool-cases, inl,
  inr, int_eq,
}
use composable_dra_driver.Base.Dict.{Dict, flag}
use composable_dra_driver.Base.Order.{Range, IsOrder, All-perm}
use composable_dra_driver.Manager.Types.{Device, Machine}
use composable_dra_driver.Manager.Slices.Jobs.{Job, device_jobs, fabric_jobs, found_after, jobs}

All-split : {A : Type 0} (P : A → Type 0) (xs ys : List A) → All P (xs ++ ys) → All P xs × All P ys
All-split P [] ys h = (tt, h)
All-split P (x ∷ xs) ys h = let (hx, hy) = All-split P xs ys h.1 in ((h.0, hx), hy)

module _ (P : Job → Type 0) where
  abbrev OfEntry : ℤ → String × Device → Type 0
  OfEntry f e = P (record { device = e.1; fabric_id = f })

  device_jobs-OfEntry :
      (f : ℤ) (entries : List (String × Device))
      → All P (device_jobs f entries) ↔ All (OfEntry f) entries
  unfolding device_jobs
  device_jobs-OfEntry f [] = (λ h. h, λ h. h)
  device_jobs-OfEntry f ((model, device) ∷ rest) =
      let (there, back) = device_jobs-OfEntry f rest in
      (λ h. (h.0, there h.1), λ h. (h.0, back h.1))

  module _ {range other : Range} (order : IsOrder range) (another : IsOrder other) where
    fabric_jobs_reordered :
        (o : Option ℤ) (machine : Machine) (found : Dict ℤ Bool)
        → All P (fabric_jobs range o machine found)
        → All P (fabric_jobs other o machine found)
    unfolding fabric_jobs
    fabric_jobs_reordered none machine found h = h
    fabric_jobs_reordered (some f) machine found h = elim (Bool-cases (flag f found)) [
      | inl old ↦ rw old tt
      | inr new ↦ rw new (
          let list = machine.device_list in
          let listed = (device_jobs-OfEntry f (range String Device list)).0 (rw new at h) in
          let plain = (All-perm (OfEntry f) (order.once String Device list)).1 listed in
          (device_jobs-OfEntry f (other String Device list)).1
            ((All-perm (OfEntry f) (another.once String Device list)).0 plain))
    ]

    -- What holds of every job in one order holds of every job in another.
    pub jobs_reordered :
        (machines : List Machine) (found : Dict ℤ Bool)
        → All P (jobs range machines found)
        → All P (jobs other machines found)
    unfolding jobs
    jobs_reordered [] found h = tt
    jobs_reordered (machine ∷ rest) found h =
        let (here, later) = All-split P (fabric_jobs range machine.fabric_id machine found) _ h in
        All-append P (fabric_jobs other machine.fabric_id machine found) _
          (fabric_jobs_reordered machine.fabric_id machine found here)
          (jobs_reordered rest (found_after machine.fabric_id found) later)

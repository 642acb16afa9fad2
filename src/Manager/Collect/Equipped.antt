-- ===== src/Manager/Collect/Equipped.antt =====
-- pkg/manager/manager.go: one machine in the loop of startCheckResourcePoolLoop that copies the lists
-- of the fabrics.
use composable_dra_driver.Base.{
  ℕ, ◌≤◌, ◌<◌, ℤ, String, some, none, Option, int_beq, int_eq, Bool, true, false, if◌then◌else◌,
  lift, string_eq, List, [], ◌∷◌, ok, panic, Action, pure, ◌>>=◌, ◌≡◌, inl, inr, refl, sym, subst,
  arith,
}
use composable_dra_driver.Base.Dict.{lookup, Distinct}
use composable_dra_driver.Base.Order.{Range, IsOrder}
use composable_dra_driver.Manager.Types.{DeviceList, Machine}
use composable_dra_driver.Manager.Collect.{deep_copy, copy_to_machine}
use composable_dra_driver.Manager.Collect.Shared.{Store, Pointers, deep_copy_pointers}
use composable_dra_driver.Manager.Collect.Copying.{Stands, Points-frame, SameBelow}
use composable_dra_driver.Manager.Collect.Writing.{fields}
use composable_dra_driver.Manager.Collect.Aliasing.{deep_copy_pointers-IsCopied, same_fields}
use composable_dra_driver.Manager.Collect.Pointed.{Pointed, with_devices, copy_to_pointed}
use composable_dra_driver.Manager.Collect.Housed.{Holds, Steps}
use composable_dra_driver.Manager.Collect.Stepping.{IsBase}

-- The pointers of a fabric's list, all below `n`, lead to the devices.
pub record Backs (n : ℕ) (p : Pointers) (devices : DeviceList) (s : Store) : Type 0 where
  pub used : (k : String) (a : ℕ) → lookup k p ≡ some a → a < n
  pub stands : Stands s p (fields devices)

-- The lists of the fabrics in the store and as values, no two devices of a list with one model.
abbrev pub AreBacked : ℕ → Store → List (ℤ × Pointers) → List (ℤ × DeviceList) → Type 0
AreBacked n s [] [] = Unit
AreBacked n s [] (v ∷ values) = ⊥
AreBacked n s (f ∷ fabrics) [] = ⊥
AreBacked n s ((f, p) ∷ fabrics) ((g, devices) ∷ values) =
    (f ≡ g) × Distinct p × Distinct devices × Backs n p devices s × AreBacked n s fabrics values

module _ (n : ℕ) where
  pub Backs-IsBase : (p : Pointers) (devices : DeviceList) → IsBase n (Backs n p devices)
  Backs-IsBase p devices = record {
    stays = λ s t same grown b. record {
      used = b.used;
      stands = λ k.
          Points-frame s t (lookup k p) (lookup k devices) (λ a e. same a (b.used k a e))
            (b.stands k);
    };
  }

  pub AreBacked-frame :
      (s t : Store) (fabrics : List (ℤ × Pointers)) (values : List (ℤ × DeviceList))
      → SameBelow n s t
      → s.next ≤ t.next
      → AreBacked n s fabrics values
      → AreBacked n t fabrics values
  AreBacked-frame s t [] [] same grown h = h
  AreBacked-frame s t [] (v ∷ values) same grown h = h
  AreBacked-frame s t (f ∷ fabrics) [] same grown h = h
  AreBacked-frame s t ((f, p) ∷ fabrics) ((g, devices) ∷ values) same grown (e, dp, dd, b, more) = (
    e,
    dp,
    dd,
    (Backs-IsBase p devices).stays s t same grown b,
    AreBacked-frame s t fabrics values same grown more,
  )

  -- Nothing happens to a machine.
  pub stayed :
      (s : Store) (machine : Pointed) (value : Machine)
      → Holds n s machine value
      → Steps n s machine (ok value) (ok machine, s)
  stayed s machine value h =
      (machine, refl, h, record { grown = omega arith; same = λ a low no. refl }, (λ a e. inl e))

  module _ {range : Range} (order : IsOrder range) where
    module _ (f : ℤ) (p : Pointers) (devices : DeviceList) (s : Store) (machine : Pointed)
        (old : DeviceList) (dp : Distinct p) (dd : Distinct devices) (b : Backs n p devices s)
        (room : n ≤ s.next) (h : Holds n s machine (with_devices machine old)) where
      -- The machine of the fabric has a copy of the list.
      copied :
          Steps n s machine
            (ok (with_devices machine (deep_copy range devices)))
            ((deep_copy_pointers range p >>= λ own. pure (record machine { device_list = own })) s)
      copied =
          let done =
            deep_copy_pointers-IsCopied order p dp s (λ k a e. omega (arith, room, b.used k a e))
              (fields devices) b.stands in
          let out = deep_copy_pointers range p s in
          rw done.made (
            record machine { device_list = done.copy },
            refl,
            record {
              devices = deep_copy range devices;
              equal = refl;
              stands = same_fields order p devices [] s done.copy out.1 dd done.stands;
              own = record {
                apart = done.own.apart;
                within = λ k a e.
                    (omega (arith, room, (done.own.within k a e).0), (done.own.within k a e).1);
              };
            },
            record { grown = done.grown; same = λ a low no. done.same a low },
            (λ a e. inr (done.own.within e.0 a e.1).0),
          )

      copied_if :
          (same : Bool)
          → Steps n s machine
              (if same
                then ok (with_devices machine (deep_copy range devices))
                else ok (with_devices machine old))
              ((if same
                  then (deep_copy_pointers range p >>= λ own.
                      pure (record machine { device_list = own }))
                  else pure machine)
                s)
      copied_if true = copied
      copied_if false = stayed s machine (with_devices machine old) h

      abbrev copy_for : Option ℤ → Action Store Pointed
      copy_for none = lift panic
      copy_for (some g) =
          if int_beq g f
          then (deep_copy_pointers range p >>= λ own. pure (record machine { device_list = own }))
          else pure machine

      copied_for :
          (o : Option ℤ)
          → Steps n s machine
              (elim o [
                | none ↦ panic
                | some g ↦
                    if int_beq g f
                    then ok (with_devices machine (deep_copy range devices))
                    else ok (with_devices machine old)
              ])
              (copy_for o s)
      copied_for none = refl
      copied_for (some g) = copied_if (int_beq g f)

    pub copy_step :
        (f : ℤ) (p : Pointers) (devices : DeviceList) (s : Store) (machine : Pointed)
        (value : Machine)
        → Distinct p
        → Distinct devices
        → Backs n p devices s
        → n ≤ s.next
        → Holds n s machine value
        → Steps n s machine
            (copy_to_machine range f devices value)
            (copy_to_pointed range f p machine s)
    unfolding copy_to_machine copy_to_pointed
    copy_step f p devices s machine value dp dd b room h =
        subst
          (λ (v : Machine).
            Steps n s machine (copy_to_machine range f devices v)
              (copy_to_pointed range f p machine s))
          (sym h.equal)
          (copied_for f p devices s machine h.devices dp dd b room
            (subst (Holds n s machine) h.equal h) machine.fabric_id)

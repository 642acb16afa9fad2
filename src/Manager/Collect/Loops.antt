-- ===== src/Manager/Collect/Loops.antt =====
-- pkg/manager/manager.go: the loops of startCheckResourcePoolLoop that copy and limit devices through
-- pointers, against the same loops over devices as values.
use composable_dra_driver.Base.{
  ℕ, ◌≤◌, ℤ, String, int_eq, Bool, true, false, if◌then◌else◌, string_eq, List, [], ◌∷◌, Outcome,
  ok, err, panic, continue, Action, pure, ◌>>=◌, and_then, ◌≡◌, inl, refl, sym, subst, ◌∙◌, arith,
  ◌==◌,
}
use composable_dra_driver.Base.Order.{Range, IsOrder}
use composable_dra_driver.Manager.Types.{DeviceList, Machine}
use composable_dra_driver.Manager.Fetch.{Limit}
use composable_dra_driver.Manager.Collect.{
  Limits, set_limits, copy_to_machine, copy_fabrics, limit_machine, limit_groups,
}
use composable_dra_driver.Manager.Collect.Shared.{Store, Pointers, write_limits}
use composable_dra_driver.Manager.Collect.Copying.{Stands, IsOwn, SameBelow}
use composable_dra_driver.Manager.Collect.Writing.{fields, Mirrors, write_limits-Mirrors}
use composable_dra_driver.Manager.Collect.Pointed.{
  Pointed, with_devices, copy_to_pointed, each_pointed, copy_fabric_pointers, limit_pointed,
  limit_group_pointers, equip_machines,
}
use composable_dra_driver.Manager.Collect.Housed.{Holds, AreHoused, Steps, AllStep}
use composable_dra_driver.Manager.Collect.Stepping.{IsBase, below, each-AllStep}
use composable_dra_driver.Manager.Collect.Equipped.{
  AreBacked, Backs-IsBase, AreBacked-frame, stayed, copy_step,
}

-- The loops end as they do with values: with machines that own their devices and have those of the
-- values, and with every device below `n` as it was.
abbrev pub Ends : ℕ → Store → Outcome (List Machine) → Outcome (List Pointed) × Store → Type 0
Ends n s (ok values) out =
    (machines : List Pointed) × (out.0 ≡ ok machines)
    × AreHoused n out.1 machines values
    × SameBelow n s out.1
    × (s.next ≤ out.1.next)
Ends n s (err e) out = out.0 ≡ err e
Ends n s panic out = out.0 ≡ panic

module _ (n : ℕ) where
  limited_step :
      (s : Store) (machine : Pointed) (old : DeviceList) (r : Outcome DeviceList)
      (out : Outcome (Unit {0}) × Store)
      → IsOwn n s machine.device_list
      → Mirrors s machine.device_list r out
      → Steps n s machine
          (and_then r (λ devices. ok (with_devices machine devices)))
          (continue out.0 (λ u. pure machine) out.1)
  limited_step s machine old (err e) out own h = rw h refl
  limited_step s machine old panic out own h = rw h refl
  limited_step s machine old (ok devices) out own (well, stands, (next, kept)) = rw well (
    machine,
    refl,
    record {
      devices = devices;
      equal = refl;
      stands = stands;
      own = record {
        apart = own.apart;
        within = λ k a e. ((own.within k a e).0, omega (arith, (own.within k a e).1, next));
      };
    },
    record { grown = omega (arith, next); same = λ a low no. kept a (λ k e. no (k, e)) },
    (λ a e. inl e),
  )

  limited_if :
      (range : Range) (limits : Limits) (s : Store) (machine : Pointed) (old : DeviceList)
      (same : Bool)
      → Holds n s machine (with_devices machine old)
      → Stands s machine.device_list (fields old)
      → Steps n s machine
          (if same
            then (and_then
                (set_limits (range String Limit limits) old)
                λ devices. ok (with_devices machine devices))
            else ok (with_devices machine old))
          ((if same
              then (write_limits (range String Limit limits) machine.device_list >>= λ u.
                  pure machine)
              else pure machine)
            s)
  limited_if range limits s machine old true h stands =
      limited_step s machine old _ _ h.own
        (write_limits-Mirrors n machine.device_list (range String Limit limits) old s h.own stands)
  limited_if range limits s machine old false h stands =
      stayed n s machine (with_devices machine old) h

  limit_step :
      (range : Range) (group : String) (limits : Limits) (s : Store) (machine : Pointed)
      (value : Machine)
      → Holds n s machine value
      → Steps n s machine
          (limit_machine range group limits value)
          (limit_pointed range group limits machine s)
  unfolding limit_machine limit_pointed
  limit_step range group limits s machine value h =
      subst
        (λ (v : Machine).
          Steps n s machine (limit_machine range group limits v)
            (limit_pointed range group limits machine s))
        (sym h.equal)
        (limited_if range limits s machine h.devices (machine.node_group_uuid == group)
          (subst (Holds n s machine) h.equal h) h.stands)

  AllStep-Ends :
      (s : Store) (machines : List Pointed) (values : List Machine) (r : Outcome (List Machine))
      (out : Outcome (List Pointed) × Store)
      → n ≤ s.next
      → AreHoused n s machines values
      → AllStep n s machines r out
      → Ends n s r out
  AllStep-Ends s machines values (err e) out room housed h = h
  AllStep-Ends s machines values panic out room housed h = h
  AllStep-Ends s machines values (ok done) out room housed (machines', made, after, changes, kept) =
      (machines', made, after, below n s out.1 machines values housed room changes, changes.grown)

  Ends-after :
      (s t : Store) (r : Outcome (List Machine)) (out : Outcome (List Pointed) × Store)
      → SameBelow n s t
      → s.next ≤ t.next
      → Ends n t r out
      → Ends n s r out
  Ends-after s t (err e) out same grown h = h
  Ends-after s t panic out same grown h = h
  Ends-after s t (ok values) out same grown (machines, made, housed, same', grown') =
      (machines, made, housed, (λ a low. same' a low ∙ same a low), omega (arith, grown, grown'))

  -- What follows a loop.
  Ends-bind :
      (s : Store) (r : Outcome (List Machine)) (out : Outcome (List Pointed) × Store)
      (k : List Machine → Outcome (List Machine)) (l : List Pointed → Action Store (List Pointed))
      → n ≤ s.next
      → Ends n s r out
      → ((t : Store) (machines : List Pointed) (values : List Machine)
          → n ≤ t.next
          → SameBelow n s t
          → s.next ≤ t.next
          → AreHoused n t machines values
          → Ends n t (k values) (l machines t))
      → Ends n s (and_then r k) (continue out.0 l out.1)
  Ends-bind s (err e) out k l room h next = rw h refl
  Ends-bind s panic out k l room h next = rw h refl
  Ends-bind s (ok values) out k l room (machines, made, housed, same, grown) next = rw made (
      Ends-after s out.1 (k values) (l machines out.1) same grown
        (next out.1 machines values (omega (arith, room, grown)) same grown housed))

  module _ {range : Range} (order : IsOrder range) where
    copy_fabric_pointers-Ends :
        (fabrics : List (ℤ × Pointers)) (lists : List (ℤ × DeviceList)) (machines : List Pointed)
        (values : List Machine) (s : Store)
        → n ≤ s.next
        → AreBacked n s fabrics lists
        → AreHoused n s machines values
        → Ends n s (copy_fabrics range lists values) (copy_fabric_pointers range fabrics machines s)
    unfolding copy_fabrics copy_fabric_pointers
    copy_fabric_pointers-Ends [] [] machines values s room backed housed =
        (machines, refl, housed, (λ a low. refl), omega arith)
    copy_fabric_pointers-Ends [] (l ∷ lists) machines values s room backed housed = absurd backed
    copy_fabric_pointers-Ends (f ∷ fabrics) [] machines values s room backed housed = absurd backed
    copy_fabric_pointers-Ends ((f, p) ∷ fabrics) ((g, devices) ∷ lists) machines values s room
          (e, dp, dd, b, more) housed =
        rw e (
          Ends-bind s _ (each_pointed (copy_to_pointed range g p) machines s) _ _ room
            (AllStep-Ends s machines values _ _ room housed (
              each-AllStep n (Backs-IsBase n p devices) (copy_to_machine range g devices)
                (copy_to_pointed range g p)
                (λ t machine value here free held.
                  copy_step n order g p devices t machine value dp dd here free held)
                machines values s b room housed))
            (λ t machines' values' free same grown after.
              copy_fabric_pointers-Ends fabrics lists machines' values' t free
                (AreBacked-frame n s t fabrics lists same grown more) after))

  Anywhere : IsBase n (λ s. Unit {0})
  Anywhere = record { stays = λ s t same grown u. tt }

  limit_group_pointers-Ends :
      (range : Range) (groups : List (String × Limits)) (machines : List Pointed)
      (values : List Machine) (s : Store)
      → n ≤ s.next
      → AreHoused n s machines values
      → Ends n s (limit_groups range groups values) (limit_group_pointers range groups machines s)
  unfolding limit_groups limit_group_pointers
  limit_group_pointers-Ends range [] machines values s room housed =
      (machines, refl, housed, (λ a low. refl), omega arith)
  limit_group_pointers-Ends range ((group, limits) ∷ groups) machines values s room housed =
      Ends-bind s _ (each_pointed (limit_pointed range group limits) machines s) _ _ room
        (AllStep-Ends s machines values _ _ room housed (
          each-AllStep n Anywhere (limit_machine range group limits)
            (limit_pointed range group limits)
            (λ t machine value here free held. limit_step range group limits t machine value held)
            machines values s tt room housed))
        (λ t machines' values' free same grown after.
          limit_group_pointers-Ends range groups machines' values' t free after)

  -- Where the lists of the fabrics lead to their devices at addresses below `n`, no two devices of a
  -- list with one model, and the machines own what they have from `n` on, the loops that copy the lists
  -- into the machines and set the limits of their groups through pointers end as they do with devices
  -- as values. Then no two machines share a device, each has the devices of its value, and every device
  -- below `n`, such as those of the fabrics, is as it was.
  pub equip_machines-Ends :
      {range : Range} (order : IsOrder range) (fabrics : List (ℤ × Pointers))
      (lists : List (ℤ × DeviceList)) (groups : List (String × Limits)) (machines : List Pointed)
      (values : List Machine) (s : Store)
      → n ≤ s.next
      → AreBacked n s fabrics lists
      → AreHoused n s machines values
      → Ends n s
          (and_then (copy_fabrics range lists values) (limit_groups range groups))
          (equip_machines range fabrics groups machines s)
  unfolding equip_machines
  equip_machines-Ends {range} order fabrics lists groups machines values s room backed housed =
      Ends-bind s _ (copy_fabric_pointers range fabrics machines s) _ _ room
        (copy_fabric_pointers-Ends order fabrics lists machines values s room backed housed)
        (λ t machines' values' free same grown after.
          limit_group_pointers-Ends range groups machines' values' t free after)

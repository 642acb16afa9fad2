-- ===== src/Manager/Collect/Stepping.antt =====
-- pkg/manager/manager.go: a loop over the machines of a scan, through pointers and over values.
use composable_dra_driver.Base.{
  ℕ, ◌≤◌, ◌<◌, string_eq, List, [], ◌∷◌, Outcome, ok, err, panic, continue, Action, pure, ◌>>=◌,
  and_then, ◌⊎◌, inl, inr, refl, ◌∙◌, arith,
}
use composable_dra_driver.Manager.Types.{Machine}
use composable_dra_driver.Manager.Collect.{each_machine}
use composable_dra_driver.Manager.Collect.Shared.{Store}
use composable_dra_driver.Manager.Collect.Copying.{SameBelow}
use composable_dra_driver.Manager.Collect.Pointed.{Pointed, each_pointed}
use composable_dra_driver.Manager.Collect.Housed.{
  Has, HaveAny, Holds, AreHoused, Changes, Steps, AllStep, Holds-frame, AreHoused-frame, used,
}

module _ (n : ℕ) where
  -- One machine is done, with its list then in `t`, and the others after it.
  module _ (s t : Store) (machine machine' : Pointed) (value : Machine) (rest : List Pointed)
      (before : List Machine) (apart : (a : ℕ) → Has machine.device_list a → HaveAny rest a → ⊥)
      (housed : AreHoused n s rest before) (holds : Holds n t machine' value)
      (changes : Changes (Has machine.device_list) s t)
      (kept : (a : ℕ) → Has machine'.device_list a → Has machine.device_list a ⊎ (s.next ≤ a)) where
    new_apart : (a : ℕ) → Has machine'.device_list a → HaveAny rest a → ⊥
    new_apart a e r = elim (kept a e) [
      | inl old ↦ apart a old r
      | inr new ↦ omega (arith, new, (used n s rest before a housed r).1)
    ]

    in_use : (a : ℕ) → Has machine'.device_list a → a < t.next
    in_use a (k, e) = (holds.own.within k a e).1

    pub joined_step :
        (r : Outcome (List Machine)) (out : Outcome (List Pointed) × Store)
        → AllStep n t rest r out
        → AllStep n s
            (machine ∷ rest)
            (and_then r (λ values. ok (value ∷ values)))
            (continue out.0 (λ machines. pure (machine' ∷ machines)) out.1)
    joined_step (err e) out h = rw h refl
    joined_step panic out h = rw h refl
    joined_step (ok values) out (machines, made, after, changed, then_kept) = rw made (
      machine' ∷ machines,
      refl,
      (
        Holds-frame n t out.1 machine' value (λ a e. changed.same a (in_use a e) (new_apart a e))
            changed.grown holds,
        (λ a e r. elim (then_kept a r) [
          | inl old ↦ new_apart a e old
          | inr new ↦ omega (arith, new, in_use a e)
        ]),
        after,
      ),
      record {
        grown = omega (arith, changes.grown, changed.grown);
        same = λ a low no.
            changed.same a (omega (arith, low, changes.grown)) (λ e. no (inr e))
            ∙ changes.same a low (λ e. no (inl e));
      },
      (λ a e. elim e [
        | inl here ↦ elim (kept a here) [ inl old ↦ inl (inl old) | inr new ↦ inr new ]
        | inr there ↦ elim (then_kept a there) [
          | inl old ↦ inl (inr old)
          | inr new ↦ inr (omega (arith, new, changes.grown))
        ]
      ]),
    )

  -- A part of the store that a loop over the machines leaves alone.
  pub record IsBase (P : Store → Type 0) : Type 0 where
    pub stays : (s t : Store) → SameBelow n s t → s.next ≤ t.next → P s → P t

  pub below :
      (s t : Store) (machines : List Pointed) (values : List Machine)
      → AreHoused n s machines values
      → n ≤ s.next
      → Changes (HaveAny machines) s t
      → SameBelow n s t
  below s t machines values housed room changes a low =
      changes.same a (omega arith)
        (λ e. omega (arith, low, (used n s machines values a housed e).0))

  module _ {P : Store → Type 0} (base : IsBase P) (f : Machine → Outcome Machine)
      (g : Pointed → Action Store Pointed)
      (step : (s : Store) (machine : Pointed) (value : Machine)
        → P s
        → n ≤ s.next
        → Holds n s machine value
        → Steps n s machine (f value) (g machine s)) where
    -- The first machine, and then the others.
    first_then :
        (machine : Pointed) (value : Machine) (rest : List Pointed) (values : List Machine)
        (s : Store)
        → P s
        → n ≤ s.next
        → AreHoused n s (machine ∷ rest) (value ∷ values)
        → ((t : Store)
            → P t
            → n ≤ t.next
            → AreHoused n t rest values
            → AllStep n t rest (each_machine f values) (each_pointed g rest t))
        → (r : Outcome Machine) → Steps n s machine r (g machine s)
        → AllStep n s
            (machine ∷ rest)
            (and_then r
              (λ value'. and_then (each_machine f values) (λ values'. ok (value' ∷ values'))))
            (continue
              (g machine s).0
              (λ machine'. each_pointed g rest >>= λ rest'. pure (machine' ∷ rest'))
              (g machine s).1)
    first_then machine value rest values s p room all later (err e) made = rw made refl
    first_then machine value rest values s p room all later panic made = rw made refl
    first_then machine value rest values s p room (h, apart, more) later (ok value')
          (machine', made, holds, changes, kept) =
        let t = (g machine s).1 in
        let low : SameBelow n s t =
          λ a l. changes.same a (omega arith) (λ e. omega (arith, l, (h.own.within e.0 a e.1).0)) in
        let moved =
          AreHoused-frame n s t rest values
            (λ a r. changes.same a (used n s rest values a more r).1 (λ e. apart a e r))
            changes.grown more in
        rw made (
          joined_step s t machine machine' value' rest values apart more holds changes kept
            (each_machine f values) (each_pointed g rest t)
            (later t (base.stays s t low changes.grown p) (omega (arith, room, changes.grown))
              moved))

    -- A loop over the machines does what the loop over the values does, if it does so on each.
    pub each-AllStep :
        (machines : List Pointed) (values : List Machine) (s : Store)
        → P s
        → n ≤ s.next
        → AreHoused n s machines values
        → AllStep n s machines (each_machine f values) (each_pointed g machines s)
    unfolding each_machine each_pointed
    each-AllStep [] [] s p room h =
        ([], refl, tt, record { grown = omega arith; same = λ a low no. refl }, (λ a e. inl e))
    each-AllStep [] (value ∷ values) s p room h = absurd h
    each-AllStep (machine ∷ rest) [] s p room h = absurd h
    each-AllStep (machine ∷ rest) (value ∷ values) s p room h =
        first_then machine value rest values s p room h
          (λ t q more moved. each-AllStep rest values t q more moved) (f value)
          (step s machine value p room h.0)

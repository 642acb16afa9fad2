-- ===== src/Manager/Labels/Desired.antt =====
-- pkg/manager/manager.go: the labels that a node has after manageCDINodeLabel.
use composable_dra_driver.Base.{
  ℤ, String, Option, none, some, List, [], ◌∷◌, ◌++◌, Outcome, ok, and_then, and_then_assoc, ◌≡◌,
  ◌≢◌, refl, ap, sym, ◌∙◌, arith, Bool-cases, inl, inr, ◌==◌, string_eq, if◌then◌else◌,
}
use composable_dra_driver.Base.Dict.{Dict, lookup, insert, lookup-insert}
use composable_dra_driver.Base.Order.{Range}
use composable_dra_driver.Base.Text.{itoa, itoa_nonempty}
use composable_dra_driver.KubeUtils.Objects.{Node}
use composable_dra_driver.Manager.Types.{Device, Machine, Settings}
use composable_dra_driver.Manager.Labels.{
  Labels, label, text_of, write_label, change_label, bound_label, fabric_key, max_key, min_key,
  fabric_label, device_labels, label_node,
}

abbrev pub bound_text : Option ℤ → String
bound_text none = "0"
bound_text (some n) = itoa n

-- The labels that the machine should have: its fabric, and the bounds of its devices.
abbrev pub fabric_wanted : Settings → Option ℤ → Dict String String
fabric_wanted m none = []
fabric_wanted m (some f) = (fabric_key m, itoa f) ∷ []

abbrev pub devices_wanted : Settings → List (String × Device) → Dict String String
devices_wanted m [] = []
devices_wanted m ((model, device) ∷ rest) =
    (max_key m device, bound_text device.max_device_count)
    ∷ (min_key m device, bound_text device.min_device_count)
    ∷ devices_wanted m rest

abbrev pub wanted : Range → Settings → Machine → Dict String String
wanted range m machine =
    fabric_wanted m machine.fabric_id
    ++ (if m.options.use_cm then devices_wanted m (range String Device machine.device_list) else [])

-- The value of a key after the entries are written one after the other, over what it was before.
abbrev pub after : Dict String String → String → Option String → Option String
after [] key old = old
after ((k, value) ∷ rest) key old = after rest key (if k == key then some value else old)

after-append :
    (xs ys : Dict String String) (key : String) (old : Option String)
    → after (xs ++ ys) key old ≡ after ys key (after xs key old)
after-append [] ys key old = refl
after-append ((k, value) ∷ rest) ys key old =
    after-append rest ys key (if k == key then some value else old)

-- The labels `d` become others without error or panic, as the entries say.
abbrev Puts : Dict String String → Dict String String → Outcome Labels → Type 0
Puts entries d r =
    (d' : Dict String String) × (r ≡ ok (some d'))
    × ((key : String) → lookup key d' ≡ after entries key (lookup key d))

Puts-nothing : (d : Dict String String) → Puts [] d (ok (some d))
Puts-nothing d = (d, refl, λ key. refl)

Puts-both :
    (xs ys d : Dict String String) (r : Outcome Labels) (f : Labels → Outcome Labels)
    → Puts xs d r
    → ((d' : Dict String String) → Puts ys d' (f (some d')))
    → Puts (xs ++ ys) d (and_then r f)
Puts-both xs ys d r f (d', p, q) h =
    let (d'', p', q') = h d' in
    (
      d'',
      rw p p',
      λ key. q' key ∙ ap (after ys key) (q key) ∙ sym (after-append xs ys key (lookup key d)),
    )

write_label-Puts :
    (key value : String) (d : Dict String String)
    → Puts ((key, value) ∷ []) d (write_label key value (some d))
write_label-Puts key value d = (insert key value d, refl, λ k. lookup-insert key k value d)

kept : (value : String) (old : Option String) → text_of old ≡ value → value ≢ "" → old ≡ some value
kept value none e h = absurd (h (sym e))
kept value (some v) e h = ap some e

stays :
    (key value k : String) (d : Dict String String)
    → lookup key d ≡ some value
    → lookup k d ≡ (if key == k then some value else lookup k d)
stays key value k d e = ground (arith, string_eq.equals_iff key k)

-- A value that is there already is one that a write would not change.
change_label-Puts :
    (key value : String) (d : Dict String String)
    → value ≢ ""
    → Puts ((key, value) ∷ []) d (change_label key value (some d))
unfolding change_label
change_label-Puts key value d h = elim (Bool-cases (label key (some d) == value)) [
  | inl same ↦ (
    d,
    rw (same, change_label) refl,
    λ k.
        stays key value k d
          (kept value (lookup key d) ((string_eq.equals_iff (label key (some d)) value).0 same) h),
  )
  | inr other ↦ rw (other, change_label) (write_label-Puts key value d)
]

bound_label-Puts :
    (key : String) (n : Option ℤ) (d : Dict String String)
    → Puts ((key, bound_text n) ∷ []) d (bound_label key n (some d))
unfolding bound_label
bound_label-Puts key none d = write_label-Puts key "0" d
bound_label-Puts key (some n) d = change_label-Puts key (itoa n) d (itoa_nonempty n)

fabric_label-Puts :
    (m : Settings) (f : Option ℤ) (d : Dict String String)
    → Puts (fabric_wanted m f) d (fabric_label m f (some d))
unfolding fabric_label
fabric_label-Puts m none d = Puts-nothing d
fabric_label-Puts m (some f) d = change_label-Puts (fabric_key m) (itoa f) d (itoa_nonempty f)

device_labels-Puts :
    (m : Settings) (devices : List (String × Device)) (d : Dict String String)
    → Puts (devices_wanted m devices) d (device_labels m devices (some d))
unfolding device_labels
device_labels-Puts m [] d = Puts-nothing d
device_labels-Puts m ((model, device) ∷ rest) d =
    Puts-both (_ ∷ []) (_ ∷ devices_wanted m rest) d _ _
      (bound_label-Puts (max_key m device) device.max_device_count d)
      λ d'.
        Puts-both (_ ∷ []) (devices_wanted m rest) d' _ _
          (bound_label-Puts (min_key m device) device.min_device_count d')
          (device_labels-Puts m rest)

more_labels-Puts :
    (range : Range) (m : Settings) (machine : Machine) (d : Dict String String)
    → Puts
        (if m.options.use_cm
          then devices_wanted m (range String Device machine.device_list)
          else [])
        d
        (if m.options.use_cm
          then device_labels m (range String Device machine.device_list) (some d)
          else ok (some d))
unfolding device_labels
more_labels-Puts range m machine d = elim (Bool-cases m.options.use_cm) [
  | inl on ↦ rw on (device_labels-Puts m (range String Device machine.device_list) d)
  | inr off ↦ rw off (Puts-nothing d)
]

-- A node that has a map of labels is labelled without error or panic: afterwards its labels are the
-- ones it had, but for the fabric's, where the machine has one, and with the use of the cluster
-- manager the two bounds of every device, "0" where a bound is not known.
pub label_node_lem :
    (range : Range) (m : Settings) (machine : Machine) (node : Node) (d : Dict String String)
    → node.labels ≡ some d
    → (d' : Dict String String) × (label_node range m machine node
        ≡ ok (record node { labels = some d' }))
      × ((key : String) → lookup key d' ≡ after (wanted range m machine) key (lookup key d))
unfolding label_node
label_node_lem range m machine node d e =
    let more = λ (l : Labels).
      if m.options.use_cm
      then device_labels m (range String Device machine.device_list) l
      else ok l in
    let finish = λ (l : Labels). ok (record node { labels = l }) in
    let (d', p, q) =
      Puts-both (fabric_wanted m machine.fabric_id)
        (if m.options.use_cm
          then devices_wanted m (range String Device machine.device_list)
          else [])
        d _ more (fabric_label-Puts m machine.fabric_id d) (more_labels-Puts range m machine) in
    (
      d',
      rw e (
          and_then_assoc (fabric_label m machine.fabric_id (some d)) more finish
          ∙ ap (λ r. and_then r finish) p),
      q,
    )

-- ===== src/Manager/Pools/View.antt =====
-- pkg/manager/manager.go: what the pools of the drivers advertise, and what one write changes of it.
use composable_dra_driver.Base.{
  Bool-cases, Option-cases, inl, inr, int_beq_iff, ℕ, ℤ, pos, negsuc, pos_part, incr_int64, int_beq,
  String, Bool, true, false, Option, none, some, List, [], ◌∷◌, length, ◌≡◌, refl, sym, ◌≢◌, ◌⊎◌,
  arith, string_eq, eq_refl, if◌then◌else◌,
}
use composable_dra_driver.Base.Dict.{
  lookup, insert, contains, lookup-insert, lookup-insert_ne, Distinct, insert-Distinct,
}
use composable_dra_driver.Manager.Types.{Slice, Pool, DriverResources, Resources}
use composable_dra_driver.Manager.Pools.{pool_or_zero, put_pool}

-- What a pool advertises: the number of devices of its first slice, and its generation. A pool with
-- no slice advertises nothing.
abbrev pub size_of_slices : Pool → List Slice → Option (ℕ × ℤ)
size_of_slices p [] = none
size_of_slices p (slice ∷ _) = some (length slice.devices, p.generation)

abbrev pub pool_view : Option Pool → Option (ℕ × ℤ)
pool_view none = none
pool_view (some p) = size_of_slices p p.slices

abbrev pub driver_view : String → Option DriverResources → Option (ℕ × ℤ)
driver_view name none = none
driver_view name (some r) = pool_view (lookup name r.pools)

unfoldable pub view : String → String → Resources → Option (ℕ × ℤ)
view driver name resources = driver_view name (lookup driver resources)

-- The specification of an update: the new advertisement, and whether anything changed.
abbrev pub refresh : ℤ → Option (ℕ × ℤ) → (ℕ × ℤ) × Bool
refresh count none = ((pos_part count, pos 1), true)
refresh count (some (n, generation)) =
    if int_beq (pos n) count
    then ((n, generation), false)
    else ((pos_part count, incr_int64 generation), true)

pub view-put_pool_self :
    (driver name : String) (p : Pool) (r : DriverResources) (resources : Resources)
    → view driver name (put_pool driver name p r resources) ≡ pool_view (some p)
unfolding view put_pool
view-put_pool_self driver name p r resources = simp (lookup-insert, eq_refl)

pub view-put_pool_ne :
    (driver name : String) (p : Pool) (r : DriverResources) (resources : Resources) (d n : String)
    → lookup driver resources ≡ some r
    → (d ≢ driver) ⊎ (n ≢ name)
    → view d n (put_pool driver name p r resources) ≡ view d n resources
unfolding view put_pool
view-put_pool_ne driver name p r resources d n e h = ground (
  arith,
  lookup-insert driver d (record r { pools = insert name p r.pools }) resources,
  lookup-insert name n p r.pools,
  string_eq.equals_iff driver d,
  string_eq.equals_iff name n,
)

pub contains-put_pool :
    (driver name : String) (p : Pool) (r : DriverResources) (resources : Resources) (d : String)
    → lookup driver resources ≡ some r
    → contains d (put_pool driver name p r resources) ≡ contains d resources
unfolding put_pool
contains-put_pool driver name p r resources d known = ground (
  arith,
  lookup-insert driver d (record r { pools = insert name p r.pools }) resources,
  string_eq.equals_iff driver d,
)

pub lookup-put_pool_ne :
    (driver name : String) (p : Pool) (r : DriverResources) (resources : Resources) (d : String)
    → d ≢ driver
    → lookup d (put_pool driver name p r resources) ≡ lookup d resources
unfolding put_pool
lookup-put_pool_ne driver name p r resources d h =
    lookup-insert_ne driver d (record r { pools = insert name p r.pools }) resources
      (λ e. h (sym e))

pub put_pool-Distinct :
    (driver name : String) (p : Pool) (r : DriverResources) (resources : Resources)
    → Distinct resources
    → Distinct (put_pool driver name p r resources)
unfolding put_pool
put_pool-Distinct driver name p r resources d = insert-Distinct driver _ resources d

pub pool_view-zero :
    (found : Option Pool)
    → pool_view found ≡ size_of_slices (pool_or_zero found) (pool_or_zero found).slices
pool_view-zero none = refl
pool_view-zero (some p) = refl

pub view-known :
    (driver name : String) (resources : Resources) (r : DriverResources)
    → lookup driver resources ≡ some r
    → let p = pool_or_zero (lookup name r.pools) in
      view driver name resources ≡ size_of_slices p p.slices
unfolding view
view-known driver name resources r known = rw known (pool_view-zero (lookup name r.pools))

abbrev pub size_or : ℕ → Option (ℕ × ℤ) → ℕ
size_or n none = n
size_or n (some (size, g)) = size

-- After a refresh as many devices are advertised as are available.
pub refresh-size :
    (count : ℤ) (before : Option (ℕ × ℤ)) (n : ℕ)
    → pos n ≡ count
    → pos (refresh count before).0.0 ≡ count
refresh-size count none n e = rw (← e) refl
refresh-size count (some (k, g)) n e = elim (Bool-cases (int_beq (pos k) count)) [
  | inl same ↦ rw same ((int_beq_iff (pos k) count).0 same)
  | inr changed ↦ rw changed (rw (← e) refl)
]

-- The generation after a change.
abbrev pub next_generation : Option (ℕ × ℤ) → ℤ
next_generation none = pos 1
next_generation (some (n, generation)) = incr_int64 generation

-- No pool has a negative number of devices, so such a count is always a change.
pub refresh_negative :
    (k : ℕ) (before : Option (ℕ × ℤ))
    → refresh (negsuc k) before ≡ ((0, next_generation before), true)
refresh_negative k none = refl
refresh_negative k (some (n, generation)) = refl

abbrev pub generation_or : ℤ → Option (ℕ × ℤ) → ℤ
generation_or g none = g
generation_or g (some (size, generation)) = generation

-- The pool itself.
abbrev pub pool_in : String → Option DriverResources → Option Pool
pool_in name none = none
pool_in name (some r) = lookup name r.pools

unfoldable pub found_pool : String → String → Resources → Option Pool
found_pool driver name resources = pool_in name (lookup driver resources)

pub found_pool-put_pool_self :
    (driver name : String) (p : Pool) (r : DriverResources) (resources : Resources)
    → found_pool driver name (put_pool driver name p r resources) ≡ some p
unfolding found_pool put_pool
found_pool-put_pool_self driver name p r resources = simp (lookup-insert, eq_refl)

pub found_pool-put_pool_ne :
    (driver name : String) (p : Pool) (r : DriverResources) (resources : Resources) (d n : String)
    → lookup driver resources ≡ some r
    → (d ≢ driver) ⊎ (n ≢ name)
    → found_pool d n (put_pool driver name p r resources) ≡ found_pool d n resources
unfolding found_pool put_pool
found_pool-put_pool_ne driver name p r resources d n e h = ground (
  arith,
  lookup-insert driver d (record r { pools = insert name p r.pools }) resources,
  lookup-insert name n p r.pools,
  string_eq.equals_iff driver d,
  string_eq.equals_iff name n,
)

-- What a pool advertises is read off the pool.
pub view-found_pool :
    (driver name : String) (resources : Resources)
    → view driver name resources ≡ pool_view (found_pool driver name resources)
unfolding view found_pool
view-found_pool driver name resources = elim (Option-cases (lookup driver resources)) [
  | inl absent ↦ rw absent refl
  | inr (r, e) ↦ rw e refl
]

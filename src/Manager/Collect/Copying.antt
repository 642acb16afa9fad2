-- ===== src/Manager/Collect/Copying.antt =====
-- pkg/manager/manager.go: DeepCopy makes a list of new devices that look like the old ones.
use composable_dra_driver.Base.{
  ℕ, ◌≤◌, ◌<◌, String, Option, none, some, List, [], ◌∷◌, All, ok, Outcome, continue, ◌>>=◌, ◌≡◌,
  ◌≢◌, ◌⊎◌, refl, ap, sym, subst, ◌∙◌, arith, ◌==◌, string_eq, if◌then◌else◌, Bool-cases, inl, inr,
}
use composable_dra_driver.Base.Dict.{lookup, insert, contains, lookup-insert}
use composable_dra_driver.Manager.Types.{Device}
use composable_dra_driver.Manager.Collect.Shared.{
  Store, Pointers, put, load, allocate, copy_pointers,
}

-- The devices that a list should have, by their models.
abbrev pub Wanted : Type 0
Wanted = String → Option Device

-- An address, or none, stands for a device, or none.
abbrev pub Points : Store → Option ℕ → Option Device → Type 0
Points s none none = Unit
Points s none (some d) = ⊥
Points s (some a) none = ⊥
Points s (some a) (some d) = s.cell a ≡ some d

abbrev pub Stands : Store → Pointers → Wanted → Type 0
Stands s p f = (k : String) → Points s (lookup k p) (f k)

-- The devices of a list are its own: no two models share one, and all are at addresses from `n` on
-- that are in use.
pub record IsOwn (n : ℕ) (s : Store) (p : Pointers) : Type 0 where
  pub apart : (k j : String) (a : ℕ) → lookup k p ≡ some a → lookup j p ≡ some a → k ≡ j
  pub within : (k : String) (a : ℕ) → lookup k p ≡ some a → (n ≤ a) × (a < s.next)

pub Points-frame :
    (s t : Store) (o : Option ℕ) (v : Option Device)
    → ((a : ℕ) → o ≡ some a → t.cell a ≡ s.cell a)
    → Points s o v
    → Points t o v
Points-frame s t none none same h = h
Points-frame s t none (some d) same h = h
Points-frame s t (some a) none same h = h
Points-frame s t (some a) (some d) same h = same a refl ∙ h

pub put_self : (a : ℕ) (d : Device) (cell : ℕ → Option Device) → put a d cell a ≡ some d
put_self a d cell = ground arith

pub put_ne : (a b : ℕ) (d : Device) (cell : ℕ → Option Device) → b ≢ a → put a d cell b ≡ cell b
put_ne a b d cell h = ground arith

abbrev pub or_old : String → Device → Wanted → Wanted
or_old k d f j = if k == j then some d else f j

module _ (n : ℕ) (s : Store) (p : Pointers) (f : Wanted) (k : String) (d : Device)
    (stands : Stands s p f) (own : IsOwn n s p) (room : n ≤ s.next) where
  abbrev grown : Store
  grown = (allocate d s).1

  abbrev more : Pointers
  more = insert k s.next p

  grown-Stands : Stands grown more (or_old k d f)
  grown-Stands j = elim (Bool-cases (k == j)) [
    | inl same ↦ rw (lookup-insert k j s.next p, same) (put_self s.next d s.cell)
    | inr other ↦
        rw (lookup-insert k j s.next p, other)
          (Points-frame s grown (lookup j p) (f j)
            (λ a e. put_ne s.next a d s.cell (λ same. ground (arith, (own.within j a e).1)))
            (stands j))
  ]

  more_cases :
      (j : String) (a : ℕ)
      → lookup j more ≡ some a
      → ((j ≡ k) × (a ≡ s.next)) ⊎ (lookup j p ≡ some a)
  more_cases j a e = ground (arith, lookup-insert k j s.next p, string_eq.equals_iff k j)

  grown-IsOwn : IsOwn n grown more
  grown-IsOwn = record {
    apart = λ i j a p q. elim (more_cases i a p) [
      | inl (ik, ia) ↦ elim (more_cases j a q) [
        | inl (jk, ja) ↦ ik ∙ sym jk
        | inr old ↦ absurd (ground (arith, (own.within j a old).1))
      ]
      | inr old ↦ elim (more_cases j a q) [
        | inl (jk, ja) ↦ absurd (ground (arith, (own.within i a old).1))
        | inr old' ↦ own.apart i j a old old'
      ]
    ];
    within = λ j a q. elim (more_cases j a q) [
      | inl (jk, ja) ↦ (omega arith, omega arith)
      | inr old ↦ ground (arith, (own.within j a old).1, (own.within j a old).0)
    ];
  }

-- What is copied: devices of the old part of the store.
abbrev pub IsOld : ℕ → Store → Wanted → String × ℕ → Type 0
IsOld n s f (k, a) = (a < n) × ((d : Device) × (f k ≡ some d) × (s.cell a ≡ some d))

abbrev pub SameBelow : ℕ → Store → Store → Type 0
SameBelow n s t = (a : ℕ) → a < n → t.cell a ≡ s.cell a

abbrev pub chosen : List (String × ℕ) → Wanted → Wanted → Wanted
chosen es f g j = if contains j es then f j else g j

-- A copy that was made: its list is its own, has the devices that are wanted, and the old part of
-- the store is as it was.
pub record IsCopied (n : ℕ) (s : Store) (f : Wanted) (out : Outcome Pointers × Store) : Type 0 where
  pub copy : Pointers
  pub made : out.0 ≡ ok copy
  pub stands : Stands out.1 copy f
  pub own : IsOwn n out.1 copy
  pub same : SameBelow n s out.1
  pub grown : s.next ≤ out.1.next

pub load-ok : (a : ℕ) (d : Device) (s : Store) → s.cell a ≡ some d → load a s ≡ (ok d, s)
load-ok a d s e = rw (e, load) refl

copy_pointers-cons :
    (k : String) (a : ℕ) (rest : List (String × ℕ)) (out : Pointers) (d : Device) (s : Store)
    → s.cell a ≡ some d
    → copy_pointers ((k, a) ∷ rest) out s
      ≡ copy_pointers rest (insert k s.next out) (allocate d s).1
unfolding copy_pointers
copy_pointers-cons k a rest out d s e =
    ap
      (λ (r : Outcome Device × Store).
        continue r.0 (λ d. allocate d >>= λ b. copy_pointers rest (insert k b out)) r.1)
      (load-ok a d s e)

module _ (n : ℕ) (f : Wanted) where
  old_after :
      (s t : Store) (es : List (String × ℕ))
      → SameBelow n s t
      → All (IsOld n s f) es
      → All (IsOld n t f) es
  old_after s t [] same h = tt
  old_after s t ((k, a) ∷ rest) same ((low, (d, e, c)), h) =
      ((low, (d, e, same a low ∙ c)), old_after s t rest same h)

  choose :
      (k : String) (d : Device) (rest : List (String × ℕ)) (g : Wanted) (a : ℕ)
      → f k ≡ some d
      → (j : String) → chosen rest f (or_old k d g) j ≡ chosen ((k, a) ∷ rest) f g j
  unfolding lookup
  choose k d rest g a e j = elim (Bool-cases (k == j)) [
    | inl same ↦
        let here : f j ≡ some d = sym (ap f ((string_eq.equals_iff k j).0 same)) ∙ e in
        elim (Bool-cases (contains j rest)) [
          | inl again ↦ rw (same, again) refl
          | inr last ↦ rw (same, last) (sym here)
        ]
    | inr other ↦ rw other refl
  ]

  pub copy_pointers-IsCopied :
      (es : List (String × ℕ)) (out : Pointers) (s : Store) (g : Wanted)
      → All (IsOld n s f) es
      → Stands s out g
      → IsOwn n s out
      → n ≤ s.next
      → IsCopied n s (chosen es f g) (copy_pointers es out s)
  unfolding copy_pointers lookup
  copy_pointers-IsCopied [] out s g h stands own room = record {
    copy = out;
    made = refl;
    stands = stands;
    own = own;
    same = λ a low. refl;
    grown = omega arith;
  }
  copy_pointers-IsCopied ((k, a) ∷ rest) out s g ((low, (d, e, c)), h) stands own room =
      let t = (allocate d s).1 in
      let below : SameBelow n s t = λ b lower. put_ne s.next b d s.cell (λ q. ground arith) in
      let done =
        copy_pointers-IsCopied rest (insert k s.next out) t (or_old k d g)
          (old_after s t rest below h) (grown-Stands n s out g k d stands own room)
          (grown-IsOwn n s out g k d stands own room) (omega arith) in
      subst (IsCopied n s (chosen ((k, a) ∷ rest) f g))
        (sym (copy_pointers-cons k a rest out d s c))
        (record {
          copy = done.copy;
          made = done.made;
          stands = λ j.
              subst (Points (copy_pointers rest (insert k s.next out) t).1 (lookup j done.copy))
                (choose k d rest g a e j) (done.stands j);
          own = done.own;
          same = λ b lower. done.same b lower ∙ below b lower;
          grown = omega (arith, done.grown);
        })

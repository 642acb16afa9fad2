-- ===== src/Client/Token/Concurrent/Interleaved.antt =====
-- pkg/client/token.go: what calls that run at the same time return.
use composable_dra_driver.Base.{
  ℕ, ℤ, nat_beq, Option, none, some, List, [], ◌∷◌, All, Error, ◌≡◌, ◌≢◌, ◌⊎◌, refl, sym, subst,
  inl, inr, Bool-cases, ltb_ℤ, sub_nat,
}
use composable_dra_driver.Client.Token.{Token, fresh_token, margin_time}
use composable_dra_driver.Client.Token.Concurrent.{
  CallProgress, idle, issuing, rereading, storing, failed, gave, refused, first_read, test_kept,
  Shared, at, move, keep, WasWritten, Step, reads, issues, fails, stores, tests, rereads, Reach,
  begin, step,
}

module _ (Issued : Token → Type 0) (first : Option Token) where
  -- What the field may have: a token that was issued, or nil if it was nil at first.
  abbrev pub IsPossible : Option Token → Type 0
  IsPossible none = first ≡ none
  IsPossible (some t) = Issued t

  -- What is known of a call.
  abbrev pub Known : CallProgress → Type 0
  Known idle = Unit
  Known issuing = Unit
  Known rereading = Unit
  Known (storing t) = Issued t
  Known (failed e) = Unit
  Known (gave o) = IsPossible o
  Known (refused e) = first ≡ none

  record IsSound (a : Shared) : Type 0 where
    possible : All IsPossible a.written
    known : (i : ℕ) → Known (a.call i)

  WasWritten-IsPossible :
      (o : Option Token) (written : List (Option Token))
      → All IsPossible written
      → WasWritten o written
      → IsPossible o
  WasWritten-IsPossible o [] h w = absurd w
  WasWritten-IsPossible o (x ∷ rest) h (inl same) = subst IsPossible same h.0
  WasWritten-IsPossible o (x ∷ rest) h (inr before) = WasWritten-IsPossible o rest h.1 before

  Known-at :
      (i j : ℕ) (p : CallProgress) (call : ℕ → CallProgress)
      → Known p
      → Known (call j)
      → Known (at i p call j)
  Known-at i j p call new old = elim (Bool-cases (nat_beq i j)) [
    | inl same ↦ rw same new
    | inr other ↦ rw other old
  ]

  move-IsSound :
      (a : Shared) (i : ℕ) (p : CallProgress) → IsSound a → Known p → IsSound (move i p a)
  unfolding move
  move-IsSound a i p sound new = record {
    possible = sound.possible;
    known = λ j. Known-at i j p a.call new (sound.known j);
  }

  first_read_cases :
      (now : ℤ) (o : Option Token)
      → (first_read now o ≡ issuing)
        ⊎ ((t : Token) × (o ≡ some t) × (first_read now o ≡ gave (some t)))
  unfolding first_read fresh_token
  first_read_cases now none = inl refl
  first_read_cases now (some t) = elim (Bool-cases (ltb_ℤ now (sub_nat t.expiry margin_time))) [
    | inl fresh ↦ inr (t, refl, rw (fresh, first_read) refl)
    | inr old ↦ inl (rw (old, first_read) refl)
  ]

  first_read-Known : (now : ℤ) (o : Option Token) → IsPossible o → Known (first_read now o)
  first_read-Known now o h = elim (first_read_cases now o) [
    | inl e ↦ subst Known (sym e) tt
    | inr (t, there, e) ↦ subst Known (sym e) (subst IsPossible there h)
  ]

  test_kept-Known : (e : Error) (o : Option Token) → IsPossible o → Known (test_kept e o)
  unfolding test_kept
  test_kept-Known e none h = h
  test_kept-Known e (some t) h = tt

  at_call : {a : Shared} (i : ℕ) (p : CallProgress) → IsSound a → a.call i ≡ p → Known p
  at_call i p sound e = subst Known e (sound.known i)

  Step-IsSound : {a b : Shared} → IsSound a → Step Issued a b → IsSound b
  unfolding keep
  Step-IsSound {a} sound (reads i now o e w) =
      move-IsSound a i _ sound
        (first_read-Known now o (WasWritten-IsPossible o a.written sound.possible w))
  Step-IsSound {a} sound (issues i t e new) = move-IsSound a i _ sound new
  Step-IsSound {a} sound (fails i f e) = move-IsSound a i _ sound tt
  Step-IsSound {a} sound (stores i t e) =
      let new : Issued t = at_call i (storing t) sound e in
      record {
        possible = (new, sound.possible);
        known = λ j. Known-at i j (gave (some t)) a.call new (sound.known j);
      }
  Step-IsSound {a} sound (tests i f o e w) =
      move-IsSound a i _ sound
        (test_kept-Known f o (WasWritten-IsPossible o a.written sound.possible w))
  Step-IsSound {a} sound (rereads i o e w) =
      move-IsSound a i _ sound (WasWritten-IsPossible o a.written sound.possible w)

  first-IsPossible :
      (o : Option Token) → first ≡ o → ((t : Token) → first ≡ some t → Issued t) → IsPossible o
  first-IsPossible none e h = e
  first-IsPossible (some t) e h = h t e

  Reach-IsSound :
      {a : Shared} → ((t : Token) → first ≡ some t → Issued t) → Reach Issued first a → IsSound a
  Reach-IsSound h begin = record { possible = (first-IsPossible first refl h, tt); known = λ i. tt }
  Reach-IsSound h (step r s) = Step-IsSound (Reach-IsSound h r) s

  -- Where a token was kept at first, no call returns an error, however calls interleave, whichever of
  -- the values that were written each read yields, and even if the inner source fails.
  pub Reach-not_refused :
      {a : Shared} (i : ℕ) (f : Error) (u : Token)
      → first ≡ some u
      → ((t : Token) → first ≡ some t → Issued t)
      → Reach Issued first a
      → a.call i ≢ refused f
  Reach-not_refused i f u there h r e = cc (there, at_call i (refused f) (Reach-IsSound h r) e)

-- ===== src/Client/Token/Cache.antt =====
-- pkg/client/token.go: what the cached source answers, over any run of calls.
use composable_dra_driver.Base.{
  ℤ, ltb_ℤ, sub_nat, Option, none, some, List, [], ◌∷◌, Outcome, ok, err, panic, Action, ◌≡◌, ◌≢◌,
  refl, sym, subst, ◌∙◌, arith, All, Option-cases, inl, inr, true,
}
use composable_dra_driver.Client.Token.{
  Token, Session, cached_token, fresh_token, margin_time, rotate,
}

-- The answers of calls at these times, one after the other.
abbrev pub answers : {S : Type 0} → Action S Token → List ℤ → Session S → List (Outcome Token)
answers source [] s = []
answers source (now ∷ later) s =
    let (answer, s') = cached_token source now s in answer ∷ answers source later s'

-- The answer is a token that satisfies the predicate.
abbrev pub Gives : (Token → Type 0) → Outcome Token → Type 0
Gives P answer = (t : Token) × (answer ≡ ok t) × P t

-- A predicate on what is kept.
abbrev pub Keeps : {S : Type 0} → (Token → Type 0) → Session S → Type 0
Keeps P s = (t : Token) × (s.token ≡ some t) × P t

abbrev pub IsFresh : ℤ → Token → Type 0
IsFresh now t = ltb_ℤ now (sub_nat t.expiry margin_time) ≡ true

fresh_token-IsFresh :
    (now : ℤ) (kept : Option Token) (t : Token)
    → fresh_token now kept ≡ some t
    → (kept ≡ some t) × IsFresh now t
unfolding fresh_token
fresh_token-IsFresh now none t h = cc
fresh_token-IsFresh now (some k) t h = ground arith

-- What a source may answer: tokens with the predicate, errors, and no panic.
abbrev pub Issues : {S : Type 0} → (Token → Type 0) → Action S Token → Type 0
Issues {S} P source = (s : S) → ((source s).0 ≢ panic) × ((t : Token) → (source s).0 ≡ ok t → P t)

abbrev Kept : (Token → Type 0) → Option Token → Type 0
Kept P kept = (t : Token) × (kept ≡ some t) × P t

some_inj : {a b : Token} → some a ≡ some b → b ≡ a
some_inj h = cc

rotate-Gives :
    (P : Token → Type 0) (old : Option Token) (r : Outcome Token)
    → Kept P old
    → r ≢ panic
    → ((t : Token) → r ≡ ok t → P t)
    → Gives P (rotate old r).0 × Kept P (rotate old r).1
rotate-Gives P old (ok new) k n h = ((new, refl, h new refl), (new, refl, h new refl))
rotate-Gives P none (err e) (t, p, q) n h = cc
rotate-Gives P (some old) (err e) (t, p, q) n h =
    let old_ok = subst P (some_inj p) q in ((old, refl, old_ok), (old, refl, old_ok))
rotate-Gives P old panic k n h = absurd (n refl)

module _ {S : Type 0} (P : Token → Type 0) (source : Action S Token) where
  cached_token-Gives :
      (now : ℤ) (s : Session S)
      → Issues P source
      → Keeps P s
      → Gives P (cached_token source now s).0 × Keeps P (cached_token source now s).1
  unfolding cached_token
  cached_token-Gives now s issues (t, p, q) = elim (Option-cases (fresh_token now s.token)) [
    | inl old ↦
        rw (old, cached_token)
          (rotate-Gives P s.token (source s.behind).0 (t, p, q) (issues s.behind).0
            (issues s.behind).1)
    | inr (u, new) ↦
        let (same, _) = fresh_token-IsFresh now s.token u new in
        let good = subst P (some_inj (sym same ∙ p)) q in
        rw (new, cached_token) ((u, refl, good), (u, same, good))
  ]

  -- Once a token is kept, every later answer is a token, even where no new one can be issued: a
  -- source that does not panic, and whose tokens satisfy a predicate as the kept one does, makes every
  -- answer satisfy it.
  pub answers-Gives :
      (nows : List ℤ) (s : Session S)
      → Issues P source
      → Keeps P s
      → All (Gives P) (answers source nows s)
  answers-Gives [] s issues keeps = tt
  answers-Gives (now ∷ later) s issues keeps =
      let (gives, keeps') = cached_token-Gives now s issues keeps in
      (gives, answers-Gives later _ issues keeps')

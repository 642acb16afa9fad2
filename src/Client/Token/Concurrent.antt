-- ===== src/Client/Token/Concurrent.antt =====
-- pkg/client/token.go: calls of cachedIMTokenSource.Token that run at the same time. The second reads
-- and the write of the token stand outside the lock, so the calls race, and a write is not ordered
-- before a read that has the lock either. Go's memory model then promises of a read of a pointer only
-- that it yields a value that was written before, not the last one: here every read may yield any
-- value that the field has had, nil from the start included.
pub mod Interleaved
mod Tests
use composable_dra_driver.Base.{
  ℕ, ℤ, nat_beq, Option, none, some, List, [], ◌∷◌, Outcome, ok, err, panic, Error, ◌≡◌, ◌⊎◌,
  if◌then◌else◌,
}
use composable_dra_driver.Client.Token.{Token, fresh_token}

-- Where a call is: before its first read, at the inner source, before the write of a new token, at
-- the test and at the second read after a failure, or past its return, with a token, which may be
-- nil, or an error.
pub data CallProgress : Type 0 where
  idle issuing rereading : CallProgress
  storing : Token → CallProgress
  failed : Error → CallProgress
  gave : Option Token → CallProgress
  refused : Error → CallProgress

unfoldable pub first_read : ℤ → Option Token → CallProgress
unfolding fresh_token
first_read now read = elim (fresh_token now read) [ some t ↦ gave (some t) | none ↦ issuing ]

-- if ts.token == nil
unfoldable pub test_kept : Error → Option Token → CallProgress
test_kept e none = refused e
test_kept e (some t) = rereading

-- The values that ts.token has had, the last one first, and every call by a number of its own.
pub record Shared : Type 0 where
  pub written : List (Option Token)
  pub call : ℕ → CallProgress

abbrev pub at : ℕ → CallProgress → (ℕ → CallProgress) → ℕ → CallProgress
at i p call j = if nat_beq i j then p else call j

unfoldable pub move : ℕ → CallProgress → Shared → Shared
move i p a = record a { call = at i p a.call }

unfoldable pub keep : ℕ → Token → Shared → Shared
keep i t a = record { written = some t ∷ a.written; call = at i (gave (some t)) a.call }

-- A value that a read may yield.
abbrev pub WasWritten : Option Token → List (Option Token) → Type 0
WasWritten o [] = ⊥
WasWritten o (w ∷ rest) = (w ≡ o) ⊎ WasWritten o rest

-- The steps of the calls. `Issued` says which tokens the inner source may answer.
pub data Step (Issued : Token → Type 0) (a : Shared) : Shared → Type 0 where
  reads :
      (i : ℕ) (now : ℤ) (o : Option Token)
      → a.call i ≡ idle
      → WasWritten o a.written
      → Step Issued a (move i (first_read now o) a)
  issues :
      (i : ℕ) (t : Token) → a.call i ≡ issuing → Issued t → Step Issued a (move i (storing t) a)
  fails : (i : ℕ) (e : Error) → a.call i ≡ issuing → Step Issued a (move i (failed e) a)
  stores : (i : ℕ) (t : Token) → a.call i ≡ storing t → Step Issued a (keep i t a)
  tests :
      (i : ℕ) (e : Error) (o : Option Token)
      → a.call i ≡ failed e
      → WasWritten o a.written
      → Step Issued a (move i (test_kept e o) a)
  rereads :
      (i : ℕ) (o : Option Token)
      → a.call i ≡ rereading
      → WasWritten o a.written
      → Step Issued a (move i (gave o) a)

-- All interleavings, from a token that is there at first, or nil, and no call begun.
pub data Reach (Issued : Token → Type 0) (first : Option Token) : Shared → Type 0 where
  begin : Reach Issued first (record { written = first ∷ []; call = λ i. idle })
  step : {a b : Shared} → Reach Issued first a → Step Issued a b → Reach Issued first b

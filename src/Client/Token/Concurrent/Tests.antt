-- ===== src/Client/Token/Concurrent/Tests.antt =====
-- Runs of concurrent calls of pkg/client/token.go at concrete inputs.
use composable_dra_driver.Base.{
  [], ◌∷◌, inl, inr, pos, none, some, ◌≡◌, ◌≢◌, arith, refl, string_eq,
}
use composable_dra_driver.Client.Token.{Token, fresh_token}
use composable_dra_driver.Client.Token.Concurrent.{
  idle, issuing, rereading, storing, failed, gave, refused, first_read, test_kept, Shared, move,
  keep, reads, issues, fails, stores, tests, rereads, Reach, begin, step,
}
use composable_dra_driver.Client.Token.Concurrent.Interleaved.{Reach-not_refused}

abbrev new_token : Token
new_token = record { access_token = "new"; expiry = pos 100000000000 }

abbrev IsNew : Token → Type 0
IsNew t = t.access_token ≡ "new"

abbrev before_calls : Shared
before_calls = record { written = none ∷ []; call = λ i. idle }

-- Two calls find no token; the second is issued one before the first fails, and tests.
abbrev second_stored : Shared
second_stored =
    keep 1 new_token (move 1 (storing new_token) (move 1 issuing (move 0 issuing before_calls)))

abbrev first_rereads : Shared
first_rereads = move 0 rereading (move 0 (failed "down") second_stored)

run : Reach IsNew none first_rereads
unfolding move keep first_read test_kept fresh_token
run =
    step
      (step
        (step
          (step
            (step (step begin (reads 0 (pos 1) none refl (inl refl)))
              (reads 1 (pos 2) none refl (inl refl)))
            (issues 1 new_token refl refl))
          (stores 1 new_token refl))
        (fails 0 "down" refl))
      (tests 0 "down" (some new_token) refl (inl refl))

-- The second read yields the new token.
abbrev first_given : Shared
first_given = move 0 (gave (some new_token)) first_rereads

-- Nothing in the memory model keeps the second read from yielding nil.
abbrev nil_given : Shared
nil_given = move 0 (gave none) first_rereads

nil_read : Reach IsNew none nil_given
unfolding move keep
nil_read = step run (rereads 0 none refl (inr (inl refl)))

abbrev old_token : Token
old_token = record { access_token = "new"; expiry = pos 1 }

-- The token that is kept has expired, and no new one comes.
abbrev old_given : Shared
old_given = move 0 (gave (some old_token)) (
    move 0 rereading (
      move 0 (failed "down")
        (move 0 issuing (record { written = some old_token ∷ []; call = λ i. idle }))))

failing : Reach IsNew (some old_token) old_given
unfolding move first_read test_kept fresh_token
failing =
    step
      (step
        (step (step begin (reads 0 (pos 200) (some old_token) refl (inl refl)))
          (fails 0 "down" refl))
        (tests 0 "down" (some old_token) refl (inl refl)))
      (rereads 0 (some old_token) refl (inl refl))

old_kept : (t : Token) → some old_token ≡ some t → IsNew t
old_kept t e = ground arith

Reach-not_refused_example : old_given.call 0 ≢ refused "down"
Reach-not_refused_example =
    Reach-not_refused IsNew (some old_token) 0 "down" old_token refl old_kept failing

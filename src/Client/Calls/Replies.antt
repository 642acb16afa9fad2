-- ===== src/Client/Calls/Replies.antt =====
-- pkg/client/client.go: which answers are taken as a success.
use composable_dra_driver.Base.{
  ◌≤◌, ◌<◌, String, none, Outcome, ok, ◌≡◌, arith, inl, inr, continue-ok, string_eq,
}
use composable_dra_driver.Client.Request.{Request}
use composable_dra_driver.Client.Calls.{
  Reply, Json, Network, exchange, new_http_request_cases, into, call,
}

into-ok :
    {A : Type 0} (json : Json) (type : String) (read : String → Outcome A) (reply : Reply) (a : A)
    → into json type read reply ≡ ok a
    → (200 ≤ reply.status_code) × (reply.status_code < 300) × (read reply.body ≡ ok a)
unfolding into
into-ok json type read reply a h = ground arith

-- A call that ends with a value was not refused, and had a reply whose status is from 200 to 299
-- and whose body reads as the value.
pub call-ok :
    {S A : Type 0} (network : Network S) (json : Json) (type : String) (read : String → Outcome A)
    (id : String) (req : Request) (s : S) (a : A)
    → (call network json type read id req s).0 ≡ ok a
    → (reply : Reply) × (network.refuses req ≡ none)
      × ((exchange network id req s).0 ≡ ok reply)
      × (200 ≤ reply.status_code)
      × (reply.status_code < 300)
      × (read reply.body ≡ ok a)
unfolding call
call-ok network json type read id req s a h = elim (new_http_request_cases network json req) [
  | inr (e, why, p) ↦ cc (rw (p, call) at h)
  | inl (free, p) ↦
      let (reply, answered, read_ok) =
        continue-ok (exchange network id req s).0 _ (exchange network id req s).1
          (rw (p, call) at h) in
      let (least, most, value) = into-ok json type read reply a read_ok in
      (reply, free, answered, least, most, value)
]

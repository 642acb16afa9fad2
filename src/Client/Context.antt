-- ===== src/Client/Context.antt =====
-- pkg/client/client.go: the id of a request in its context.
use composable_dra_driver.Base.{String, Option, none, some}

-- What a context.Context has under RequestIDKey{}, if that is a text.
abbrev pub RequestContext : Type 0
RequestContext = Option String

-- context.WithValue(ctx, RequestIDKey{}, id)
abbrev pub with_request_id : String → RequestContext → RequestContext
with_request_id id ctx = some id

abbrev pub get_request_id_from_context : RequestContext → String
get_request_id_from_context none = "NotFound"
get_request_id_from_context (some id) = id

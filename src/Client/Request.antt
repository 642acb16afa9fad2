-- ===== src/Client/Request.antt =====
-- pkg/client/request.go: the builder of requests. Header names are the canonical ones.
use composable_dra_driver.Base.{String, Option, none, some, List, [], ◌∷◌, ◌++◌, string_eq}
use composable_dra_driver.Base.Dict.{Dict, lookup, insert, remove}
use composable_dra_driver.Base.Order.{Range}

-- url.Values and http.Header: a name with its values. A nil map is an empty one.
abbrev pub Values : Type 0
Values = Dict String (List String)

-- The body is what its reader yields; a nil reader is `none`.
pub record Request : Type 0 where
  pub method : String
  pub scheme : String
  pub host : String
  pub path : String
  pub query : Values
  pub headers : Values
  pub body : Option String

-- url.URL before its query is encoded.
pub record Url : Type 0 where
  pub scheme : String
  pub host : String
  pub path : String
  pub query : Values

unfoldable pub new_request : String → Request
new_request method = record {
  method = method;
  scheme = "https";
  host = "";
  path = "";
  query = [];
  headers = [];
  body = none;
}

unfoldable pub set_host : String → Request → Request
set_host host r = record r { host = host }

unfoldable pub set_path : String → Request → Request
set_path path r = record r { path = path }

unfoldable pub set_body : String → Request → Request
set_body body r = record r { body = some body }

abbrev pub values_of : Option (List String) → List String
values_of none = []
values_of (some values) = values

unfoldable pub append_value : String → String → Values → Values
append_value name value m = insert name (values_of (lookup name m) ++ value ∷ []) m

unfoldable pub add_query : List (String × String) → Values → Values
unfolding append_value
add_query [] query = query
add_query ((name, value) ∷ rest) query = add_query rest (append_value name value query)

unfoldable pub set_query : Range → Dict String String → Request → Request
unfolding add_query
set_query range query r = record r { query = add_query (range String String query) r.query }

unfoldable pub add_header : String → List String → Values → Values
unfolding append_value
add_header key [] headers = headers
add_header key (value ∷ rest) headers = add_header key rest (append_value key value headers)

unfoldable pub set_header : String → List String → Request → Request
unfolding add_header remove
set_header key values r = record r { headers = add_header key values (remove key r.headers) }

-- A path that is not set stays the empty one of a new URL.
unfoldable pub url : Request → Url
url r = record { scheme = r.scheme; host = r.host; path = r.path; query = r.query }

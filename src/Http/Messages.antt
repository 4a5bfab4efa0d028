-- ===== src/Http/Messages.antt =====
-- pkg/core/http/types.go and request.go: the requests and responses that a script sees, the writer
-- of a response, and what the client asks for. The functions of net/http's Header and
-- ResponseWriter that they call are written out; `canonical` is CanonicalHeaderKey.
use drlee.Prelude.{
  ℕ, String, Option, none, some, List, [], ◌∷◌, ◌++◌, ltb, ◌||◌, if◌then◌else◌, is_some,
}
use drlee.Prelude.Dict.{Dict, lookup, insert}
use drlee.Prelude.Result.{Result, ok, panic, ◌>>=◌}
use drlee.Lua.{LType, LValue, string, table}
use drlee.Params.{Param, string_param, table_param, check}

abbrev pub Header : Type 0
Header = Dict (List String)

abbrev pub values : String → Header → List String
values key h = elim (lookup key h) [ none ↦ [] | some vs ↦ vs ]

abbrev pub first_or_empty : List String → String
first_or_empty [] = ""
first_or_empty (v ∷ _) = v

-- The fields that the three functions read of a *http.Request and of a *http.Response.
pub record Request : Type 0 where
  pub header : Header
  pub request_uri : String
  pub url : String
  pub method : String

pub record Response : Type 0 where
  pub header : Header
  pub status_code : ℕ
  pub status : String

pub record RequestProperties : Type 0 where
  pub headers : Dict String
  pub request_uri : String
  pub url : String
  pub method : String

pub record ResponseProperties : Type 0 where
  pub headers : Dict String
  pub status_code : ℕ
  pub status : String

-- An http.ResponseWriter: the header to be sent, and the status and header that were.
pub record ResponseWriter : Type 0 where
  pub header : Header
  pub written : Option (ℕ × Header)

-- the request that the client makes
pub record Outgoing : Type 0 where
  pub method : String
  pub url : String
  pub body : Option String
  pub header : Header

-- What lRequest does: it calls the callback with an error, or leaves a request to a goroutine.
pub data Requesting (F : Type 0) : Type 0 where
  refused : LValue F → String → Requesting F
  requested : LValue F → Outgoing → Requesting F

-- lResponseWriterSetStatus. WriteHeader takes three digits, and only the first time.
unfoldable pub set_status : ℕ → ResponseWriter → Result ResponseWriter
set_status code w =
    if ltb code 100 || ltb 999 code
    then panic
    else if is_some w.written
    then ok w
    else ok (record w { written = some (code, w.header) })

module _ (canonical : String → String) where
  -- Header's Get, Set and Add
  abbrev pub header_get : String → Header → String
  header_get key h = first_or_empty (values (canonical key) h)

  abbrev pub header_set : String → String → Header → Header
  header_set key value h = insert (canonical key) (value ∷ []) h

  abbrev pub header_add : String → String → Header → Header
  header_add key value h = insert (canonical key) (values (canonical key) h ++ value ∷ []) h

  -- the loop over the keys of `entries`, a part of the header `h`
  abbrev pub headers_over : Header → Header → Dict String
  headers_over h [] = []
  headers_over h ((key, _) ∷ entries) = (key, header_get key h) ∷ headers_over h entries

  unfoldable pub headers_of : Header → Dict String
  headers_of h = headers_over h h

  unfoldable pub new_request : Request → RequestProperties
  unfolding headers_of
  new_request req = record {
    headers = headers_of req.header;
    request_uri = req.request_uri;
    url = req.url;
    method = req.method;
  }

  unfoldable pub new_response : Response → ResponseProperties
  unfolding headers_of
  new_response res = record {
    headers = headers_of res.header;
    status_code = res.status_code;
    status = res.status;
  }

  -- lResponseWriterSet, lResponseWriterGet
  unfoldable pub response_set : String → String → ResponseWriter → ResponseWriter
  response_set key value w = record w { header = header_set key value w.header }

  unfoldable pub response_get : String → ResponseWriter → String
  response_get key w = header_get key w.header

  module _ {F : Type 0} (text : LValue F → String) where
    -- the function given to ForEach, over the entries of the option `headers`
    unfoldable pub add_headers : List (LValue F × LValue F) → Header → Header
    add_headers [] h = h
    add_headers ((key, value) ∷ entries) h =
        add_headers entries (header_add (text key) (text value) h)

    module _ (raw_get_string : ℕ → String → LValue F)
        (for_each : ℕ → List (LValue F × LValue F)) where
      abbrev pub body_of : Option ℕ → Option String
      body_of none = none
      body_of (some t) = elim (raw_get_string t "body") [ string s ↦ some s | _ ↦ none ]

      unfoldable pub request_headers : Option ℕ → Header
      unfolding add_headers
      request_headers none = []
      request_headers (some t) = elim (raw_get_string t "headers") [
        | table u ↦ add_headers (for_each u) []
        | _ ↦ []
      ]

      -- `invalid` is the error of http.NewRequest
      abbrev requesting :
          (String → String → Option String) → LValue F × List (Param F) → Result (Requesting F)
      requesting invalid (cb, string_param method ∷ string_param url ∷ table_param options ∷ _) =
          ok (elim (invalid method url) [
            | some err ↦ refused cb err
            | none ↦ requested cb (record {
              method = method;
              url = url;
              body = body_of options;
              header = request_headers options;
            })
          ])
      requesting invalid _ = panic

      -- lRequest up to its goroutine
      unfoldable pub l_request :
          (String → String → Option String)
          → (ℕ → LType → LType → String)
          → List (LValue F)
          → Result (Requesting F)
      unfolding check request_headers
      l_request invalid bad frame =
          check "http.request(method, url, options?, cb?)" bad 1 2
            (string_param "" ∷ string_param "" ∷ table_param none ∷ []) frame
          >>= requesting invalid

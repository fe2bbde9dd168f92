-- ===== src/Control/Answers.antt =====
-- ctrl/types.rs: what the handlers answer, and the HTTP responses made from that.
use crab_rs.Prelude.{
  ℕ, String, Option, none, some, List, [], ◌∷◌, Result, ok, err, ◌≡◌, str_eq, if◌then◌else◌,
}
use crab_rs.Prelude.Text.{decimal}
use crab_rs.Errors.{CrabError, to_string}
use crab_rs.Errors
use crab_rs.Errors.Codes
use crab_rs.Http.{Headers, HttpResponse}
use crab_rs.Command.Files.{FileMetadata}

-- The field `value` is the source's `data`.
pub record Ret (D : Type 0) : Type 0 where
  pub err_no : ℕ
  pub msg : String
  pub value : Option D

module _ {D : Type 0} where
  unfoldable pub ret_error : CrabError → Ret D
  ret_error e = record { err_no = Errors.err_no e; msg = to_string e; value = none }

  -- `impl From<T> for Ret<T>`
  pub ret_from : D → Ret D
  ret_from t = record { err_no = Codes.no_error; msg = "success"; value = some t }

  -- `impl From<Result<T, CrabError>> for Ret<T>`
  unfoldable pub ret_from_result : Result CrabError D → Ret D
  unfolding ret_error ret_from
  ret_from_result (ok val) = ret_from val
  ret_from_result (err e) = ret_error e

pub data StreamResponse : Type 0 where
  error : Ret (Unit {0}) → StreamResponse
  file : FileMetadata → StreamResponse

-- The variant `Err` has the status beside the error.
abbrev pub ProxyResponse : Type 0
ProxyResponse = Result (ℕ × CrabError) HttpResponse

-- `axum::http`: a map from names to values, of which `insert` replaces all that a name had, and the
-- texts and numbers that are names, values and status codes.
pub record HeaderMap : Type 1 where
  pub Map : Type 0
  pub empty : Map
  -- what `Json` of axum puts beside its body
  pub json_headers : Map
  pub insert : String → String → Map → Map
  pub get_all : Map → String → List String
  pub header_name : String → Option String
  pub header_value : String → Option String
  pub status_code : ℕ → Option ℕ
  pub get_all-empty : (k : String) → get_all empty k ≡ []
  pub get_all-insert :
      (k v j : String) (m : Map)
      → get_all (insert k v m) j ≡ (if str_eq k j then v ∷ [] else get_all m j)

pub data Body : Type 0 where
  json : Ret (Unit {0}) → Body
  -- the reading end of the pipe that the node's data goes to
  stream : Body

module _ (h : HeaderMap) where
  pub record Response : Type 0 where
    pub status : ℕ
    pub headers : h.Map
    pub body : Body

  abbrev pub or_internal_error : Option ℕ → ℕ
  or_internal_error none = 500
  or_internal_error (some status) = status

  unfoldable pub insert_valid : Option String → Option String → h.Map → h.Map
  insert_valid (some name) (some val) m = h.insert name val m
  insert_valid (some name) none m = m
  insert_valid none val m = m

  unfoldable pub insert_headers : Headers → h.Map → h.Map
  unfolding insert_valid
  insert_headers [] m = m
  insert_headers ((key, value) ∷ headers) m =
      insert_headers headers (insert_valid (h.header_name key) (h.header_value value) m)

  -- `impl IntoResponse for ProxyResponse`
  unfoldable pub proxy_response : ProxyResponse → Response
  unfolding ret_error insert_headers
  proxy_response (err (status, e)) = record {
    status = or_internal_error (h.status_code status);
    headers = h.json_headers;
    body = json (ret_error e);
  }
  proxy_response (ok header) = record {
    status = or_internal_error (h.status_code header.status_code);
    headers = insert_headers header.headers h.empty;
    body = stream;
  }

  -- `impl IntoResponse for StreamResponse`
  unfoldable pub stream_response : StreamResponse → Response
  stream_response (error ret) = record { status = 200; headers = h.json_headers; body = json ret }
  stream_response (file metadata) = record {
    status = 200;
    headers =
        h.insert "content-length" (decimal metadata.filesize)
          (h.insert "content-type" "application/octet-stream" h.empty);
    body = stream;
  }

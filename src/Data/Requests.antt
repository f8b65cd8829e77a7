-- ===== src/Data/Requests.antt =====
-- core/data/requests.py, with the limits of core/communication/protocol.py.
pub mod Fields
pub mod Accepted
use core_host.Base.{
  ℕ, Bool, true, false, ◌||◌, String, Option, none, some, List, [], ◌∷◌, elem, ltb, if◌then◌else◌,
  Result, ok, err, ◌>>=◌, ◌==◌,
}
use core_host.Base.Dict.{Dict}
use core_host.Base.Decimal.{ℤ, pos, negsuc}
use core_host.Data.Values.{Value, null, boolean, integer, text, real, list, object, get_or}

abbrev pub default_limit : ℕ
default_limit = 100

abbrev pub max_limit : ℕ
max_limit = 500

abbrev pub supported_request_types : List String
supported_request_types =
    "record_get" ∷ "record_list" ∷ "record_search" ∷ "file_metadata" ∷ "file_download" ∷ []

-- The refusals, by their messages, and the exception of a set that is asked for a value that has no
-- hash.
pub data RequestError : Type 0 where
  missing_request_type : RequestError
  unknown_request_type : Value → RequestError
  not_a_text missing_field : String → RequestError
  limit_is_boolean offset_is_boolean not_integers limit_out_of_range negative_offset : RequestError
  unhashable : RequestError

pub record ParsedRequest : Type 0 where
  pub request_type : String
  pub namespace : Option String
  pub key : Option String
  pub query : Option String
  pub key_prefix : Option String
  pub owner : Option String
  pub file_id : Option String
  pub limit : ℕ
  pub offset : ℕ
  pub destination_device_id : Option String
  pub raw : Dict Value

-- The last two tests of `validate_pagination`.
abbrev pub in_range : ℤ → ℤ → Result RequestError (ℕ × ℕ)
in_range (negsuc _) offset = err limit_out_of_range
in_range (pos limit) offset =
    if ltb limit 1 || ltb max_limit limit
    then err limit_out_of_range
    else elim offset [ pos o ↦ ok (limit, o) | negsuc _ ↦ err negative_offset ]

abbrev pub integers : Value → Value → Result RequestError (ℕ × ℕ)
integers (integer limit) (integer offset) = in_range limit offset
integers _ _ = err not_integers

abbrev pub offset_checked : Value → Value → Result RequestError (ℕ × ℕ)
offset_checked limit (boolean _) = err offset_is_boolean
offset_checked limit offset = integers limit offset

abbrev pub validate_pagination : Value → Value → Result RequestError (ℕ × ℕ)
validate_pagination (boolean _) offset = err limit_is_boolean
validate_pagination limit offset = offset_checked limit offset

-- `_optional_str`, of the value
abbrev pub text_or_null : String → Value → Result RequestError (Option String)
text_or_null name null = ok none
text_or_null name (text s) = if s == "" then err (not_a_text name) else ok (some s)
text_or_null name _ = err (not_a_text name)

unfoldable pub optional_str : String → Dict Value → Result RequestError (Option String)
optional_str name d = text_or_null name (get_or name null d)

-- A field that may not be absent.
abbrev pub required : String → Option String → Result RequestError String
required name none = err (missing_field name)
required name (some s) = ok s

-- `request_type not in SUPPORTED_REQUEST_TYPES`
abbrev pub supported : Value → Result RequestError String
supported null = err missing_request_type
supported (text t) =
    if elem t supported_request_types then ok t else err (unknown_request_type (text t))
supported (list n) = err unhashable
supported (object n) = err unhashable
supported v = err (unknown_request_type v)

-- `query` has a test of its own.
abbrev pub query_of : Value → Result RequestError String
query_of (text s) = if s == "" then err (missing_field "query") else ok s
query_of _ = err (missing_field "query")

abbrev pub plain : String → Option String → Dict Value → ParsedRequest
plain request_type destination d = record {
  request_type = request_type;
  namespace = none;
  key = none;
  query = none;
  key_prefix = none;
  owner = none;
  file_id = none;
  limit = default_limit;
  offset = 0;
  destination_device_id = destination;
  raw = d;
}

unfoldable pub file_request :
    String → Option String → Dict Value → Result RequestError ParsedRequest
file_request request_type destination d = do
  found ← optional_str "file_id" d
  file_id ← required "file_id" found
  ok (record (plain request_type destination d) { file_id = some file_id })

-- The end of a record request, by its type.
abbrev pub finish_get : ParsedRequest → Dict Value → Result RequestError ParsedRequest
finish_get r d = do
  key ← optional_str "key" d
  n ← required "namespace" r.namespace
  k ← required "key" key
  ok (record r { key = some k })

abbrev pub finish_search : ParsedRequest → Dict Value → Result RequestError ParsedRequest
finish_search r d = do q ← query_of (get_or "query" null d); ok (record r { query = some q })

abbrev pub finish_record :
    Bool → Bool → ParsedRequest → Dict Value → Result RequestError ParsedRequest
finish_record true _ r d = finish_get r d
finish_record false true r d = finish_search r d
finish_record false false r d = ok r

unfoldable pub record_request :
    String → Option String → Dict Value → Result RequestError ParsedRequest
record_request request_type destination d = do
  page ←
      validate_pagination (get_or "limit" (integer (pos default_limit)) d)
        (get_or "offset" (integer (pos 0)) d)
  namespace ← optional_str "namespace" d
  key_prefix ← optional_str "key_prefix" d
  owner ← optional_str "owner" d
  finish_record (request_type == "record_get") (request_type == "record_search")
      (record (plain request_type destination d) {
        namespace = namespace;
        key_prefix = key_prefix;
        owner = owner;
        limit = page.0;
        offset = page.1;
      })
      d

unfoldable pub is_file_request : String → Bool
is_file_request t = (t == "file_metadata") || (t == "file_download")

abbrev pub request_of :
    Bool → String → Option String → Dict Value → Result RequestError ParsedRequest
request_of true request_type destination d = file_request request_type destination d
request_of false request_type destination d = record_request request_type destination d

-- `validate_data_request` of a payload that is an object
unfoldable pub validate_data_request : Dict Value → Result RequestError ParsedRequest
validate_data_request d = do
  request_type ← supported (get_or "request_type" null d)
  destination ← optional_str "destination_device_id" d
  request_of (is_file_request request_type) request_type destination d

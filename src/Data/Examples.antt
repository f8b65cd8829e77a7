-- ===== src/Data/Examples.antt =====
-- A request for records, and a list of five entries in pages of two.
use core_host.Base.{ℕ, ◌≡◌, refl, none, some, List, [], ◌∷◌, elem, err, true}
use core_host.Base.Dict.{Dict, lookup}
use core_host.Base.Decimal.{pos}
use core_host.Data.Pages.{pages, paginate}
use core_host.Data.Values.{Value, text, integer, boolean, list, get_or}
use core_host.Data.Requests.{
  ParsedRequest, validate_data_request, file_request, record_request, optional_str, is_file_request,
  limit_is_boolean, unhashable, plain,
}

abbrev payload : Dict Value
payload =
    ("request_type", text "record_get")
    ∷ ("namespace", text "health")
    ∷ ("key", text "pulse")
    ∷ ("limit", integer (pos 20))
    ∷ []

abbrev parsed : ParsedRequest
parsed = record (plain "record_get" none payload) {
  namespace = some "health";
  key = some "pulse";
  limit = 20;
}

boolean_limit :
    validate_data_request (("request_type", text "record_list") ∷ ("limit", boolean true) ∷ [])
    ≡ err limit_is_boolean
unfolding validate_data_request file_request record_request optional_str is_file_request get_or
    lookup elem
boolean_limit = refl

-- A list as the type raises a TypeError, which is no refusal.
list_as_type : validate_data_request (("request_type", list 1) ∷ []) ≡ err unhashable
unfolding validate_data_request get_or lookup
list_as_type = refl

abbrev five : List ℕ
five = 1 ∷ 2 ∷ 3 ∷ 4 ∷ 5 ∷ []

five-pages : pages five 2 3 ≡ five
unfolding pages paginate
five-pages = refl

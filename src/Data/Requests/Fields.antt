-- ===== src/Data/Requests/Fields.antt =====
-- What each accepted field of a request is: core/data/requests.py.
use core_host.Base.{
  ℕ, ◌≤◌, ◌≡◌, ◌≢◌, true, false, String, Option, none, some, elem, ok, eq_iff, arith,
}
use core_host.Base.Dict.{Dict}
use core_host.Base.Decimal.{ℤ, pos, negsuc}
use core_host.Data.Values.{Value, null, boolean, integer, text, real, list, object, get_or}
use core_host.Data.Requests.{
  ParsedRequest, max_limit, supported_request_types, in_range, integers, offset_checked,
  validate_pagination, text_or_null, optional_str, required, supported, query_of, plain,
  is_file_request,
}

-- Absent, or a text that is not empty.
abbrev pub IsTextOrNull : Option String → Type 0
IsTextOrNull none = Unit
IsTextOrNull (some s) = s ≢ ""

abbrev pub IsText : Option String → Type 0
IsText none = ⊥
IsText (some s) = s ≢ ""

-- A request that can be answered: its type is supported, its page is within the limits, its texts
-- are not empty, and the fields that its type needs are there.
pub record IsAnswerable (r : ParsedRequest) : Type 0 where
  pub known : elem r.request_type supported_request_types ≡ true
  pub at_least_one : 1 ≤ r.limit
  pub at_most_max : r.limit ≤ max_limit
  pub destination : IsTextOrNull r.destination_device_id
  pub namespace : IsTextOrNull r.namespace
  pub key_prefix : IsTextOrNull r.key_prefix
  pub owner : IsTextOrNull r.owner
  pub for_file : is_file_request r.request_type ≡ true → IsText r.file_id
  pub for_get : r.request_type ≡ "record_get" → IsText r.namespace × IsText r.key
  pub for_search : r.request_type ≡ "record_search" → IsText r.query

in_range-bounds :
    (limit offset : ℤ) (l o : ℕ) → in_range limit offset ≡ ok (l, o) → (1 ≤ l) × (l ≤ max_limit)
in_range-bounds (negsuc n) offset l o h = cc
in_range-bounds (pos n) (pos m) l o h = ground arith
in_range-bounds (pos n) (negsuc m) l o h = ground arith

integers-bounds :
    (limit offset : Value) (l o : ℕ) → integers limit offset ≡ ok (l, o) → (1 ≤ l) × (l ≤ max_limit)
integers-bounds (integer m) (integer n) l o h = in_range-bounds m n l o h
integers-bounds _ _ l o h = cc

offset_checked-bounds :
    (limit offset : Value) (l o : ℕ)
    → offset_checked limit offset ≡ ok (l, o)
    → (1 ≤ l) × (l ≤ max_limit)
offset_checked-bounds limit (boolean b) l o h = cc
offset_checked-bounds limit offset l o h = integers-bounds limit offset l o h

-- An accepted page is within the limits.
pub validate_pagination-bounds :
    (limit offset : Value) (l o : ℕ)
    → validate_pagination limit offset ≡ ok (l, o)
    → (1 ≤ l) × (l ≤ max_limit)
validate_pagination-bounds (boolean b) offset l o h = cc
validate_pagination-bounds limit offset l o h = offset_checked-bounds limit offset l o h

text_or_null-IsTextOrNull :
    (name : String) (v : Value) (s : Option String) → text_or_null name v ≡ ok s → IsTextOrNull s
text_or_null-IsTextOrNull name v none h = tt
text_or_null-IsTextOrNull name null (some s) h = cc
text_or_null-IsTextOrNull name (text t) (some s) h = λ e. ground (arith, eq_iff t "")
text_or_null-IsTextOrNull name (boolean _) (some s) h = cc
text_or_null-IsTextOrNull name (integer _) (some s) h = cc
text_or_null-IsTextOrNull name (real _) (some s) h = cc
text_or_null-IsTextOrNull name (list _) (some s) h = cc
text_or_null-IsTextOrNull name (object _) (some s) h = cc

pub optional_str-IsTextOrNull :
    (name : String) (d : Dict Value) (s : Option String)
    → optional_str name d ≡ ok s
    → IsTextOrNull s
unfolding optional_str
optional_str-IsTextOrNull name d s h = text_or_null-IsTextOrNull name (get_or name null d) s h

pub required-IsText :
    (name : String) (found : Option String) (s : String)
    → IsTextOrNull found
    → required name found ≡ ok s
    → found ≡ some s
required-IsText name none s t h = cc
required-IsText name (some u) s t h = cc

pub supported-known :
    (v : Value) (t : String) → supported v ≡ ok t → elem t supported_request_types ≡ true
supported-known null t h = cc
supported-known (text u) t h = ground arith
supported-known (list n) t h = cc
supported-known (object n) t h = cc
supported-known (boolean b) t h = cc
supported-known (integer n) t h = cc
supported-known (real n) t h = cc

pub query_of-IsText : (v : Value) (q : String) → query_of v ≡ ok q → q ≢ ""
query_of-IsText (text s) q h = λ e. ground (arith, eq_iff s "")
query_of-IsText null q h = cc
query_of-IsText (boolean b) q h = cc
query_of-IsText (integer n) q h = cc
query_of-IsText (real n) q h = cc
query_of-IsText (list n) q h = cc
query_of-IsText (object n) q h = cc

pub not_file : {t u : String} → t ≡ u → is_file_request u ≡ false → is_file_request t ≡ true → ⊥
not_file e plain file = cc

-- ===== src/Data/Requests/Accepted.antt =====
-- What `validate_data_request` of core/data/requests.py accepts.
use core_host.Base.{◌≤◌, ◌≡◌, true, false, elem}
use core_host.Base.Dict.{Dict}
use core_host.Data.Requests.{ParsedRequest, max_limit, supported_request_types, is_file_request}
use core_host.Data.Requests.Fields.{IsTextOrNull}

-- What holds of a record request before the test of its type.
record IsPaged (r : ParsedRequest) : Type 0 where
  known : elem r.request_type supported_request_types ≡ true
  at_least_one : 1 ≤ r.limit
  at_most_max : r.limit ≤ max_limit
  destination : IsTextOrNull r.destination_device_id
  namespace : IsTextOrNull r.namespace
  key_prefix : IsTextOrNull r.key_prefix
  owner : IsTextOrNull r.owner
  no_file : is_file_request r.request_type ≡ false

-- ===== src/Devices/Payloads.antt =====
-- `validate_registration_payload` of core/communication/protocol.py, of a payload that is an object.
use core_host.Base.{
  Bool, true, false, ◌||◌, String, length, ltb, if◌then◌else◌, Result, ok, err, ◌>>=◌, ◌==◌,
}
use core_host.Base.Chars.{codes, strip, blank}
use core_host.Base.Dict.{Dict, has}
use core_host.Data.Values.{Value, null, text, list, get_or}
use core_host.Version.{is_supported}

-- The messages of DEVICE_REGISTRATION_FAILED.
pub data Fault : Type 0 where
  missing empty : String → Fault
  invalid_device_id malformed_capabilities unsupported_version invalid_join_name : Fault

abbrev pub check_device_id : Value → Result Fault (Unit {0})
check_device_id null = err (missing "device_id")
check_device_id (text s) = if s == "" then err (empty "device_id") else ok tt
check_device_id _ = err invalid_device_id

abbrev pub check_device_name : Value → Result Fault (Unit {0})
check_device_name null = err (missing "device_name")
check_device_name (text s) = if s == "" then err (empty "device_name") else ok tt
check_device_name _ = err (empty "device_name")

-- `device_type` and `platform`
abbrev pub check_label : String → Value → Result Fault (Unit {0})
check_label name null = err (missing name)
check_label name (text s) = if blank (codes s) then err (empty name) else ok tt
check_label name _ = err (empty name)

abbrev pub is_list : Value → Bool
is_list (list n) = true
is_list _ = false

abbrev pub check_capabilities : Bool → Value → Result Fault (Unit {0})
check_capabilities false v = err (missing "capabilities")
check_capabilities true v = if is_list v then ok tt else err malformed_capabilities

-- `is_supported_protocol_version`
abbrev pub is_supported_protocol_version : Value → Bool
is_supported_protocol_version (text s) =
    if blank (codes s) then false else is_supported (strip (codes s))
is_supported_protocol_version _ = false

abbrev pub check_version : Value → Result Fault (Unit {0})
check_version null = err (missing "protocol_version")
check_version v = if is_supported_protocol_version v then ok tt else err unsupported_version

-- An absent name and None are allowed.
abbrev pub check_join_name : Value → Result Fault (Unit {0})
check_join_name null = ok tt
check_join_name (text s) =
    if blank (codes s) || ltb 64 (length (strip (codes s))) then err invalid_join_name else ok tt
check_join_name _ = err invalid_join_name

unfoldable pub validate_registration_payload : Dict Value → Result Fault (Unit {0})
validate_registration_payload d = do
  a ← check_device_id (get_or "device_id" null d)
  b ← check_device_name (get_or "device_name" null d)
  c ← check_label "device_type" (get_or "device_type" null d)
  e ← check_label "platform" (get_or "platform" null d)
  f ← check_capabilities (has "capabilities" d) (get_or "capabilities" null d)
  g ← check_version (get_or "protocol_version" null d)
  check_join_name (get_or "join_name" null d)

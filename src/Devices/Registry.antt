-- ===== src/Devices/Registry.antt =====
-- How a device is registered and restored: `DeviceRegistry` of core/communication/devices.py. A persisted record
-- is parsed outside.
use core_host.Base.{
  ℕ, suc, String, Option, none, some, List, [], ◌∷◌, or_else, if◌then◌else◌, Result, ok, err, ◌==◌,
}
use core_host.Base.Chars.{Chars, codes, strip, blank}
use core_host.Base.Dict.{Dict, lookup}
use core_host.Data.Values.{Value, null, text, list, get_or}
use core_host.Data.Pages.{take}
use core_host.Devices.Payloads.{Fault, validate_registration_payload}
use core_host.Devices.Names.{derive_join_name}
use core_host.Devices.Records.{
  Status, online, offline, DeviceRecord, DeviceRegistryError, registration_failed,
  device_already_registered, DeviceRegistry, World, Registration, persist_record, put,
}

abbrev pub payload_of : Registration → Dict Value
payload_of g =
    ("device_id", text g.device_id)
    ∷ ("device_name", text g.device_name)
    ∷ ("device_type", text g.device_type)
    ∷ ("platform", text g.platform)
    ∷ ("capabilities", g.capabilities)
    ∷ ("protocol_version", text g.protocol_version)
    ∷ []

-- `identity_id or device_id`
abbrev pub identity_or : Option String → String → String
identity_or none id = id
identity_or (some i) id = if i == "" then id else i

-- A join name that is given and not blank.
abbrev pub given_name : Option String → Option Chars
given_name none = none
given_name (some n) = if blank (codes n) then none else some (strip (codes n))

unfoldable pub resolved_join : World → Registration → Chars
resolved_join world g = take 64 (
    or_else (given_name g.join_name)
      (derive_join_name world.alnum (codes g.device_name) (codes g.device_id)))

-- A record that is there keeps its join name, unless a new one is given or it has none.
abbrev pub kept_join : World → Registration → Option Chars → Chars → Chars
kept_join world g (some n) old = resolved_join world g
kept_join world g none [] = resolved_join world g
kept_join world g none (c ∷ s) = c ∷ s

abbrev pub new_record : World → Registration → DeviceRecord
new_record world g = record {
  device_id = g.device_id;
  device_name = g.device_name;
  device_type = g.device_type;
  platform = g.platform;
  capabilities = g.capabilities;
  status = online;
  identity_id = some (identity_or g.identity_id g.device_id);
  connection_id = g.connection_id;
  last_seen = some world.now;
  registered_at = world.now;
  protocol_version = g.protocol_version;
  join_name = resolved_join world g;
}

abbrev pub reconnected : World → Registration → DeviceRecord → DeviceRecord
reconnected world g d = record d {
  device_name = g.device_name;
  device_type = g.device_type;
  platform = g.platform;
  capabilities = g.capabilities;
  protocol_version = g.protocol_version;
  identity_id = some (identity_or g.identity_id g.device_id);
  connection_id = g.connection_id;
  status = online;
  last_seen = some world.now;
  join_name = kept_join world g (given_name g.join_name) d.join_name;
}

abbrev pub Registering : Type 0
Registering = Result DeviceRegistryError DeviceRecord × DeviceRegistry

abbrev pub accept : World → String → DeviceRecord → DeviceRegistry → Registering
accept world id d r = (ok d, persist_record world d (put id d r))

abbrev pub register_over :
    Status → World → Registration → DeviceRecord → DeviceRegistry → Registering
register_over online world g d r = (err (device_already_registered g.device_id), r)
register_over offline world g d r = accept world g.device_id (reconnected world g d) r

abbrev pub register_found :
    World → Registration → Option DeviceRecord → DeviceRegistry → Registering
register_found world g none r = accept world g.device_id (new_record world g) r
register_found world g (some d) r = register_over d.status world g d r

abbrev pub register_valid :
    Result Fault (Unit {0}) → World → Registration → DeviceRegistry → Registering
register_valid (err f) world g r = (err (registration_failed f), r)
register_valid (ok _) world g r = register_found world g (lookup g.device_id r.devices) r

unfoldable pub register : World → Registration → DeviceRegistry → Registering
register world g r = register_valid (validate_registration_payload (payload_of g)) world g r

-- A text of a payload; the validation leaves texts only.
abbrev pub text_of : Value → String
text_of (text s) = s
text_of _ = ""

abbrev pub optional_text : Value → Option String
optional_text (text s) = some s
optional_text _ = none

abbrev pub registration_of : Dict Value → Option String → Option String → Registration
registration_of d identity_id connection_id = record {
  device_id = text_of (get_or "device_id" null d);
  device_name = text_of (get_or "device_name" null d);
  device_type = text_of (get_or "device_type" (text "generic") d);
  platform = text_of (get_or "platform" (text "unknown") d);
  capabilities = get_or "capabilities" (list 0) d;
  protocol_version = text_of (get_or "protocol_version" (text "0.3.0") d);
  identity_id = identity_id;
  connection_id = connection_id;
  join_name = optional_text (get_or "join_name" null d);
}

abbrev pub register_payload_if :
    Result Fault (Unit {0}) → World → Registration → DeviceRegistry → Registering
register_payload_if (err f) world g r = (err (registration_failed f), r)
register_payload_if (ok _) world g r = register world g r

unfoldable pub register_payload :
    World → Dict Value → Option String → Option String → DeviceRegistry → Registering
register_payload world d identity_id connection_id r =
    register_payload_if (validate_registration_payload d) world
      (registration_of d identity_id connection_id) r

-- `restore`, of the record that is parsed
abbrev pub restored : DeviceRecord → DeviceRecord
restored d = record d { status = offline; connection_id = none }

abbrev pub restore_over :
    Status → DeviceRecord → DeviceRecord → DeviceRegistry → DeviceRecord × DeviceRegistry
restore_over online old d r = (old, r)
restore_over offline old d r = (restored d, put d.device_id (restored d) r)

abbrev pub restore_found :
    Option DeviceRecord → DeviceRecord → DeviceRegistry → DeviceRecord × DeviceRegistry
restore_found none d r = (restored d, put d.device_id (restored d) r)
restore_found (some old) d r = restore_over old.status old d r

unfoldable pub restore : DeviceRecord → DeviceRegistry → DeviceRecord × DeviceRegistry
restore d r = restore_found (lookup d.device_id r.devices) d r

-- `restore_all`, of the entries that are parsed; none where an entry is invalid.
unfoldable pub restore_all : List (Option DeviceRecord) → DeviceRegistry → ℕ × DeviceRegistry
restore_all [] r = (0, r)
restore_all (none ∷ items) r = restore_all items r
restore_all (some d ∷ items) r =
    let rest = restore_all items (restore d r).1 in (suc rest.0, rest.1)

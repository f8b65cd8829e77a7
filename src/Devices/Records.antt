-- ===== src/Devices/Records.antt =====
-- The records of `DeviceRegistry` in core/communication/devices.py, and what keeps and hands them on.
use core_host.Base.{ℕ, Bool, true, false, String, Option, none, some, List, [], ◌∷◌, ◌++◌, or_else}
use core_host.Base.Chars.{Chars}
use core_host.Base.Dict.{Dict, lookup, insert}
use core_host.Data.Values.{Value}
use core_host.Devices.Payloads.{Fault}
use core_host.Devices.Names.{Table}

pub data Status : Type 0 where
  online offline : Status

pub record DeviceRecord : Type 0 where
  pub device_id : String
  pub device_name : String
  pub device_type : String
  pub platform : String
  pub capabilities : Value
  pub status : Status
  pub identity_id : Option String
  pub connection_id : Option String
  pub last_seen : Option ℕ
  pub registered_at : ℕ
  pub protocol_version : String
  pub join_name : Chars

pub data DeviceRegistryError : Type 0 where
  registration_failed : Fault → DeviceRegistryError
  device_already_registered : String → DeviceRegistryError

-- The token and the permissions that are kept with a persisted record.
abbrev pub Credentials : Type 0
Credentials = Option String × List String

-- Two fields are none of the program's: `mirrored` has the records that were handed to the resource
-- registry and `persisted` those that were handed to the store, in order.
pub record DeviceRegistry : Type 0 where
  pub devices : Dict DeviceRecord
  pub has_store : Bool
  pub mirrored : List DeviceRecord
  pub persisted : List (DeviceRecord × Credentials)

-- `DeviceRegistry(resources, store)`
abbrev pub init : Bool → DeviceRegistry
init has_store = record { devices = []; has_store = has_store; mirrored = []; persisted = [] }

-- From outside: the table of letters and digits, the clock, and the credentials that the store gives
-- for a device after what it was handed so far; none where it raises or has nothing.
pub record World : Type 0 where
  pub alnum : Table
  pub now : ℕ
  pub fetch_device : List (DeviceRecord × Credentials) → String → Option Credentials

-- The arguments of `register`.
pub record Registration : Type 0 where
  pub device_id : String
  pub device_name : String
  pub device_type : String
  pub platform : String
  pub capabilities : Value
  pub protocol_version : String
  pub identity_id : Option String
  pub connection_id : Option String
  pub join_name : Option String

abbrev pub mirror_to_resources : DeviceRecord → DeviceRegistry → DeviceRegistry
mirror_to_resources d r = record r { mirrored = r.mirrored ++ d ∷ [] }

abbrev pub persist_if : Bool → World → DeviceRecord → DeviceRegistry → DeviceRegistry
persist_if false world d r = r
persist_if true world d r = record r {
  persisted =
      r.persisted ++ (d, or_else (world.fetch_device r.persisted d.device_id) (none, [])) ∷ [];
}

-- `_persist_record`
abbrev pub persist_record : World → DeviceRecord → DeviceRegistry → DeviceRegistry
persist_record world d r = persist_if r.has_store world d r

-- A record takes its place, and is mirrored.
abbrev pub put : String → DeviceRecord → DeviceRegistry → DeviceRegistry
put id d r = mirror_to_resources d (record r { devices = insert id d r.devices })

-- What is handed on for a field that the caller left out: that of the stored one.
abbrev pub token_or : Option String → Credentials → Option String
token_or none stored = stored.0
token_or (some t) stored = some t

abbrev pub permissions_or : Option (List String) → Credentials → List String
permissions_or none stored = stored.1
permissions_or (some ps) stored = ps

abbrev pub persist_identity_if :
    Bool
    → Option DeviceRecord
    → World
    → Option String
    → Option (List String)
    → DeviceRegistry
    → DeviceRegistry
persist_identity_if false found world token permissions r = r
persist_identity_if true none world token permissions r = r
persist_identity_if true (some d) world token permissions r =
    let stored = or_else (world.fetch_device r.persisted d.device_id) (none, []) in
    record r {
      persisted =
          r.persisted ++ (d, (token_or token stored, permissions_or permissions stored)) ∷ [];
    }

unfoldable pub persist_identity :
    World → String → Option String → Option (List String) → DeviceRegistry → DeviceRegistry
persist_identity world id token permissions r =
    persist_identity_if r.has_store (lookup id r.devices) world token permissions r

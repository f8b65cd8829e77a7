-- ===== src/Devices/Presence.antt =====
-- Presence and lookups of `DeviceRegistry` in core/communication/devices.py.
use core_host.Base.{
  ℕ, ◌+◌, Bool, true, false, not, String, Option, none, some, List, [], ◌∷◌, length, select,
  if◌then◌else◌, ◌==◌,
}
use core_host.Base.Dict.{Dict, lookup, insert, values}
use core_host.Devices.Records.{
  online, offline, DeviceRecord, DeviceRegistry, World, persist_record, put,
}

-- `record.connection_id == connection_id`
abbrev pub is_bound_to : String → Option String → Bool
is_bound_to c none = false
is_bound_to c (some b) = b == c

-- A call for another connection than the record's is stale.
abbrev pub is_stale : Option String → DeviceRecord → Bool
is_stale none d = false
is_stale (some c) d = not (is_bound_to c d.connection_id)

abbrev pub gone : World → DeviceRecord → DeviceRecord
gone world d = record d { status = offline; connection_id = none; last_seen = some world.now }

abbrev pub mark_unless :
    Bool → World → String → DeviceRecord → DeviceRegistry → Option DeviceRecord × DeviceRegistry
mark_unless true world id d r = (some d, r)
mark_unless false world id d r =
    (some (gone world d), persist_record world (gone world d) (put id (gone world d) r))

abbrev pub mark_found :
    World
    → String
    → Option String
    → Option DeviceRecord
    → DeviceRegistry
    → Option DeviceRecord × DeviceRegistry
mark_found world id c none r = (none, r)
mark_found world id c (some d) r = mark_unless (is_stale c d) world id d r

unfoldable pub mark_offline :
    World → String → Option String → DeviceRegistry → Option DeviceRecord × DeviceRegistry
mark_offline world id c r = mark_found world id c (lookup id r.devices) r

-- The first record that is bound to the connection.
unfoldable pub find_by : String → Dict DeviceRecord → Option DeviceRecord
find_by c [] = none
find_by c ((id, d) ∷ more) =
    let rest = find_by c more in if is_bound_to c d.connection_id then some d else rest

unfoldable pub find_by_connection : String → DeviceRegistry → Option DeviceRecord
find_by_connection c r = find_by c r.devices

abbrev pub mark_bound :
    World → String → Option DeviceRecord → DeviceRegistry → Option DeviceRecord × DeviceRegistry
mark_bound world c none r = (none, r)
mark_bound world c (some d) r = mark_offline world d.device_id (some c) r

unfoldable pub mark_offline_by_connection :
    World → String → DeviceRegistry → Option DeviceRecord × DeviceRegistry
mark_offline_by_connection world c r = mark_bound world c (find_by_connection c r) r

abbrev pub seen_found : ℕ → String → Option DeviceRecord → DeviceRegistry → DeviceRegistry
seen_found now id none r = r
seen_found now id (some d) r = put id (record d { last_seen = some now }) r

unfoldable pub update_last_seen : ℕ → String → DeviceRegistry → DeviceRegistry
update_last_seen now id r = seen_found now id (lookup id r.devices) r

abbrev pub unbind_found : String → Option DeviceRecord → DeviceRegistry → DeviceRegistry
unbind_found id none r = r
unbind_found id (some d) r = record r {
  devices = insert id (record d { connection_id = none }) r.devices;
}

-- `record.connection_id = None`
unfoldable pub unbind : String → DeviceRegistry → DeviceRegistry
unbind id r = unbind_found id (lookup id r.devices) r

-- The loop over the ids at the time of the call.
unfoldable pub mark_each : World → List String → DeviceRegistry → DeviceRegistry
mark_each world [] r = r
mark_each world (id ∷ ids) r = mark_each world ids (unbind id (mark_offline world id none r).1)

abbrev pub ids_of : List DeviceRecord → List String
ids_of [] = []
ids_of (d ∷ ds) = d.device_id ∷ ids_of ds

unfoldable pub mark_all_offline : World → DeviceRegistry → DeviceRegistry
mark_all_offline world r = mark_each world (ids_of (values r.devices)) r

abbrev pub is_online : DeviceRecord → Bool
is_online d = elim d.status [ online ↦ true | offline ↦ false ]

abbrev pub online_in : List DeviceRecord → ℕ
online_in [] = 0
online_in (d ∷ ds) = (if is_online d then 1 else 0) + online_in ds

abbrev pub offline_in : List DeviceRecord → ℕ
offline_in [] = 0
offline_in (d ∷ ds) = (if is_online d then 0 else 1) + offline_in ds

unfoldable pub online_count : DeviceRegistry → ℕ
online_count r = online_in (values r.devices)

unfoldable pub offline_count : DeviceRegistry → ℕ
offline_count r = offline_in (values r.devices)

unfoldable pub list_devices : Bool → DeviceRegistry → List DeviceRecord
list_devices include_offline r =
    if include_offline then values r.devices else select is_online (values r.devices)

unfoldable pub registered_count : DeviceRegistry → ℕ
registered_count r = length r.devices

unfoldable pub clear : DeviceRegistry → DeviceRegistry
clear r = record r { devices = [] }

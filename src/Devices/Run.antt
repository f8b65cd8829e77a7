-- ===== src/Devices/Run.antt =====
-- Any sequence of calls of `DeviceRegistry`: core/communication/devices.py.
use core_host.Base.{ℕ, ◌≡◌, refl, Bool, true, false, String, Option, none, some, List, [], ◌∷◌}
use core_host.Base.Dict.{Dict, lookup}
use core_host.Data.Values.{Value}
use core_host.Devices.Records.{
  Status, online, offline, DeviceRecord, DeviceRegistry, init, World, Registration,
  persist_identity, persist_identity_if,
}
use core_host.Devices.Registry.{register, register_payload, restore, restore_all}
use core_host.Devices.Presence.{
  is_stale, gone, mark_unless, mark_found, mark_offline, find_by_connection, mark_bound,
  mark_offline_by_connection, seen_found, update_last_seen, unbind, unbind_found, mark_each,
  mark_all_offline, clear,
}
use core_host.Devices.Roster.{
  IsUnboundIf, IsRoster, insert-IsRoster, put-IsRoster, register-IsRoster,
  register_payload-IsRoster, restore_all-IsRoster, restore-IsRoster,
}

pub data Op : Type 0 where
  registers : World → Registration → Op
  registers_payload : World → Dict Value → Option String → Option String → Op
  persists : World → String → Option String → Option (List String) → Op
  restores : DeviceRecord → Op
  restores_all : List (Option DeviceRecord) → Op
  marks : World → String → Option String → Op
  closes : World → String → Op
  sees : ℕ → String → Op
  marks_all : World → Op
  clears : Op

unfoldable pub step : Op → DeviceRegistry → DeviceRegistry
step (registers w g) r = (register w g r).1
step (registers_payload w d i c) r = (register_payload w d i c r).1
step (persists w id t ps) r = persist_identity w id t ps r
step (restores d) r = (restore d r).1
step (restores_all items) r = (restore_all items r).1
step (marks w id c) r = (mark_offline w id c r).1
step (closes w c) r = (mark_offline_by_connection w c r).1
step (sees now id) r = update_last_seen now id r
step (marks_all w) r = mark_all_offline w r
step clears r = clear r

unfoldable pub run : List Op → DeviceRegistry → DeviceRegistry
run [] r = r
run (op ∷ ops) r = run ops (step op r)

mark_unless-IsRoster :
    (stale : Bool) (world : World) (id : String) (d : DeviceRecord) (r : DeviceRegistry)
    → d.device_id ≡ id
    → IsRoster r.devices
    → IsRoster (mark_unless stale world id d r).1.devices
mark_unless-IsRoster true world id d r own v = v
mark_unless-IsRoster false world id d r own v = put-IsRoster world id (gone world d) r (own, refl) v

mark_found-IsRoster :
    (world : World) (id : String) (c : Option String) (found : Option DeviceRecord)
    (r : DeviceRegistry)
    → lookup id r.devices ≡ found
    → IsRoster r.devices
    → IsRoster (mark_found world id c found r).1.devices
mark_found-IsRoster world id c none r here v = v
mark_found-IsRoster world id c (some d) r here v =
    mark_unless-IsRoster (is_stale c d) world id d r (v.good id d here).0 v

mark_offline-IsRoster :
    (world : World) (id : String) (c : Option String) (r : DeviceRegistry)
    → IsRoster r.devices
    → IsRoster (mark_offline world id c r).1.devices
unfolding mark_offline
mark_offline-IsRoster world id c r v = mark_found-IsRoster world id c (lookup id r.devices) r refl v

mark_bound-IsRoster :
    (world : World) (c : String) (found : Option DeviceRecord) (r : DeviceRegistry)
    → IsRoster r.devices
    → IsRoster (mark_bound world c found r).1.devices
mark_bound-IsRoster world c none r v = v
mark_bound-IsRoster world c (some d) r v = mark_offline-IsRoster world d.device_id (some c) r v

seen_found-IsRoster :
    (now : ℕ) (id : String) (found : Option DeviceRecord) (r : DeviceRegistry)
    → lookup id r.devices ≡ found
    → IsRoster r.devices
    → IsRoster (seen_found now id found r).devices
seen_found-IsRoster now id none r here v = v
seen_found-IsRoster now id (some d) r here v =
    insert-IsRoster id (record d { last_seen = some now }) r.devices (v.good id d here) v

without : (s : Status) (c : Option String) → IsUnboundIf s c → IsUnboundIf s none
without online c h = tt
without offline c h = refl

unbind_found-IsRoster :
    (id : String) (found : Option DeviceRecord) (r : DeviceRegistry)
    → lookup id r.devices ≡ found
    → IsRoster r.devices
    → IsRoster (unbind_found id found r).devices
unbind_found-IsRoster id none r here v = v
unbind_found-IsRoster id (some d) r here v =
    let g = v.good id d here in
    insert-IsRoster id (record d { connection_id = none }) r.devices
      (g.0, without d.status d.connection_id g.1) v

mark_each-IsRoster :
    (world : World) (ids : List String) (r : DeviceRegistry)
    → IsRoster r.devices
    → IsRoster (mark_each world ids r).devices
unfolding mark_each unbind
mark_each-IsRoster world [] r v = v
mark_each-IsRoster world (id ∷ ids) r v =
    let s = (mark_offline world id none r).1 in
    mark_each-IsRoster world ids (unbind id s) (
      unbind_found-IsRoster id (lookup id s.devices) s refl
        (mark_offline-IsRoster world id none r v))

persist_identity_if-IsRoster :
    (b : Bool) (found : Option DeviceRecord) (world : World) (t : Option String)
    (ps : Option (List String)) (r : DeviceRegistry)
    → IsRoster r.devices
    → IsRoster (persist_identity_if b found world t ps r).devices
persist_identity_if-IsRoster false found world t ps r v = v
persist_identity_if-IsRoster true none world t ps r v = v
persist_identity_if-IsRoster true (some d) world t ps r v = v

step-IsRoster : (op : Op) (r : DeviceRegistry) → IsRoster r.devices → IsRoster (step op r).devices
unfolding step persist_identity mark_offline_by_connection update_last_seen mark_all_offline clear
    lookup
step-IsRoster (registers w g) r v = register-IsRoster w g r v
step-IsRoster (registers_payload w d i c) r v = register_payload-IsRoster w d i c r v
step-IsRoster (persists w id t ps) r v =
    persist_identity_if-IsRoster r.has_store (lookup id r.devices) w t ps r v
step-IsRoster (restores d) r v = restore-IsRoster d r v
step-IsRoster (restores_all items) r v = restore_all-IsRoster items r v
step-IsRoster (marks w id c) r v = mark_offline-IsRoster w id c r v
step-IsRoster (closes w c) r v = mark_bound-IsRoster w c (find_by_connection c r) r v
step-IsRoster (sees now id) r v = seen_found-IsRoster now id (lookup id r.devices) r refl v
step-IsRoster (marks_all w) r v = mark_each-IsRoster w _ r v
step-IsRoster clears r v = record { distinct = tt; good = λ id d here. absurd cc }

run_from : (ops : List Op) (r : DeviceRegistry) → IsRoster r.devices → IsRoster (run ops r).devices
unfolding run
run_from [] r v = v
run_from (op ∷ ops) r v = run_from ops (step op r) (step-IsRoster op r v)

-- After any calls on a new registry no device stands twice, each record stands under its own id, and
-- a device that is offline has no connection.
pub run-IsRoster : (ops : List Op) (has_store : Bool) → IsRoster (run ops (init has_store)).devices
unfolding lookup
run-IsRoster ops has_store =
    run_from ops (init has_store) (record { distinct = tt; good = λ id d here. absurd cc })

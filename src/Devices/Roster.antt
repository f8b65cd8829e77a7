-- ===== src/Devices/Roster.antt =====
-- What every call of `DeviceRegistry` keeps: core/communication/devices.py.
use core_host.Base.{
  ◌≡◌, refl, sym, subst, Bool, true, false, String, Option, none, some, List, [], ◌∷◌, Result, ok,
  err, arith, ◌==◌, inl, inr, Bool-cases, eq_iff,
}
use core_host.Base.Dict.{Dict, lookup, insert, IsDistinct, insert-IsDistinct, lookup-insert}
use core_host.Data.Values.{Value}
use core_host.Devices.Payloads.{Fault, validate_registration_payload}
use core_host.Devices.Records.{
  Status, online, offline, DeviceRecord, DeviceRegistry, World, Registration, persist_record,
  persist_if, put,
}
use core_host.Devices.Registry.{
  payload_of, new_record, reconnected, register_over, register_found, register_valid, register,
  registration_of, register_payload_if, register_payload, restored, restore_over, restore_found,
  restore, restore_all,
}

-- A device that is offline has no connection.
abbrev pub IsUnboundIf : Status → Option String → Type 0
IsUnboundIf online c = Unit
IsUnboundIf offline c = c ≡ none

abbrev pub IsGood : String → DeviceRecord → Type 0
IsGood id d = (d.device_id ≡ id) × IsUnboundIf d.status d.connection_id

-- One record for a device, under its id.
pub record IsRoster (ds : Dict DeviceRecord) : Type 0 where
  pub distinct : IsDistinct ds
  pub good : (id : String) (d : DeviceRecord) → lookup id ds ≡ some d → IsGood id d

pub insert-IsRoster :
    (id : String) (d : DeviceRecord) (ds : Dict DeviceRecord)
    → IsGood id d
    → IsRoster ds
    → IsRoster (insert id d ds)
insert-IsRoster id d ds g v = record {
  distinct = insert-IsDistinct id d ds v.distinct;
  good = λ j e here. elim (Bool-cases (id == j)) [
    | inl same ↦
        let one : d ≡ e = ground (arith, lookup-insert id j d ds) in
        let two : id ≡ j = (eq_iff id j).0 same in
        subst (λ k. IsGood k e) two (subst (λ x. IsGood id x) one g)
    | inr other ↦ v.good j e (ground (arith, lookup-insert id j d ds))
  ];
}

persist-devices :
    (b : Bool) (world : World) (d : DeviceRecord) (r : DeviceRegistry)
    → (persist_if b world d r).devices ≡ r.devices
persist-devices false world d r = refl
persist-devices true world d r = refl

pub persist_record-devices :
    (world : World) (d : DeviceRecord) (r : DeviceRegistry)
    → (persist_record world d r).devices ≡ r.devices
persist_record-devices world d r = persist-devices r.has_store world d r

pub put-IsRoster :
    (world : World) (id : String) (d : DeviceRecord) (r : DeviceRegistry)
    → IsGood id d
    → IsRoster r.devices
    → IsRoster (persist_record world d (put id d r)).devices
put-IsRoster world id d r g v =
    subst (λ ds. IsRoster ds) (sym (persist_record-devices world d (put id d r)))
      (insert-IsRoster id d r.devices g v)

register_over-IsRoster :
    (s : Status) (world : World) (g : Registration) (d : DeviceRecord) (r : DeviceRegistry)
    → d.device_id ≡ g.device_id
    → IsRoster r.devices
    → IsRoster (register_over s world g d r).1.devices
register_over-IsRoster online world g d r own v = v
register_over-IsRoster offline world g d r own v =
    put-IsRoster world g.device_id (reconnected world g d) r (own, tt) v

register_found-IsRoster :
    (world : World) (g : Registration) (found : Option DeviceRecord) (r : DeviceRegistry)
    → lookup g.device_id r.devices ≡ found
    → IsRoster r.devices
    → IsRoster (register_found world g found r).1.devices
register_found-IsRoster world g none r here v =
    put-IsRoster world g.device_id (new_record world g) r (refl, tt) v
register_found-IsRoster world g (some d) r here v =
    register_over-IsRoster d.status world g d r (v.good g.device_id d here).0 v

register_valid-IsRoster :
    (check : Result Fault (Unit {0})) (world : World) (g : Registration) (r : DeviceRegistry)
    → IsRoster r.devices
    → IsRoster (register_valid check world g r).1.devices
register_valid-IsRoster (err f) world g r v = v
register_valid-IsRoster (ok u) world g r v =
    register_found-IsRoster world g (lookup g.device_id r.devices) r refl v

pub register-IsRoster :
    (world : World) (g : Registration) (r : DeviceRegistry)
    → IsRoster r.devices
    → IsRoster (register world g r).1.devices
unfolding register
register-IsRoster world g r v =
    register_valid-IsRoster (validate_registration_payload (payload_of g)) world g r v

register_payload_if-IsRoster :
    (check : Result Fault (Unit {0})) (world : World) (g : Registration) (r : DeviceRegistry)
    → IsRoster r.devices
    → IsRoster (register_payload_if check world g r).1.devices
register_payload_if-IsRoster (err f) world g r v = v
register_payload_if-IsRoster (ok u) world g r v = register-IsRoster world g r v

pub register_payload-IsRoster :
    (world : World) (d : Dict Value) (i c : Option String) (r : DeviceRegistry)
    → IsRoster r.devices
    → IsRoster (register_payload world d i c r).1.devices
unfolding register_payload
register_payload-IsRoster world d i c r v =
    register_payload_if-IsRoster (validate_registration_payload d) world (registration_of d i c) r v

restore_found-IsRoster :
    (found : Option DeviceRecord) (d : DeviceRecord) (r : DeviceRegistry)
    → IsRoster r.devices
    → IsRoster (restore_found found d r).1.devices
restore_found-IsRoster none d r v =
    insert-IsRoster d.device_id (restored d) r.devices (refl, refl) v
restore_found-IsRoster (some old) d r v = over old.status
  where
    over : (s : Status) → IsRoster (restore_over s old d r).1.devices
    over online = v
    over offline = insert-IsRoster d.device_id (restored d) r.devices (refl, refl) v

pub restore-IsRoster :
    (d : DeviceRecord) (r : DeviceRegistry) → IsRoster r.devices → IsRoster (restore d r).1.devices
unfolding restore
restore-IsRoster d r v = restore_found-IsRoster (lookup d.device_id r.devices) d r v

pub restore_all-IsRoster :
    (items : List (Option DeviceRecord)) (r : DeviceRegistry)
    → IsRoster r.devices
    → IsRoster (restore_all items r).1.devices
unfolding restore_all
restore_all-IsRoster [] r v = v
restore_all-IsRoster (none ∷ items) r v = restore_all-IsRoster items r v
restore_all-IsRoster (some d ∷ items) r v =
    restore_all-IsRoster items (restore d r).1 (restore-IsRoster d r v)

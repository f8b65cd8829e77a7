-- ===== src/Devices/Reconnect.antt =====
-- What one registration does, and a close that comes late: core/communication/devices.py.
use core_host.Base.{
  ◌≡◌, refl, sym, ap, ◌∙◌, subst, Bool, true, false, not, String, Option, none, some, Result, ok,
  err, arith, ◌==◌, inl, inr, Bool-cases, eq_iff, eq_refl,
}
use core_host.Base.Dict.{lookup, lookup-insert}
use core_host.Devices.Payloads.{Fault, validate_registration_payload}
use core_host.Devices.Records.{
  Status, online, offline, DeviceRecord, DeviceRegistry, World, Registration, put,
}
use core_host.Devices.Registry.{
  Registering, payload_of, new_record, reconnected, accept, register_over, register_found,
  register_valid, register,
}
use core_host.Devices.Presence.{
  is_bound_to, is_stale, gone, mark_unless, mark_found, mark_offline, find_by_connection,
  mark_bound, mark_offline_by_connection,
}
use core_host.Devices.Roster.{persist_record-devices}

-- Nobody is online under the id.
abbrev pub IsFree : Option DeviceRecord → Type 0
IsFree none = Unit
IsFree (some d) = d.status ≡ offline

-- What `register` may answer: an error and the registry as it was, or the record that is now there,
-- online and bound to the connection of the call, in place of none or of one that was offline.
abbrev pub IsOutcome : Registration → DeviceRegistry → Registering → Type 0
IsOutcome g r (err e, s) = s ≡ r
IsOutcome g r (ok d, s) =
    IsFree (lookup g.device_id r.devices)
    × (lookup g.device_id s.devices ≡ some d)
    × (d.status ≡ online)
    × (d.connection_id ≡ g.connection_id)
    × ((id : String) → (g.device_id == id) ≡ false → lookup id s.devices ≡ lookup id r.devices)

accept-IsOutcome :
    (world : World) (g : Registration) (d : DeviceRecord) (r : DeviceRegistry)
    → IsFree (lookup g.device_id r.devices)
    → d.status ≡ online
    → d.connection_id ≡ g.connection_id
    → IsOutcome g r (accept world g.device_id d r)
accept-IsOutcome world g d r free up bound =
    let e = persist_record-devices world d (put g.device_id d r) in
    (
      free,
      ap (lookup g.device_id) e
          ∙ ground (arith, lookup-insert g.device_id g.device_id d r.devices, eq_refl g.device_id),
      up,
      bound,
      λ id other. ap (lookup id) e ∙ ground (arith, lookup-insert g.device_id id d r.devices),
    )

register_over-IsOutcome :
    (s : Status) (world : World) (g : Registration) (d : DeviceRecord) (r : DeviceRegistry)
    → d.status ≡ s
    → lookup g.device_id r.devices ≡ some d
    → IsOutcome g r (register_over s world g d r)
register_over-IsOutcome online world g d r same here = refl
register_over-IsOutcome offline world g d r same here =
    accept-IsOutcome world g (reconnected world g d) r (subst (λ o. IsFree o) (sym here) same) refl
      refl

register_found-IsOutcome :
    (world : World) (g : Registration) (found : Option DeviceRecord) (r : DeviceRegistry)
    → lookup g.device_id r.devices ≡ found
    → IsOutcome g r (register_found world g found r)
register_found-IsOutcome world g none r here =
    accept-IsOutcome world g (new_record world g) r (subst (λ o. IsFree o) (sym here) tt) refl refl
register_found-IsOutcome world g (some d) r here =
    register_over-IsOutcome d.status world g d r refl here

register_valid-IsOutcome :
    (check : Result Fault (Unit {0})) (world : World) (g : Registration) (r : DeviceRegistry)
    → IsOutcome g r (register_valid check world g r)
register_valid-IsOutcome (err f) world g r = refl
register_valid-IsOutcome (ok u) world g r =
    register_found-IsOutcome world g (lookup g.device_id r.devices) r refl

-- `register` on every branch: it raises and changes nothing, or nobody was online under the id, the
-- record that it returns is now there, online and bound to the connection of the call, and every
-- other device is as it was.
pub register-IsOutcome :
    (world : World) (g : Registration) (r : DeviceRegistry) → IsOutcome g r (register world g r)
unfolding register
register-IsOutcome world g r =
    register_valid-IsOutcome (validate_registration_payload (payload_of g)) world g r

mark_stale :
    (world : World) (id : String) (c : String) (d : DeviceRecord) (found : Option DeviceRecord)
    (r : DeviceRegistry)
    → found ≡ some d
    → is_bound_to c d.connection_id ≡ false
    → (mark_found world id (some c) found r).1 ≡ r
mark_stale world id c d found r here other =
    subst (λ o. (mark_found world id (some c) o r).1 ≡ r) (sym here)
      (ap (λ b. (mark_unless (not b) world id d r).1) other)

mark_unless_other :
    (stale : Bool) (world : World) (j id : String) (d : DeviceRecord) (r : DeviceRegistry)
    → (j == id) ≡ false
    → lookup id (mark_unless stale world j d r).1.devices ≡ lookup id r.devices
mark_unless_other true world j id d r other = refl
mark_unless_other false world j id d r other =
    ap (lookup id) (persist_record-devices world (gone world d) (put j (gone world d) r))
    ∙ ground (arith, lookup-insert j id (gone world d) r.devices)

mark_other :
    (world : World) (j id : String) (c : String) (found : Option DeviceRecord) (r : DeviceRegistry)
    → (j == id) ≡ false
    → lookup id (mark_found world j (some c) found r).1.devices ≡ lookup id r.devices
mark_other world j id c none r other = refl
mark_other world j id c (some d) r other =
    mark_unless_other (is_stale (some c) d) world j id d r other

pub mark_offline_keeps :
    (world : World) (j id : String) (c : String) (d : DeviceRecord) (r : DeviceRegistry)
    → lookup id r.devices ≡ some d
    → is_bound_to c d.connection_id ≡ false
    → lookup id (mark_offline world j (some c) r).1.devices ≡ some d
unfolding mark_offline
mark_offline_keeps world j id c d r here other = elim (Bool-cases (j == id)) [
  | inl same ↦
      let there : lookup j r.devices ≡ some d =
        subst (λ k. lookup k r.devices ≡ some d) (sym ((eq_iff j id).0 same)) here in
      ap (λ s. lookup id s.devices) (mark_stale world j c d (lookup j r.devices) r there other)
      ∙ here
  | inr apart ↦ mark_other world j id c (lookup j r.devices) r apart ∙ here
]

mark_bound_keeps :
    (world : World) (id : String) (c : String) (d : DeviceRecord) (found : Option DeviceRecord)
    (r : DeviceRegistry)
    → lookup id r.devices ≡ some d
    → is_bound_to c d.connection_id ≡ false
    → lookup id (mark_bound world c found r).1.devices ≡ some d
mark_bound_keeps world id c d none r here other = here
mark_bound_keeps world id c d (some e) r here other =
    mark_offline_keeps world e.device_id id c d r here other

-- The close of a connection, under whatever id it finds, leaves a device as it is that is bound to
-- another connection.
pub close_keeps :
    (world : World) (id : String) (c : String) (d : DeviceRecord) (r : DeviceRegistry)
    → lookup id r.devices ≡ some d
    → is_bound_to c d.connection_id ≡ false
    → lookup id (mark_offline_by_connection world c r).1.devices ≡ some d
unfolding mark_offline_by_connection
close_keeps world id c d r here other =
    mark_bound_keeps world id c d (find_by_connection c r) r here other

-- A device that has just registered with one connection is still there, online and with that
-- connection, after the late close of another.
pub register-close :
    (world later : World) (g : Registration) (c : String) (d : DeviceRecord) (r s : DeviceRegistry)
    → register world g r ≡ (ok d, s)
    → is_bound_to c g.connection_id ≡ false
    → (lookup g.device_id (mark_offline_by_connection later c s).1.devices ≡ some d)
      × (d.status ≡ online)
      × (d.connection_id ≡ g.connection_id)
register-close world later g c d r s done other =
    let (_, here, up, bound, _) =
      subst (λ x. IsOutcome g r x) done (register-IsOutcome world g r) in
    (close_keeps later g.device_id c d s here (ap (is_bound_to c) bound ∙ other), up, bound)

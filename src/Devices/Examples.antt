-- ===== src/Devices/Examples.antt =====
-- A phone that registers with one connection and closes late with another.
use core_host.Base.{◌≡◌, refl, true, false, leb, ◌&&◌, none, some, [], ◌∷◌, ok}
use core_host.Base.Chars.{codes, strip, blank, is_space}
use core_host.Base.Dict.{lookup, has}
use core_host.Data.Values.{list, get_or}
use core_host.Base.Decimal.{int}
use core_host.Version.{is_supported, parse, split, among}
use core_host.Devices.Payloads.{validate_registration_payload}
use core_host.Devices.Names.{
  Table, has_double, replace_doubles, collapse, drop_edges, strip_edges, sanitize_join_part,
  derive_join_name,
}
use core_host.Devices.Label.{IsLabel, derive_join_name-IsLabel}
use core_host.Devices.Records.{online, DeviceRegistry, init, World, Registration}
use core_host.Devices.Registry.{Registering, new_record, register}
use core_host.Devices.Presence.{mark_offline_by_connection}
use core_host.Devices.Roster.{IsRoster}
use core_host.Devices.Run.{registers, closes, marks_all, run, run-IsRoster}
use core_host.Devices.Reconnect.{IsOutcome, register-IsOutcome, register-close}

-- The letters a to z and the digits.
abbrev ascii : Table
ascii c = elim (leb 97 c && leb c 122) [ true ↦ true | false ↦ leb 48 c && leb c 57 ]

abbrev world : World
world = record { alnum = ascii; now = 7; fetch_device = λ stored id. none }

abbrev phone : Registration
phone = record {
  device_id = "p1";
  device_name = "Phone";
  device_type = "phone";
  platform = "linux";
  capabilities = list 0;
  protocol_version = "0.3.0";
  identity_id = none;
  connection_id = some "c-2";
  join_name = none;
}

abbrev fresh : DeviceRegistry
fresh = init true

abbrev after : Registering
after = register world phone fresh

run-IsRoster_example :
    IsRoster (run (registers world phone ∷ closes world "c-1" ∷ marks_all world ∷ []) fresh).devices
run-IsRoster_example =
    run-IsRoster (registers world phone ∷ closes world "c-1" ∷ marks_all world ∷ []) true

register-IsOutcome_example : IsOutcome phone fresh after
register-IsOutcome_example = register-IsOutcome world phone fresh

join_name_p1 : derive_join_name ascii (codes "my  phone!") (codes "p1") ≡ codes "my-phone-p1"
unfolding derive_join_name sanitize_join_part strip_edges drop_edges collapse has_double
    replace_doubles strip is_space
join_name_p1 = refl

derive_join_name-IsLabel_example :
    IsLabel ascii (derive_join_name ascii (codes "my  phone!") (codes "p1"))
derive_join_name-IsLabel_example =
    derive_join_name-IsLabel ascii (codes "my  phone!") (codes "p1")
      (refl, (refl, (refl, (refl, (refl, (refl, tt))))))

-- The record that is kept.
phone-registers : register world phone fresh ≡ (ok (new_record world phone), after.1)
unfolding register validate_registration_payload lookup has blank strip is_space get_or is_supported
    parse split int among
phone-registers = refl

register-close_example :
    (lookup "p1" (mark_offline_by_connection world "c-1" after.1).1.devices
      ≡ some (new_record world phone))
    × ((new_record world phone).status ≡ online)
    × ((new_record world phone).connection_id ≡ phone.connection_id)
register-close_example =
    register-close world world phone "c-1" (new_record world phone) fresh after.1 phone-registers
      refl

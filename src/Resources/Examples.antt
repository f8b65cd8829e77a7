-- ===== src/Resources/Examples.antt =====
-- A phone that enters a registry with an empty organization engine.
use core_host.Base.{◌≡◌, refl, true, String, none, some, [], ok}
use core_host.Base.Chars.{blank, is_space}
use core_host.Base.Dict.{lookup, insert, has}
use core_host.Resources.Models.{Resource}
use core_host.Resources.Organization.{
  categorize_resource, validate_categorized_resource, validate_organization_entry,
}
use core_host.Data.Values.{text, null}
use core_host.Resources.Ingestion.{Fetched, stored, no_list, no_object}
use core_host.Resources.Registry.{ResourceRegistry, init, register, unregister}
use core_host.Resources.Registry.Registered.{unregister-register}

abbrev phone : Resource
phone = record {
  resource_id = "p1";
  name = "Phone";
  resource_type = "device";
  status = "offline";
  owner = none;
  source = none;
  capabilities = [];
  metadata = [];
  connection_info = [];
  last_seen = none;
  registered_at = 1;
}

abbrev registry : ResourceRegistry
registry = init (some (record { entries = [] }))

phone-register : register true phone registry ≡ (ok phone, (register true phone registry).1)
unfolding register categorize_resource validate_categorized_resource validate_organization_entry
    lookup insert has blank is_space
phone-register = refl

unregister-register_example :
    unregister "p1" (register true phone registry).1 ≡ (ok phone, registry)
unregister-register_example =
    unregister-register true phone registry (register true phone registry).1
      (unfold lookup in (refl, tt)) phone-register

-- The phone as it is stored.
abbrev fetch : String → Fetched
fetch id = stored (record {
  resource_id = text "p1";
  resource_type = text "device";
  name = text "Phone";
  owner = null;
  source = null;
  capabilities = no_list;
  metadata = no_object;
})

-- ===== src/Resources/Ingestion/Ingested.antt =====
-- What `ingest_resource` of core/organization/ingestion.py does to the registry.
use core_host.Base.{◌≢◌, ◌⊎◌, ℕ, ◌≡◌, false, String, Option, none, some, Result, ok, err, ◌==◌}
use core_host.Data.Values.{text}
use core_host.Base.Dict.{lookup}
use core_host.Resources.Models.{Resource}
use core_host.Resources.Registry.{ResourceRegistry, Call}
use core_host.Resources.Ingestion.{
  Stored, Fetched, raises, absent, stored, invalid_id, unavailable, resource_not_found,
  invalid_data, registry_failed, normalize_resource, Ingesting, no_registry, not_an_object,
  IngestionError,
}

-- Every other resource is as it was.
abbrev pub IsElsewhere : String → ResourceRegistry → ResourceRegistry → Type 0
IsElsewhere id g h = (j : String) → (id == j) ≡ false → lookup j h.resources ≡ lookup j g.resources

-- The resource has what is stored, and stands under the id.
abbrev pub HasTaken : Resource → Resource → ResourceRegistry → ResourceRegistry → Type 0
HasTaken n r g h =
    (lookup n.resource_id h.resources ≡ some r)
    × (r.name ≡ n.name)
    × (r.resource_type ≡ n.resource_type)
    × (r.capabilities ≡ n.capabilities)
    × (r.metadata ≡ n.metadata)
    × IsElsewhere n.resource_id g h

abbrev pub IsUpserted : Resource → ResourceRegistry → Ingesting → Type 0
IsUpserted n g (ok r, h) = HasTaken n r g h
IsUpserted n g (err (registry_failed e), h) = IsElsewhere n.resource_id g h
IsUpserted n g (err _, h) = ⊥

-- The engine does not change the resources.
abbrev IsCategorized : Resource → ResourceRegistry → Call → Type 0
IsCategorized r g (ok x, h) = (x ≡ r) × (h.resources ≡ g.resources)
IsCategorized r g (err e, h) = h.resources ≡ g.resources

-- The fields that a stored resource must have are texts that are not empty, and they are those of the
-- resource.
abbrev pub IsNormal : Stored → Resource → Type 0
IsNormal s n =
    (s.resource_id ≡ text n.resource_id)
    × (n.resource_id ≢ "")
    × (s.resource_type ≡ text n.resource_type)
    × (n.resource_type ≢ "")
    × (s.name ≡ text n.name)
    × (n.name ≢ "")

-- What is made of a stored value that is an object: an invalid one changes nothing.
abbrev pub IsTaken : ℕ → Stored → ResourceRegistry → Ingesting → Type 0
IsTaken now s g done =
    ((n : Resource) × (normalize_resource now s ≡ ok n) × IsNormal s n × IsUpserted n g done)
    ⊎ ((field : String) × (normalize_resource now s ≡ err field)
        × (done ≡ (err (invalid_data field), g)))

-- What is made of the answer of the adapter.
abbrev pub HasIngested : Fetched → ℕ → String → ResourceRegistry → Ingesting → Type 0
HasIngested raises now id g done = done ≡ (err (unavailable id), g)
HasIngested absent now id g (answer, h) =
    (answer ≡ err (resource_not_found id)) × (lookup id h.resources ≡ none) × IsElsewhere id g h
HasIngested not_an_object now id g done = done ≡ (err (invalid_data "resource"), g)
HasIngested (stored s) now id g done = IsTaken now s g done

abbrev pub HasUsed :
    Fetched
    → ℕ
    → String
    → Option ResourceRegistry
    → Result IngestionError Resource × Option ResourceRegistry
    → Type 0
HasUsed fetched now id none done = done ≡ (err no_registry, none)
HasUsed fetched now id (some g) (answer, none) = ⊥
HasUsed fetched now id (some g) (answer, some h) = HasIngested fetched now id g (answer, h)

abbrev pub IsIngested :
    (String → Fetched)
    → ℕ
    → String
    → Option ResourceRegistry
    → Result IngestionError Resource × Option ResourceRegistry
    → Type 0
IsIngested fetch now id g done =
    ((id ≡ "") × (done ≡ (err invalid_id, g))) ⊎ ((id ≢ "") × HasUsed (fetch id) now id g done)

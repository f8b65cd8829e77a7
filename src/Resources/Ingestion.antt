-- ===== src/Resources/Ingestion.antt =====
-- `ResourceIngestor.ingest_resource` of core/organization/ingestion.py. The engine of the ingestor is that
-- of the registry; what the adapter answers is an argument.
pub mod Ingested
use core_host.Base.{
  ℕ, Bool, true, false, String, Option, none, some, List, [], ◌∷◌, if◌then◌else◌, Result, ok, err,
  ◌>>=◌, ◌==◌,
}
use core_host.Base.Dict.{Dict, lookup}
use core_host.Data.Values.{Value, null, boolean, integer, text, real, list, object}
use core_host.Resources.Models.{Resource}
use core_host.Resources.Organization.{
  OrganizationEngine, OrganizationEntry, OrganizationError, categorize_resource,
}
use core_host.Resources.Registry.{
  ResourceRegistry, ResourceError, Update, organization_failed, register, unregister, update,
  categorize_with,
}

-- The values of two keys that are looked into.
pub data Listed : Type 0 where
  no_list : Listed
  texts : List String → Listed
  other_list : Listed

pub data Mapped : Type 0 where
  no_object : Mapped
  mapping : Dict (Option String) → Mapped
  other_object : Mapped

-- A stored resource; null where a key is absent.
pub record Stored : Type 0 where
  pub resource_id : Value
  pub resource_type : Value
  pub name : Value
  pub owner : Value
  pub source : Value
  pub capabilities : Listed
  pub metadata : Mapped

pub data IngestionError : Type 0 where
  invalid_id no_registry : IngestionError
  unavailable resource_not_found : String → IngestionError
  invalid_data : String → IngestionError
  registry_failed : ResourceError → IngestionError

-- What `fetch_resource` does.
pub data Fetched : Type 0 where
  raises absent not_an_object : Fetched
  stored : Stored → Fetched

-- `_require_non_empty_str`. An error is the field that is invalid.
abbrev pub require_value : String → Value → Result String String
require_value field (text s) = if s == "" then err field else ok s
require_value field _ = err field

-- `owner` and `source`
abbrev pub optional_value : String → Value → Result String (Option String)
optional_value field null = ok none
optional_value field (text s) = if s == "" then err field else ok (some s)
optional_value field _ = err field

abbrev pub listed_texts : Listed → Result String (List String)
listed_texts no_list = ok []
listed_texts (texts ts) = ok ts
listed_texts other_list = err "capabilities"

abbrev pub mapped_texts : Mapped → Result String (Dict (Option String))
mapped_texts no_object = ok []
mapped_texts (mapping d) = ok d
mapped_texts other_object = err "metadata"

-- `normalize_resource`
unfoldable pub normalize_resource : ℕ → Stored → Result String Resource
normalize_resource now s = do
  id ← require_value "resource_id" s.resource_id
  t ← require_value "resource_type" s.resource_type
  n ← require_value "name" s.name
  o ← optional_value "owner" s.owner
  w ← optional_value "source" s.source
  cs ← listed_texts s.capabilities
  m ← mapped_texts s.metadata
  ok (record {
    resource_id = id;
    name = n;
    resource_type = t;
    status = "offline";
    owner = o;
    source = w;
    capabilities = cs;
    metadata = m;
    connection_info = [];
    last_seen = none;
    registered_at = now;
  })

abbrev pub Ingesting : Type 0
Ingesting = Result IngestionError Resource × ResourceRegistry

abbrev pub registered : Result ResourceError Resource × ResourceRegistry → Ingesting
registered (ok r, g) = (ok r, g)
registered (err e, g) = (err (registry_failed e), g)

-- The arguments of `update` in `_upsert_normalized`. None leaves a field as it is.
abbrev pub fields_of : Resource → Update
fields_of n = record {
  name = some n.name;
  status = none;
  owner = n.owner;
  source = n.source;
  capabilities = some n.capabilities;
  metadata = some n.metadata;
  connection_info = none;
}

abbrev pub categorize_updated : Bool → Result ResourceError Resource × ResourceRegistry → Ingesting
categorize_updated organized (err e, g) = (err (registry_failed e), g)
categorize_updated organized (ok r, g) = registered (categorize_with organized g.organization r g)

abbrev pub upsert_same : Bool → Bool → Resource → ResourceRegistry → Ingesting
upsert_same true organized n g = categorize_updated organized (update n.resource_id (fields_of n) g)
upsert_same false organized n g = registered (register true n (unregister n.resource_id g).1)

abbrev pub upsert_found : Option Resource → Bool → Resource → ResourceRegistry → Ingesting
upsert_found none organized n g = registered (register true n g)
upsert_found (some old) organized n g =
    upsert_same (old.resource_type == n.resource_type) organized n g

-- `_upsert_normalized`
unfoldable pub upsert_normalized : Bool → Resource → ResourceRegistry → Ingesting
upsert_normalized organized n g = upsert_found (lookup n.resource_id g.resources) organized n g

abbrev pub ingest_normal : Result String Resource → Bool → ResourceRegistry → Ingesting
ingest_normal (err field) organized g = (err (invalid_data field), g)
ingest_normal (ok n) organized g = upsert_normalized organized n g

abbrev pub ingest_fetched : Fetched → ℕ → Bool → String → ResourceRegistry → Ingesting
ingest_fetched raises now organized id g = (err (unavailable id), g)
ingest_fetched absent now organized id g = (err (resource_not_found id), (unregister id g).1)
ingest_fetched not_an_object now organized id g = (err (invalid_data "resource"), g)
ingest_fetched (stored s) now organized id g = ingest_normal (normalize_resource now s) organized g

abbrev pub keep : Ingesting → Result IngestionError Resource × Option ResourceRegistry
keep (answer, g) = (answer, some g)

abbrev pub ingest_into :
    Option ResourceRegistry
    → (String → Fetched)
    → ℕ
    → Bool
    → String
    → Result IngestionError Resource × Option ResourceRegistry
ingest_into none fetch now organized id = (err no_registry, none)
ingest_into (some g) fetch now organized id = keep (ingest_fetched (fetch id) now organized id g)

-- There may be no registry.
unfoldable pub ingest_resource :
    (String → Fetched)
    → ℕ
    → Bool
    → String
    → Option ResourceRegistry
    → Result IngestionError Resource × Option ResourceRegistry
ingest_resource fetch now organized id g =
    if id == "" then (err invalid_id, g) else ingest_into g fetch now organized id

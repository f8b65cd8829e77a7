-- ===== src/Resources/Organization.antt =====
-- core/organization/models.py and `OrganizationEngine` of core/organization/engine.py, but for its
-- attached registry and ingestor.
use Prim.Native.String.{◌++◌ as ◌<>◌}
use core_host.Base.{
  ℕ, Bool, false, String, Option, none, some, List, [], ◌∷◌, length, select, or_else, if◌then◌else◌,
  Result, ok, err, ◌>>=◌, ◌==◌,
}
use core_host.Base.Chars.{codes, blank}
use core_host.Base.Dict.{Dict, lookup, insert, erase, has, values}
use core_host.Data.Values.{Value}
use core_host.Resources.Models.{Resource}

-- `build_organization_metadata` makes the first kind; any other dict is of the second.
pub record Description : Type 0 where
  pub resource_type : String
  pub owner : Option String
  pub source : Option String
  pub status : String
  pub capabilities : List String
  pub metadata : Dict (Option String)
  pub connection_info : Dict (Option String)

pub data Metadata : Type 0 where
  described : Description → Metadata
  plain : Dict Value → Metadata

pub record OrganizationEntry : Type 0 where
  pub entry_id : String
  pub category : String
  pub name : String
  pub resource_id : Option String
  pub metadata : Metadata

pub data OrganizationError : Type 0 where
  invalid already_exists not_found : String → OrganizationError

abbrev pub Check : Type 0
Check = Result OrganizationError (Unit {0})

-- `_require_non_empty_str`
abbrev pub require_text : String → String → Check
require_text field value = if blank (codes value) then err (invalid field) else ok tt

-- `_require_optional_resource_id`
abbrev pub require_optional : Option String → Check
require_optional none = ok tt
require_optional (some id) = require_text "resource_id" id

unfoldable pub validate_organization_entry : OrganizationEntry → Check
validate_organization_entry e = do
  a ← require_text "entry_id" e.entry_id
  b ← require_text "category" e.category
  c ← require_text "name" e.name
  require_optional e.resource_id

abbrev pub build_organization_metadata : Resource → Metadata
build_organization_metadata r = described (record {
  resource_type = r.resource_type;
  owner = r.owner;
  source = r.source;
  status = r.status;
  capabilities = r.capabilities;
  metadata = r.metadata;
  connection_info = r.connection_info;
})

-- `_validate_categorized_resource`
unfoldable pub validate_categorized_resource : Resource → Check
validate_categorized_resource r = do
  a ← require_text "resource.resource_id" r.resource_id
  b ← require_text "resource.resource_type" r.resource_type
  require_text "resource.name" r.name

pub record OrganizationEngine : Type 0 where
  pub entries : Dict OrganizationEntry

abbrev pub Call : Type 0
Call = Result OrganizationError OrganizationEntry × OrganizationEngine

abbrev pub put : OrganizationEntry → OrganizationEngine → OrganizationEngine
put e o = record o { entries = insert e.entry_id e o.entries }

abbrev pub add_if : Check → OrganizationEntry → OrganizationEngine → Call
add_if (err x) e o = (err x, o)
add_if (ok _) e o =
    if has e.entry_id o.entries then (err (already_exists e.entry_id), o) else (ok e, put e o)

unfoldable pub add : OrganizationEntry → OrganizationEngine → Call
add e o = add_if (validate_organization_entry e) e o

abbrev pub found_or : String → Option OrganizationEntry → Result OrganizationError OrganizationEntry
found_or id none = err (not_found id)
found_or id (some e) = ok e

unfoldable pub get : String → OrganizationEngine → Result OrganizationError OrganizationEntry
get id o = found_or id (lookup id o.entries)

abbrev pub remove_found : String → Option OrganizationEntry → OrganizationEngine → Call
remove_found id none o = (err (not_found id), o)
remove_found id (some e) o = (ok e, record o { entries = erase id o.entries })

unfoldable pub remove : String → OrganizationEngine → Call
remove id o = remove_found id (lookup id o.entries) o

unfoldable pub by_category : String → OrganizationEngine → List OrganizationEntry
by_category category o = select (λ e. e.category == category) (values o.entries)

-- `entry.resource_id == resource_id`
abbrev pub is_linked : String → Option String → Bool
is_linked id none = false
is_linked id (some other) = other == id

unfoldable pub by_resource : String → OrganizationEngine → List OrganizationEntry
by_resource id o = select (λ e. is_linked id e.resource_id) (values o.entries)

abbrev pub of_category : Option String → List OrganizationEntry → List OrganizationEntry
of_category none es = es
of_category (some category) es = select (λ e. e.category == category) es

abbrev pub of_resource : Option String → List OrganizationEntry → List OrganizationEntry
of_resource none es = es
of_resource (some id) es = select (λ e. is_linked id e.resource_id) es

unfoldable pub discover_entries :
    Option String → Option String → OrganizationEngine → List OrganizationEntry
discover_entries category id o = of_resource id (of_category category (values o.entries))

-- `f"resource:{resource.resource_id}"`
abbrev pub entry_id_for : String → String
entry_id_for id = "resource:" <> id

abbrev pub candidate : Resource → OrganizationEntry
candidate r = record {
  entry_id = entry_id_for r.resource_id;
  category = r.resource_type;
  name = r.name;
  resource_id = some r.resource_id;
  metadata = build_organization_metadata r;
}

-- An entry that is there takes all fields of the candidate but its id.
abbrev pub merged : Resource → Option OrganizationEntry → OrganizationEntry
merged r none = candidate r
merged r (some old) = record (candidate r) { entry_id = old.entry_id }

abbrev pub categorize_if : Check → Resource → OrganizationEngine → Call
categorize_if (err x) r o = (err x, o)
categorize_if (ok _) r o =
    let e = merged r (lookup (entry_id_for r.resource_id) o.entries) in
    (ok e, record o { entries = insert (entry_id_for r.resource_id) e o.entries })

unfoldable pub categorize_resource : Resource → OrganizationEngine → Call
categorize_resource r o =
    categorize_if
      (validate_categorized_resource r >>= (λ _. validate_organization_entry (candidate r))) r o

unfoldable pub drop_linked : String → Dict OrganizationEntry → Dict OrganizationEntry
drop_linked id [] = []
drop_linked id ((k, e) ∷ d) =
    let rest = drop_linked id d in if is_linked id e.resource_id then rest else (k, e) ∷ rest

unfoldable pub remove_resource : String → OrganizationEngine → OrganizationEngine
remove_resource id o = record o { entries = drop_linked id o.entries }

-- The arguments of `update`.
pub record Change : Type 0 where
  pub category : Option String
  pub name : Option String
  pub resource_id : Option String
  pub metadata : Option Metadata

abbrev pub require_given : String → Option String → Check
require_given field none = ok tt
require_given field (some value) = require_text field value

unfoldable pub validate_change : Change → Check
validate_change c = do
  a ← require_given "category" c.category
  b ← require_given "name" c.name
  require_given "resource_id" c.resource_id

abbrev pub or_kept : Option String → Option String → Option String
or_kept none old = old
or_kept (some id) old = some id

abbrev pub changed : Change → OrganizationEntry → OrganizationEntry
changed c e = record e {
  category = or_else c.category e.category;
  name = or_else c.name e.name;
  resource_id = or_kept c.resource_id e.resource_id;
  metadata = or_else c.metadata e.metadata;
}

abbrev pub update_if :
    Check → String → Option OrganizationEntry → Change → OrganizationEngine → Call
update_if (err x) id found c o = (err x, o)
update_if (ok _) id none c o = (err (not_found id), o)
update_if (ok _) id (some e) c o =
    (ok (changed c e), record o { entries = insert id (changed c e) o.entries })

unfoldable pub update_entry : String → Change → OrganizationEngine → Call
update_entry id c o = update_if (validate_change c) id (lookup id o.entries) c o

unfoldable pub count : OrganizationEngine → ℕ
count o = length o.entries

unfoldable pub clear : OrganizationEngine → OrganizationEngine
clear o = record o { entries = [] }

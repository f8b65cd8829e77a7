-- ===== src/Resources/Registry.antt =====
-- `ResourceRegistry` of core/resources/registry.py, with the organization engine that it may have.
pub mod Registered
use core_host.Base.{
  ℕ, Bool, true, false, String, Option, none, some, List, [], ◌∷◌, length, select, or_else, elem,
  if◌then◌else◌, Result, ok, err, ◌==◌,
}
use core_host.Base.Dict.{Dict, lookup, insert, erase, has, values}
use core_host.Resources.Models.{Resource}
use core_host.Resources.Organization.{
  OrganizationEngine, OrganizationEntry, OrganizationError, by_category, categorize_resource,
  remove_resource, clear, or_kept,
}

pub data ResourceError : Type 0 where
  resource_already_registered resource_not_found : String → ResourceError
  organization_failed : OrganizationError → ResourceError

pub record ResourceRegistry : Type 0 where
  pub resources : Dict Resource
  pub organization : Option OrganizationEngine

abbrev pub Call : Type 0
Call = Result ResourceError Resource × ResourceRegistry

-- `ResourceRegistry(organization)`
abbrev pub init : Option OrganizationEngine → ResourceRegistry
init o = record { resources = []; organization = o }

unfoldable pub attach_organization : OrganizationEngine → ResourceRegistry → ResourceRegistry
attach_organization o g = record g { organization = some o }

-- The resource is there already when the engine raises.
abbrev pub finish_register :
    Resource
    → Result OrganizationError OrganizationEntry × OrganizationEngine
    → ResourceRegistry
    → Call
finish_register r (ok e, o) g = (ok r, record g { organization = some o })
finish_register r (err x, o) g = (err (organization_failed x), record g { organization = some o })

abbrev pub categorize_with : Bool → Option OrganizationEngine → Resource → ResourceRegistry → Call
categorize_with false o r g = (ok r, g)
categorize_with true none r g = (ok r, g)
categorize_with true (some o) r g = finish_register r (categorize_resource r o) g

abbrev pub register_if : Bool → Bool → Resource → ResourceRegistry → Call
register_if true categorize r g = (err (resource_already_registered r.resource_id), g)
register_if false categorize r g =
    categorize_with categorize g.organization r
      (record g { resources = insert r.resource_id r g.resources })

unfoldable pub register : Bool → Resource → ResourceRegistry → Call
register categorize r g = register_if (has r.resource_id g.resources) categorize r g

abbrev pub forget_in : String → Option OrganizationEngine → Option OrganizationEngine
forget_in id none = none
forget_in id (some o) = some (remove_resource id o)

abbrev pub unregister_found : String → Option Resource → ResourceRegistry → Call
unregister_found id none g = (err (resource_not_found id), g)
unregister_found id (some r) g = (
  ok r,
  record g { resources = erase id g.resources; organization = forget_in id g.organization },
)

unfoldable pub unregister : String → ResourceRegistry → Call
unregister id g = unregister_found id (lookup id g.resources) g

-- The arguments of `update`.
pub record Update : Type 0 where
  pub name : Option String
  pub status : Option String
  pub owner : Option String
  pub source : Option String
  pub capabilities : Option (List String)
  pub metadata : Option (Dict (Option String))
  pub connection_info : Option (Dict (Option String))

abbrev pub updated : Update → Resource → Resource
updated u r = record r {
  name = or_else u.name r.name;
  status = or_else u.status r.status;
  owner = or_kept u.owner r.owner;
  source = or_kept u.source r.source;
  capabilities = or_else u.capabilities r.capabilities;
  metadata = or_else u.metadata r.metadata;
  connection_info = or_else u.connection_info r.connection_info;
}

-- A resource that is there changes in place.
abbrev pub change_found : (Resource → Resource) → String → Option Resource → ResourceRegistry → Call
change_found f id none g = (err (resource_not_found id), g)
change_found f id (some r) g = (ok (f r), record g { resources = insert id (f r) g.resources })

unfoldable pub update : String → Update → ResourceRegistry → Call
update id u g = change_found (updated u) id (lookup id g.resources) g

-- `Resource.mark_seen`
abbrev pub seen : ℕ → Resource → Resource
seen now r = record r { last_seen = some now; status = "online" }

unfoldable pub mark_seen : ℕ → String → ResourceRegistry → Call
mark_seen now id g = change_found (seen now) id (lookup id g.resources) g

abbrev pub of_type : Option String → List Resource → List Resource
of_type none rs = rs
of_type (some t) rs = select (λ r. r.resource_type == t) rs

abbrev pub of_status : Option String → List Resource → List Resource
of_status none rs = rs
of_status (some s) rs = select (λ r. r.status == s) rs

unfoldable pub list_filtered : Option String → Option String → ResourceRegistry → List Resource
list_filtered t s g = of_status s (of_type t (values g.resources))

abbrev pub is_owned : String → Option String → Bool
is_owned owner none = false
is_owned owner (some o) = o == owner

abbrev pub of_owner : Option String → List Resource → List Resource
of_owner none rs = rs
of_owner (some owner) rs = select (λ r. is_owned owner r.owner) rs

-- The ids of the resources that the entries link.
abbrev pub linked_ids : List OrganizationEntry → List String
linked_ids [] = []
linked_ids (e ∷ es) =
    let rest = linked_ids es in elim e.resource_id [ none ↦ rest | some id ↦ id ∷ rest ]

abbrev pub of_category : Option String → Option OrganizationEngine → List Resource → List Resource
of_category none o rs = rs
of_category (some c) none rs = []
of_category (some c) (some o) rs =
    select (λ r. elem r.resource_id (linked_ids (by_category c o))) rs

unfoldable pub discover :
    Option String → Option String → Option String → Option String → ResourceRegistry → List Resource
discover t s owner c g = of_category c g.organization (of_owner owner (list_filtered t s g))

unfoldable pub count : ResourceRegistry → ℕ
count g = length g.resources

abbrev pub clear_in : Option OrganizationEngine → Option OrganizationEngine
clear_in none = none
clear_in (some o) = some (core_host.Resources.Organization.clear o)

unfoldable pub clear_all : ResourceRegistry → ResourceRegistry
clear_all g = record g { resources = []; organization = clear_in g.organization }

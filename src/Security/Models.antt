-- ===== src/Security/Models.antt =====
-- core/security/models.py. A frozenset of permissions is a list of them, and a value of `metadata` is
-- a value or None.
use core_host.Base.Scalars.{Scalar}
use core_host.Base.{
  ℕ, Bool, true, false, ◌&&◌, ◌||◌, String, Option, List, [], ◌∷◌, Result, ok, err, if◌then◌else◌,
  ◌==◌,
}
use core_host.Base.Dict.{Dict}

pub data IdentityType : Type 0 where
  device service user : IdentityType

pub data Permission : Type 0 where
  read write execute admin : Permission

-- `ValueError`, for an empty identity_id or name
pub data IdentityError : Type 0 where
  empty_identity_id empty_name : IdentityError

pub record Identity : Type 0 where
  pub identity_id : String
  pub name : String
  pub identity_type : IdentityType
  pub permissions : List Permission
  pub metadata : Dict (Option Scalar)
  pub created_at : ℕ

-- `__post_init__`
unfoldable pub validate : Identity → Result IdentityError Identity
validate i =
    if i.identity_id == ""
    then err empty_identity_id
    else if i.name == ""
    then err empty_name
    else ok i

abbrev pub same_permission : Permission → Permission → Bool
same_permission read read = true
same_permission write write = true
same_permission execute execute = true
same_permission admin admin = true
same_permission _ _ = false

-- `permission in permissions`
unfoldable pub holds : Permission → List Permission → Bool
holds p [] = false
holds p (q ∷ qs) = same_permission q p || holds p qs

unfoldable pub has_permission : Identity → Permission → Bool
has_permission i p = holds p i.permissions

-- `has_any_permission` and `has_all_permissions`, on the permissions asked for
unfoldable pub has_any_permission : Identity → List Permission → Bool
has_any_permission i [] = false
has_any_permission i (p ∷ ps) = has_permission i p || has_any_permission i ps

unfoldable pub has_all_permissions : Identity → List Permission → Bool
has_all_permissions i [] = true
has_all_permissions i (p ∷ ps) = has_permission i p && has_all_permissions i ps

unfoldable pub with_permissions : Identity → List Permission → Result IdentityError Identity
unfolding validate
with_permissions i ps = validate (record i { permissions = ps })

unfoldable pub with_metadata : Identity → Dict (Option Scalar) → Result IdentityError Identity
unfolding validate
with_metadata i d = validate (record i { metadata = d })

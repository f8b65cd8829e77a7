-- ===== src/Security/Policy.antt =====
-- `SecurityPolicy` of core/security/policy.py, but for `__repr__`.
pub mod Required
use Prim.Native.Char.{code}
use core_host.Base.{
  ℕ, ◌+◌, Bool, true, false, ◌&&◌, ◌||◌, String, Option, none, some, List, [], ◌∷◌, length, or_else,
  num_eq, leb, if◌then◌else◌, Result, ok, err,
}
use core_host.Base.Chars.{is_space}
use core_host.Base.Dict.{Dict, lookup, insert, erase, keys}
use core_host.Base.Sorted.{sorted}
use core_host.Security.Models.{Permission}

pub data PolicyError : Type 0 where
  blank_service_id blank_operation : PolicyError

pub record SecurityPolicy : Type 0 where
  pub requirements : Dict (Dict Permission)
  pub enforced : Bool

-- `SecurityPolicy()`
abbrev pub init : SecurityPolicy
init = record { requirements = []; enforced = false }

-- `not text.strip()`
unfoldable pub is_blank : String → Bool
unfolding is_space
is_blank String.[] = true
is_blank (String.◌∷◌ c s) = is_space (code c) && is_blank s

-- `_validate`
unfoldable pub validate : String → String → Result PolicyError (Unit {0})
validate service operation =
    if is_blank service
    then err blank_service_id
    else if is_blank operation
    then err blank_operation
    else ok tt

unfoldable pub set_enforced : Bool → SecurityPolicy → SecurityPolicy
set_enforced on p = record p { enforced = on }

-- `self._requirements.get(service, {})`
abbrev pub operations_of : String → SecurityPolicy → Dict Permission
operations_of service p = or_else (lookup service p.requirements) []

abbrev pub Call : Type 0
Call = Result PolicyError (Unit {0}) × SecurityPolicy

abbrev pub grant_if :
    Result PolicyError (Unit {0}) → String → String → Permission → SecurityPolicy → Call
grant_if (err e) service operation permission p = (err e, p)
grant_if (ok _) service operation permission p = (
  ok tt,
  record p {
    requirements =
        insert service (insert operation permission (operations_of service p)) p.requirements;
  },
)

unfoldable pub grant : String → String → Permission → SecurityPolicy → Call
grant service operation permission p =
    grant_if (validate service operation) service operation permission p

-- A service that has no operation left is dropped.
abbrev pub keep_or_drop : String → Dict Permission → SecurityPolicy → SecurityPolicy
keep_or_drop service [] p = record p { requirements = erase service p.requirements }
keep_or_drop service (o ∷ os) p = record p { requirements = insert service (o ∷ os) p.requirements }

abbrev pub revoke_from :
    String → String → Option (Dict Permission) → SecurityPolicy → SecurityPolicy
revoke_from service operation none p = p
revoke_from service operation (some os) p = keep_or_drop service (erase operation os) p

abbrev pub revoke_if : Result PolicyError (Unit {0}) → String → String → SecurityPolicy → Call
revoke_if (err e) service operation p = (err e, p)
revoke_if (ok _) service operation p =
    (ok tt, revoke_from service operation (lookup service p.requirements) p)

unfoldable pub revoke : String → String → SecurityPolicy → Call
revoke service operation p = revoke_if (validate service operation) service operation p

abbrev pub required_if :
    Result PolicyError (Unit {0})
    → String
    → String
    → SecurityPolicy
    → Result PolicyError (Option Permission)
required_if (err e) service operation p = err e
required_if (ok _) service operation p = ok (lookup operation (operations_of service p))

unfoldable pub required : String → String → SecurityPolicy → Result PolicyError (Option Permission)
required service operation p = required_if (validate service operation) service operation p

unfoldable pub services : SecurityPolicy → List String
services p = sorted (keys p.requirements)

abbrev pub total : Dict (Dict Permission) → ℕ
total [] = 0
total ((service, os) ∷ d) = length os + total d

unfoldable pub count : SecurityPolicy → ℕ
count p = total p.requirements

unfoldable pub clear : SecurityPolicy → SecurityPolicy
clear p = record p { requirements = [] }

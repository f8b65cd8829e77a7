-- ===== src/Security/Provider.antt =====
-- core/security/provider.py. A credential is a value or None.
use core_host.Base.Scalars.{Scalar, str_of, same_chars}
use core_host.Base.{Bool, true, false, String, Option, none, some, List, [], ◌∷◌}
use core_host.Base.Dict.{Dict, lookup}
use core_host.Security.Models.{Identity}

-- What a call of `authenticate` does: it returns a value that is true or not, or raises.
pub data Answer : Type 0 where
  accepts rejects : Answer
  raises_type_error raises_authentication_error raises_other : Answer
  raises_identity_not_found : String → Answer

-- A provider: its answers to an identity with a credential, and to an identity alone.
pub record Provider : Type 0 where
  pub authenticate : Identity → Option Scalar → Answer
  pub authenticate_alone : Identity → Answer

abbrev pub answer : Bool → Answer
answer true = accepts
answer false = rejects

-- `ExistenceAuthenticationProvider`; called with one argument, it raises a TypeError.
abbrev pub existence : Provider
existence = record { authenticate = λ i c. accepts; authenticate_alone = λ i. raises_type_error }

-- The value of the first key that is there.
unfoldable pub first_of : List String → Dict (Option Scalar) → Option Scalar
first_of [] d = none
first_of (k ∷ ks) d = elim (lookup k d) [ none ↦ first_of ks d | some v ↦ v ]

abbrev pub token_keys : List String
token_keys = "token" ∷ "credential" ∷ "api_token" ∷ "password" ∷ []

abbrev pub matches : Bool → Option Scalar → Option Scalar → Bool
matches allow none credential = allow
matches allow (some expected) none = false
matches allow (some expected) (some c) = same_chars (str_of c) (str_of expected)

-- `TokenAuthenticationProvider(allow)`
unfoldable pub token_authenticate : Bool → Identity → Option Scalar → Bool
token_authenticate allow i credential = matches allow (first_of token_keys i.metadata) credential

abbrev pub token : Bool → Provider
token allow = record {
  authenticate = λ i c. answer (token_authenticate allow i c);
  authenticate_alone = λ i. raises_type_error;
}

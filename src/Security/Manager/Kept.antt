-- ===== src/Security/Manager/Kept.antt =====
-- What `authenticate` of core/security/manager.py leaves as it was.
use core_host.Base.Scalars.{Scalar}
use core_host.Base.{◌+◌, ◌≡◌, refl, Bool, true, false, String, Option, ok, err, Result}
use core_host.Security.Models.{Identity}
use core_host.Security.Provider.{
  Answer, accepts, rejects, raises_type_error, raises_identity_not_found,
  raises_authentication_error, raises_other,
}
use core_host.Security.Manager.{
  SecurityManager, SecurityError, finish_authentication, authenticate_got, authenticate_if,
  authenticate, get_identity, ask_again, emit_event,
}

finish_keeps :
    (id : String) (i : Identity) (a : Answer) (m : SecurityManager)
    → (finish_authentication id i a m).1.identities ≡ m.identities
unfolding emit_event
finish_keeps id i accepts m = refl
finish_keeps id i rejects m = refl
finish_keeps id i raises_type_error m = refl
finish_keeps id i raises_authentication_error m = refl
finish_keeps id i raises_other m = refl
finish_keeps id i (raises_identity_not_found x) m = refl

got_keeps :
    (id : String) (c : Option Scalar) (r : Result SecurityError Identity) (m : SecurityManager)
    → (authenticate_got id c r m).1.identities ≡ m.identities
unfolding emit_event
got_keeps id c (err e) m = refl
got_keeps id c (ok i) m = finish_keeps id i (ask_again m.provider i (m.provider.authenticate i c)) m

if_keeps :
    (active : Bool) (id : String) (c : Option Scalar) (m : SecurityManager)
    → (authenticate_if active id c m).1.identities ≡ m.identities
if_keeps false id c m = refl
if_keeps true id c m =
    got_keeps id c (get_identity id m)
      (record m { authentication_count = m.authentication_count + 1 })

pub authenticate_keeps :
    (id : String) (c : Option Scalar) (m : SecurityManager)
    → (authenticate id c m).1.identities ≡ m.identities
unfolding authenticate
authenticate_keeps id c m = if_keeps m.active id c m

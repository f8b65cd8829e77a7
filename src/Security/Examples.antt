-- ===== src/Security/Examples.antt =====
-- An operator with a token and two permissions, and a policy for one service.
use core_host.Base.Scalars.{word, str_of, same_chars}
use core_host.Base.{
  ◌≡◌, refl, true, false, none, some, List, [], ◌∷◌, ok, ◌↔◌, if◌then◌else◌, ◌&&◌, ◌==◌,
}
use core_host.Base.Chars.{is_space}
use core_host.Base.Dict.{lookup, insert, erase, has}
use core_host.Security.Models.{Identity, read, write, user, holds, has_permission}
use core_host.Security.Provider.{token, token_keys, first_of, token_authenticate}
use core_host.Security.Manager.{
  SecurityManager, Op, init, start, stop, emit_event, register_event_handler,
  unregister_event_handler, set_provider, register_identity, unregister_identity, authenticate,
  authorize, reset_metrics, clear, listens, registers, authenticates, authorizes, member, remove,
  step, run,
}
use core_host.Security.Manager.Outcomes.{
  IsRegistered, Accepts, PrintAlike, authenticate_passes, authenticate_closed, authorize_passes,
}
use core_host.Security.Manager.Counts.{IsSound, run-IsSound}
use core_host.Security.Policy.{SecurityPolicy, validate, is_blank, grant, revoke, required}
use core_host.Security.Policy.Required.{required_lem}

abbrev operator : Identity
operator = record {
  identity_id = "op-1";
  name = "Operator";
  identity_type = user;
  permissions = read ∷ write ∷ [];
  metadata = ("site", some (word "lab")) ∷ ("token", some (word "s3cret")) ∷ [];
  created_at = 0;
}

abbrev script : List Op
script =
    listens 1
    ∷ registers operator
    ∷ authenticates "op-1" (some (word "wrong"))
    ∷ authorizes "op-1" read
    ∷ []

abbrev manager : SecurityManager
manager = record (init (some (token false))) {
  identities = ("op-1", operator) ∷ [];
  event_handlers = 1 ∷ [];
}

accepted : (authenticate "op-1" (some (word "s3cret")) manager).0 ≡ ok operator
unfolding authenticate token_authenticate first_of lookup same_chars str_of
accepted = refl

-- The wrong token was counted as a failure.
run-script : (run script (init (some (token false)))).authentication_failures ≡ 1
unfolding run step start stop emit_event register_event_handler unregister_event_handler
    set_provider register_identity unregister_identity authenticate authorize reset_metrics clear
    lookup insert erase has member remove token_authenticate first_of same_chars str_of holds
    has_permission
run-script = refl

authenticate_passes_example :
    (manager.active ≡ true)
    × IsRegistered "op-1" operator manager
    × Accepts manager.provider operator (some (word "s3cret"))
authenticate_passes_example =
    authenticate_passes "op-1" (some (word "s3cret")) manager operator accepted

authenticate_closed_example :
    PrintAlike (first_of token_keys operator.metadata) (some (word "s3cret"))
authenticate_closed_example =
    authenticate_closed "op-1" (some (word "s3cret")) manager operator refl accepted

authorize_passes_example : ((authorize "op-1" write manager).0 ≡ ok true) ↔ (
    (manager.active ≡ true)
    × (true ≡ true)
    × ((i : Identity) × IsRegistered "op-1" i manager × (has_permission i write ≡ true)))
authorize_passes_example = authorize_passes "op-1" write manager true

run-IsSound_example : IsSound (run script (init (some (token false))))
run-IsSound_example = run-IsSound (some (token false)) script

abbrev policy : SecurityPolicy
policy = record { requirements = ("data", ("read", read) ∷ []) ∷ []; enforced = true }

data_read : validate "data" "read" ≡ ok tt
unfolding validate is_blank is_space
data_read = refl

data_write : validate "data" "write" ≡ ok tt
unfolding validate is_blank is_space
data_write = refl

required_lem_example :
    (required "data" "read" (grant "data" "write" write policy).1 ≡ (
      if "data" == "data" && "write" == "read"
      then ok (some write)
      else required "data" "read" policy))
    × (required "data" "read" (revoke "data" "write" policy).1 ≡ (
        if "data" == "data" && "write" == "read" then ok none else required "data" "read" policy))
required_lem_example = required_lem "data" "write" "data" "read" write policy data_write data_read

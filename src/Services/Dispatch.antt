-- ===== src/Services/Dispatch.antt =====
-- `ServiceDispatcher` of core/services/dispatch.py. The emitter does not raise.
pub mod Guarded
pub mod Answered
use Prim.Native.Char.{code}
use core_host.Base.{
  ℕ, ◌+◌, Bool, true, false, ◌||◌, String, Option, none, some, List, [], ◌∷◌, ◌++◌, elem,
  if◌then◌else◌, Result, ok, err, ◌==◌,
}
use core_host.Base.Dict.{Dict, lookup, has}
use core_host.Data.Values.{Value, null, boolean, integer, text, real, list, object}
use core_host.Communication.Messages.{Message}
use core_host.Security.Models.{Permission}
use core_host.Security.Provider.{first_of}
use core_host.Security.Manager.{SecurityManager, SecurityError, authenticate, authorize}
use core_host.Security.Policy.{SecurityPolicy, PolicyError, required}
use core_host.Services.Manager.{
  ServiceManager, ServiceError, World, Arguments, bad_arguments, execute,
}
use core_host.Services.Requests.{
  Reason, Reply, ServiceDispatcher, ServiceRequest, ServiceResponse, credential_keys, emit, failure,
  reply_id, service_id_for, success_of, to_message, to_request, service_executed, service_failed,
  security_access_denied, denied, authentication_required, nothing, no_operation, execution_failed,
  as_it_is, wrapped,
}

-- The keywords of the call would bind a parameter of `execute` twice.
abbrev pub clashes : Arguments → Bool
clashes args = has "self" args || has "service_id" args || has "operation" args

abbrev pub execute_unless :
    Bool → World → ServiceRequest → ServiceManager → Result ServiceError Value × ServiceManager
execute_unless true world q m = (err (bad_arguments q.operation), m)
execute_unless false world q m = execute world q.service_id q.operation q.payload m

abbrev pub respond :
    ServiceRequest
    → Result ServiceError Value × ServiceManager
    → ServiceDispatcher
    → ServiceResponse × ServiceDispatcher
respond q (ok v, m) d =
    (success_of q v, emit (service_executed q.service_id q.operation) (record d { services = m }))
respond q (err e, m) d = (
  failure q (execution_failed e),
  emit (service_failed q.service_id q.operation e) (record d { services = m }),
)

unfoldable pub dispatch :
    World → ServiceRequest → ServiceDispatcher → ServiceResponse × ServiceDispatcher
dispatch world q d = respond q (execute_unless (clashes q.payload) world q d.services) d

-- `_deny`
abbrev pub deny :
    ServiceRequest → Message → Reason → ServiceDispatcher → Option Reply × ServiceDispatcher
deny q m reason d = (
  some (to_message m (failure q reason)),
  emit (security_access_denied q.service_id q.operation m.identity_id reason) d,
)

abbrev pub authorize_then :
    ServiceRequest
    → Message
    → Result SecurityError Bool × SecurityManager
    → ServiceDispatcher
    → Option Reply × ServiceDispatcher
authorize_then q m (ok b, s) d = (none, record d { security = some s })
authorize_then q m (err e, s) d = deny q m (denied e) (record d { security = some s })

abbrev pub authenticate_then {ℓ} :
    {A : Type ℓ}
    → ServiceRequest
    → Message
    → String
    → Permission
    → Result SecurityError A × SecurityManager
    → ServiceDispatcher
    → Option Reply × ServiceDispatcher
authenticate_then q m id p (ok i, s) d = authorize_then q m (authorize id p s) d
authenticate_then q m id p (err e, s) d = deny q m (denied e) (record d { security = some s })

abbrev pub enforce_identity :
    Bool
    → String
    → ServiceRequest
    → Message
    → Permission
    → SecurityManager
    → ServiceDispatcher
    → Option Reply × ServiceDispatcher
enforce_identity true id q m p s d = deny q m (authentication_required q.operation) d
enforce_identity false id q m p s d =
    authenticate_then q m id p (authenticate id (first_of credential_keys m.payload) s) d

abbrev pub enforce_required :
    ServiceRequest
    → Message
    → Permission
    → SecurityManager
    → ServiceDispatcher
    → Option String
    → Option Reply × ServiceDispatcher
enforce_required q m p s d none = deny q m (authentication_required q.operation) d
enforce_required q m p s d (some id) = enforce_identity (id == "") id q m p s d

abbrev pub Enforcing : Type 0
Enforcing = Result PolicyError (Option Reply) × ServiceDispatcher

abbrev pub enforce_got :
    Result PolicyError (Option Permission)
    → ServiceRequest
    → Message
    → SecurityManager
    → ServiceDispatcher
    → Enforcing
enforce_got (err e) q m s d = (err e, d)
enforce_got (ok none) q m s d = (ok none, d)
enforce_got (ok (some p)) q m s d =
    let (reply, d') = enforce_required q m p s d m.identity_id in (ok reply, d')

-- `_enforce`
unfoldable pub enforce :
    ServiceRequest → Message → SecurityManager → SecurityPolicy → ServiceDispatcher → Enforcing
enforce q m s p d = enforce_got (required q.service_id q.operation p) q m s d

abbrev pub enforce_if :
    Bool
    → ServiceRequest
    → Message
    → SecurityManager
    → SecurityPolicy
    → ServiceDispatcher
    → Enforcing
enforce_if false q m s p d = (ok none, d)
enforce_if true q m s p d = enforce q m s p d

-- `_enforcement_active`, and `_enforce` if it is
abbrev pub enforce_active :
    Option SecurityManager
    → Option SecurityPolicy
    → ServiceRequest
    → Message
    → ServiceDispatcher
    → Enforcing
enforce_active none p q m d = (ok none, d)
enforce_active (some s) none q m d = (ok none, d)
enforce_active (some s) (some p) q m d = enforce_if p.enforced q m s p d

abbrev pub Handling : Type 0
Handling = Result PolicyError Reply × ServiceDispatcher

abbrev pub reply_with : Message → ServiceResponse × ServiceDispatcher → Handling
reply_with m (response, d) = (ok (to_message m response), d)

abbrev pub dispatch_unless : World → ServiceRequest → Message → Enforcing → Handling
dispatch_unless world q m (err e, d) = (err e, d)
dispatch_unless world q m (ok (some reply), d) = (ok reply, d)
dispatch_unless world q m (ok none, d) = reply_with m (dispatch world q d)

abbrev pub no_request : Message → Reply
no_request m = to_message m (record {
  service_id = service_id_for m.destination;
  operation = "";
  payload = nothing;
  success = false;
  request_id = reply_id m;
  error = some no_operation;
})

abbrev pub handle_request : World → Option ServiceRequest → Message → ServiceDispatcher → Handling
handle_request world none m d = (ok (no_request m), d)
handle_request world (some q) m d =
    dispatch_unless world q m (enforce_active d.security d.policy q m d)

-- An exception of the policy is not caught.
unfoldable pub handle : World → Message → ServiceDispatcher → Handling
handle world m d = handle_request world (to_request m) m d

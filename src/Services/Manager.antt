-- ===== src/Services/Manager.antt =====
-- core/services/models.py, and `ServiceManager` of core/services/manager.py but for `start`, `stop`,
-- `restart` and `unregister`. An operation handler is the identity of a function, which does not use
-- the manager while it is called.
use core_host.Base.Scalars.{Scalar}
use core_host.Base.{
  ℕ, Bool, true, false, String, Option, none, some, List, [], ◌∷◌, ◌++◌, length, or_else,
  if◌then◌else◌, Result, ok, err, ◌==◌,
}
use core_host.Base.Dict.{Dict, lookup, insert, erase, has, keys}
use core_host.Data.Values.{Value}

pub data ServiceStatus : Type 0 where
  registered initializing stopped starting running stopping failed : ServiceStatus

pub data Health : Type 0 where
  unknown healthy unhealthy : Health

-- The configuration is left out.
pub record Service : Type 0 where
  pub service_id : String
  pub name : String
  pub version : String
  pub dependencies : List String
  pub startup_priority : ℕ
  pub status : ServiceStatus
  pub health : Health

pub data ServiceError : Type 0 where
  service_already_registered service_not_found service_not_running : String → ServiceError
  operation_not_found : String → String → ServiceError
  empty_operation : ServiceError
  bad_arguments : String → ServiceError
  handler_failed : String → ServiceError

abbrev pub Handler : Type 0
Handler = ℕ

-- The arguments of an operation, by name.
abbrev pub Arguments : Type 0
Arguments = Dict (Option Scalar)

-- `calls` is no field of the program: the calls of operation handlers, in order.
pub record ServiceManager : Type 0 where
  pub services : Dict Service
  pub handlers : Dict (Dict Handler)
  pub calls : List (Handler × Arguments)

-- What a handler does.
pub data Done : Type 0 where
  returns : Value → Done
  raises : String → Done

-- What each handler does when it is called after the calls so far.
abbrev pub World : Type 0
World = List (Handler × Arguments) → Handler → Arguments → Done

-- `ServiceManager()`
abbrev pub init : ServiceManager
init = record { services = []; handlers = []; calls = [] }

abbrev pub Call : Type 0 → Type 0
Call A = Result ServiceError A × ServiceManager

abbrev pub register_if : Bool → Service → ServiceManager → Call Service
register_if true s m = (err (service_already_registered s.service_id), m)
register_if false s m = (
  ok s,
  record m {
    services = insert s.service_id s m.services;
    handlers = insert s.service_id [] m.handlers;
  },
)

unfoldable pub register : Service → ServiceManager → Call Service
register s m = register_if (has s.service_id m.services) s m

-- The record of a service changes in place.
abbrev pub change : String → Service → ServiceManager → ServiceManager
change id s m = record m { services = insert id s m.services }

-- `initialize`, of a service that is there
abbrev pub initialized : ServiceStatus → Service → Service
initialized running s = s
initialized _ s = record s { status = stopped }

abbrev pub initialize_found : String → Option Service → ServiceManager → Call Service
initialize_found id none m = (err (service_not_found id), m)
initialize_found id (some s) m = (ok (initialized s.status s), change id (initialized s.status s) m)

unfoldable pub initialize : String → ServiceManager → Call Service
initialize id m = initialize_found id (lookup id m.services) m

abbrev pub health_of : ServiceStatus → Health
health_of running = healthy
health_of _ = unhealthy

abbrev pub health_found : String → Option Service → ServiceManager → Call Health
health_found id none m = (err (service_not_found id), m)
health_found id (some s) m =
    (ok (health_of s.status), change id (record s { health = health_of s.status }) m)

unfoldable pub health_check : String → ServiceManager → Call Health
health_check id m = health_found id (lookup id m.services) m

-- `self._handlers.get(service_id, {})`
abbrev pub handlers_of : String → ServiceManager → Dict Handler
handlers_of id m = or_else (lookup id m.handlers) []

abbrev pub handler_if : Bool → String → String → Handler → ServiceManager → Call (Unit {0})
handler_if false id operation h m = (err (service_not_found id), m)
handler_if true id operation h m =
    (ok tt, record m { handlers = insert id (insert operation h (handlers_of id m)) m.handlers })

unfoldable pub register_handler : String → String → Handler → ServiceManager → Call (Unit {0})
register_handler id operation h m =
    if operation == ""
    then (err empty_operation, m)
    else handler_if (has id m.services) id operation h m

abbrev pub unhandle_found :
    String → String → Option (Dict Handler) → ServiceManager → ServiceManager
unhandle_found id operation none m = m
unhandle_found id operation (some hs) m = record m {
  handlers = insert id (erase operation hs) m.handlers;
}

unfoldable pub unregister_handler : String → String → ServiceManager → Call (Unit {0})
unregister_handler id operation m =
    if has id m.services
    then (ok tt, unhandle_found id operation (lookup id m.handlers) m)
    else (err (service_not_found id), m)

unfoldable pub list_operations : String → ServiceManager → Result ServiceError (List String)
list_operations id m =
    if has id m.services then ok (keys (handlers_of id m)) else err (service_not_found id)

-- What follows the handler. A service whose handler raised has failed.
abbrev pub finish_call : Done → String → Service → ServiceManager → Call Value
finish_call (returns v) id s m = (ok v, m)
finish_call (raises e) id s m =
    (err (handler_failed e), change id (record s { status = failed; health = unhealthy }) m)

abbrev pub call_handler :
    World → Option Handler → String → String → Arguments → Service → ServiceManager → Call Value
call_handler world none id operation args s m = (err (operation_not_found id operation), m)
call_handler world (some h) id operation args s m =
    finish_call (world m.calls h args) id s (record m { calls = m.calls ++ (h, args) ∷ [] })

abbrev pub execute_running :
    ServiceStatus → World → String → String → Arguments → Service → ServiceManager → Call Value
execute_running running world id operation args s m =
    call_handler world (lookup operation (handlers_of id m)) id operation args s m
execute_running _ world id operation args s m = (err (service_not_running id), m)

abbrev pub execute_found :
    Option Service → World → String → String → Arguments → ServiceManager → Call Value
execute_found none world id operation args m = (err (service_not_found id), m)
execute_found (some s) world id operation args m =
    execute_running s.status world id operation args s m

unfoldable pub execute : World → String → String → Arguments → ServiceManager → Call Value
execute world id operation args m = execute_found (lookup id m.services) world id operation args m

unfoldable pub count : ServiceManager → ℕ
count m = length m.services

unfoldable pub clear : ServiceManager → ServiceManager
clear m = record m { services = []; handlers = [] }

-- ===== src/Services/Dispatch/Answered.antt =====
-- What `dispatch` of core/services/dispatch.py does with a request.
use core_host.Base.{◌≡◌, true, false, String, none, some, [], ◌∷◌, ◌++◌, ◌⊎◌, ◌==◌}
use core_host.Base.Dict.{lookup, has}
use core_host.Data.Values.{Value, object}
use core_host.Services.Manager.{
  running, failed, unhealthy, Service, Handler, ServiceManager, returns, raises, World, Call,
  handlers_of, handler_failed, Arguments,
}
use core_host.Services.Requests.{
  ServiceRequest, ServiceResponse, ServiceDispatcher, Payload, nothing, as_it_is, wrapped,
  execution_failed,
}
use core_host.Services.Dispatch.{respond}

-- No argument has the name of a parameter of `execute`.
abbrev pub IsFree : Arguments → Type 0
IsFree args =
    (has "self" args ≡ false) × (has "service_id" args ≡ false) × (has "operation" args ≡ false)

-- What is handed back for a result: an object as it is, and any other value wrapped.
abbrev pub IsPayload : Value → Payload → Type 0
IsPayload (object n) p = p ≡ as_it_is n
IsPayload v p = p ≡ wrapped v

-- A success for the request with the result, or an error with its reason.
abbrev pub IsSuccess : ServiceRequest → Value → ServiceResponse → Type 0
IsSuccess q v r =
    (r.success ≡ true)
    × (r.error ≡ none)
    × IsPayload v r.payload
    × (r.service_id ≡ q.service_id)
    × (r.operation ≡ q.operation)
    × (r.request_id ≡ q.request_id)

abbrev pub IsFailure : ServiceRequest → ServiceResponse → Type 0
IsFailure q r =
    (r.success ≡ false)
    × (r.payload ≡ nothing)
    × (r.service_id ≡ q.service_id)
    × (r.operation ≡ q.operation)
    × (r.request_id ≡ q.request_id)

-- A running service has the handler for the operation, and its call can be made.
abbrev pub CanRun : ServiceRequest → ServiceManager → Handler → Type 0
CanRun q m h =
    (s : Service) × IsFree q.payload
    × (lookup q.service_id m.services ≡ some s)
    × (s.status ≡ running)
    × (lookup q.operation (handlers_of q.service_id m) ≡ some h)

-- The handler was called once and returned: only the call is new.
abbrev pub HasRun :
    World → ServiceRequest → ServiceManager → ServiceResponse × ServiceManager → Type 0
HasRun world q m (r, n) =
    (h : Handler) × (v : Value) × CanRun q m h
    × (world m.calls h q.payload ≡ returns v)
    × IsSuccess q v r
    × (n ≡ record m { calls = m.calls ++ (h, q.payload) ∷ [] })

-- The handler was called once and raised: its service has failed, and every other is as it was.
abbrev pub HasFailed :
    World → ServiceRequest → ServiceManager → ServiceResponse × ServiceManager → Type 0
HasFailed world q m (r, n) =
    (h : Handler) × (x : String) × (s : Service) × CanRun q m h
    × (world m.calls h q.payload ≡ raises x)
    × IsFailure q r
    × (r.error ≡ some (execution_failed (handler_failed x)))
    × (n.calls ≡ m.calls ++ (h, q.payload) ∷ [])
    × (lookup q.service_id n.services ≡ some (record s { status = failed; health = unhealthy }))
    × ((id : String) → (q.service_id == id) ≡ false → lookup id n.services ≡ lookup id m.services)

-- There is no handler to call, and nothing has changed.
abbrev pub IsIdle : ServiceRequest → ServiceManager → ServiceResponse × ServiceManager → Type 0
IsIdle q m (r, n) = IsFailure q r × (n ≡ m) × ((h : Handler) → ¬ CanRun q m h)

abbrev pub IsDispatched :
    World → ServiceRequest → ServiceManager → ServiceResponse × ServiceManager → Type 0
IsDispatched world q m done = HasRun world q m done ⊎ HasFailed world q m done ⊎ IsIdle q m done

abbrev pub answered : ServiceResponse × ServiceDispatcher → ServiceResponse × ServiceManager
answered (r, d) = (r, d.services)

module _ (world : World) (q : ServiceRequest) (d : ServiceDispatcher) where
  abbrev Good : Call Value → Type 0
  Good call = IsDispatched world q d.services (answered (respond q call d))

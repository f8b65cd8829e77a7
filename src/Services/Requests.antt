-- ===== src/Services/Requests.antt =====
-- Requests, responses and events of `ServiceDispatcher` in core/services/dispatch.py, and how messages are
-- turned into them and back.
use core_host.Base.Scalars.{Scalar, word}
use core_host.Base.{
  ℕ, Bool, true, false, ◌||◌, String, Option, none, some, List, [], ◌∷◌, ◌++◌, elem, if◌then◌else◌,
  ◌==◌,
}
use core_host.Base.Dict.{lookup}
use core_host.Data.Values.{Value, object}
use core_host.Communication.Messages.{Message}
use core_host.Security.Manager.{SecurityManager, SecurityError}
use core_host.Security.Policy.{SecurityPolicy}
use core_host.Services.Manager.{ServiceManager, ServiceError, Arguments}

-- `str(exc)` of the exceptions that are turned into an answer, and the other reasons.
pub data Reason : Type 0 where
  no_operation : Reason
  authentication_required : String → Reason
  denied : SecurityError → Reason
  execution_failed : ServiceError → Reason

-- The payload of an answer: that of an error is empty, an object is taken as it is, and any other
-- result is wrapped as `{"value": result}`.
pub data Payload : Type 0 where
  nothing : Payload
  as_it_is : ℕ → Payload
  wrapped : Value → Payload

pub record ServiceRequest : Type 0 where
  pub service_id : String
  pub operation : String
  pub payload : Arguments
  pub request_id : String

pub record ServiceResponse : Type 0 where
  pub service_id : String
  pub operation : String
  pub payload : Payload
  pub success : Bool
  pub request_id : String
  pub error : Option Reason

-- The message of type SERVICE_RESPONSE, whose payload is the response. Its id and time are left out.
pub record Reply : Type 0 where
  pub source : String
  pub destination : String
  pub response : ServiceResponse

pub data ServiceEvent : Type 0 where
  service_failed : String → String → ServiceError → ServiceEvent
  service_executed : String → String → ServiceEvent
  security_access_denied : String → String → Option String → Reason → ServiceEvent

-- `emitted` is no field of the program: the calls of the emitter, in order.
pub record ServiceDispatcher : Type 0 where
  pub services : ServiceManager
  pub security : Option SecurityManager
  pub policy : Option SecurityPolicy
  pub has_emitter : Bool
  pub emitted : List ServiceEvent

abbrev pub emit : ServiceEvent → ServiceDispatcher → ServiceDispatcher
emit e d = record d { emitted = if d.has_emitter then d.emitted ++ e ∷ [] else d.emitted }

-- The length of "service:".
abbrev pub drop_text : List (Unit {0}) → String → String
drop_text [] s = s
drop_text (u ∷ us) String.[] = ""
drop_text (u ∷ us) (String.◌∷◌ c s) = drop_text us s

-- `destination[len("service:"):]`
unfoldable pub service_id_for : String → String
service_id_for destination = drop_text (tt ∷ tt ∷ tt ∷ tt ∷ tt ∷ tt ∷ tt ∷ tt ∷ []) destination

abbrev pub credential_keys : List String
credential_keys = "_credential" ∷ "credential" ∷ "token" ∷ "_token" ∷ "api_token" ∷ []

-- The arguments of the operation: all but its name and the credentials.
unfoldable pub arguments : Arguments → Arguments
arguments [] = []
arguments ((k, v) ∷ d) =
    let rest = arguments d in
    if k == "operation" || elem k credential_keys then rest else (k, v) ∷ rest

-- `message.request_id or message.message_id`
abbrev pub request_id_or : Option String → String → String
request_id_or none id = id
request_id_or (some r) id = if r == "" then id else r

abbrev pub reply_id : Message → String
reply_id m = request_id_or m.request_id m.message_id

abbrev pub request_for : Option (Option Scalar) → Message → Option ServiceRequest
request_for (some (some (word operation))) m =
    if operation == ""
    then none
    else some (record {
      service_id = service_id_for m.destination;
      operation = operation;
      payload = arguments m.payload;
      request_id = reply_id m;
    })
request_for (some none) m = none
request_for (some (some _)) m = none
request_for none m = none

-- `to_request`; none is its ValueError.
unfoldable pub to_request : Message → Option ServiceRequest
to_request m = request_for (lookup "operation" m.payload) m

-- `to_message`, to the source of the message
abbrev pub to_message : Message → ServiceResponse → Reply
to_message m response = record {
  source = m.destination;
  destination = m.source;
  response = response;
}

-- `_coerce_payload`
abbrev pub coerce_payload : Value → Payload
coerce_payload (object n) = as_it_is n
coerce_payload v = wrapped v

abbrev pub failure : ServiceRequest → Reason → ServiceResponse
failure q reason = record {
  service_id = q.service_id;
  operation = q.operation;
  payload = nothing;
  success = false;
  request_id = q.request_id;
  error = some reason;
}

abbrev pub success_of : ServiceRequest → Value → ServiceResponse
success_of q v = record {
  service_id = q.service_id;
  operation = q.operation;
  payload = coerce_payload v;
  success = true;
  request_id = q.request_id;
  error = none;
}

-- ===== src/Communication/Transport.antt =====
-- `LocalTransport` of core/communication/transport.py. A handler is the identity of a function,
-- which does not use the transport while it is called.
pub mod Sent
pub mod Valid
use core_host.Base.Scalars.{Scalar}
use core_host.Base.{
  ℕ, ◌+◌, Bool, true, false, String, Option, none, some, List, [], ◌∷◌, ◌++◌, length, if◌then◌else◌,
  Result, ok, err, ◌==◌,
}
use core_host.Base.Dict.{Dict, lookup, insert, erase, has}
use core_host.Communication.Messages.{Message}

abbrev pub Handler : Type 0
Handler = ℕ

-- `MessageError`
pub data MessageError : Type 0 where
  empty_endpoint not_running invalid_response : MessageError
  already_registered not_registered handling_failed : String → MessageError

-- What a handler does: it returns a message or None, returns something else, or raises.
pub data Reply : Type 0 where
  returns : Option Message → Reply
  returns_other raises : Reply

-- `listens` tells whether there is an `on_delivery`. Two fields are none of the program's: `calls`
-- has the calls of handlers and `notices` those of `on_delivery`, in order.
pub record LocalTransport : Type 0 where
  pub handlers : Dict Handler
  pub active : Bool
  pub messages_sent : ℕ
  pub messages_received : ℕ
  pub listens : Bool
  pub calls : List (Handler × Message)
  pub notices : List Message

-- `LocalTransport(on_delivery)`
abbrev pub init : Bool → LocalTransport
init listens = record {
  handlers = [];
  active = true;
  messages_sent = 0;
  messages_received = 0;
  listens = listens;
  calls = [];
  notices = [];
}

-- What a handler does when it is called after the calls so far.
abbrev pub World : Type 0
World = List (Handler × Message) → Handler → Message → Reply

unfoldable pub start : LocalTransport → LocalTransport
start t = if t.active then t else record t { active = true }

unfoldable pub stop : LocalTransport → LocalTransport
stop t = record t { active = false }

-- Whether the endpoint is empty, and whether it is registered.
abbrev pub register_if :
    Bool
    → Bool
    → String
    → Handler
    → LocalTransport
    → Result MessageError (Unit {0}) × LocalTransport
register_if true known endpoint h t = (err empty_endpoint, t)
register_if false true endpoint h t = (err (already_registered endpoint), t)
register_if false false endpoint h t = (ok tt, record t { handlers = insert endpoint h t.handlers })

unfoldable pub register :
    String → Handler → LocalTransport → Result MessageError (Unit {0}) × LocalTransport
register endpoint h t = register_if (endpoint == "") (has endpoint t.handlers) endpoint h t

unfoldable pub unregister : String → LocalTransport → LocalTransport
unregister endpoint t = record t { handlers = erase endpoint t.handlers }

unfoldable pub has_endpoint : String → LocalTransport → Bool
has_endpoint endpoint t = has endpoint t.handlers

-- `endpoint_count`, and `count`
unfoldable pub endpoint_count : LocalTransport → ℕ
endpoint_count t = length t.handlers

abbrev pub Sending : Type 0
Sending = Result MessageError (Option Message) × LocalTransport

-- `self._on_delivery(message)`, if there is one; what it raises is dropped.
abbrev pub notify : Bool → Message → LocalTransport → LocalTransport
notify true m t = record t { notices = t.notices ++ m ∷ [] }
notify false m t = t

abbrev pub receive : LocalTransport → LocalTransport
receive t = record t { messages_received = t.messages_received + 1 }

-- The rest of `send` after the call of the handler.
abbrev pub finish : Message → Reply → LocalTransport → Sending
finish m raises t = (err (handling_failed m.destination), t)
finish m returns_other t = (err invalid_response, receive t)
finish m (returns response) t = (ok response, notify t.listens m (receive t))

abbrev pub send_found : World → Message → Option Handler → LocalTransport → Sending
send_found world m none t = (err (not_registered m.destination), t)
send_found world m (some h) t =
    finish m (world t.calls h m)
      (record t { messages_sent = t.messages_sent + 1; calls = t.calls ++ (h, m) ∷ [] })

abbrev pub send_if : Bool → World → Message → LocalTransport → Sending
send_if false world m t = (err not_running, t)
send_if true world m t = send_found world m (lookup m.destination t.handlers) t

unfoldable pub send : World → Message → LocalTransport → Sending
send world m t = send_if t.active world m t

-- `request`, with the new message's id and time
unfoldable pub request :
    World → String → ℕ → String → String → String → Dict (Option Scalar) → LocalTransport → Sending
unfolding send
request world message_id now source destination message_type payload t =
    send world
      (record {
        source = source;
        destination = destination;
        message_type = message_type;
        payload = payload;
        message_id = message_id;
        timestamp = now;
        request_id = none;
        identity_id = none;
      })
      t

unfoldable pub clear : LocalTransport → LocalTransport
clear t = record t { handlers = []; messages_sent = 0; messages_received = 0 }

-- The calls that change the transport.
pub data Op : Type 0 where
  starts stops clears : Op
  registers : String → Handler → Op
  unregisters : String → Op
  sends : Message → Op

unfoldable pub step : World → Op → LocalTransport → LocalTransport
step world starts t = start t
step world stops t = stop t
step world clears t = clear t
step world (registers endpoint h) t = (register endpoint h t).1
step world (unregisters endpoint) t = unregister endpoint t
step world (sends m) t = (send world m t).1

unfoldable pub run : World → List Op → LocalTransport → LocalTransport
unfolding step
run world [] t = t
run world (op ∷ ops) t = run world ops (step world op t)

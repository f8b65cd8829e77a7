-- ===== src/Events/Bus.antt =====
-- `EventBus` of core/events/bus.py. A handler is the identity of a function. While it is called, a
-- handler may use the bus in turn, and may publish. The publications that it makes, and those that
-- their handlers make, come to an end.
pub mod Tidy
pub mod Publish
use core_host.Base.{
  ℕ, ◌+◌, Bool, true, false, String, Option, none, some, List, [], ◌∷◌, ◌++◌, ◌||◌, length, num_eq,
  or_else, if◌then◌else◌, Result, ok, err, ◌==◌,
}
use core_host.Base.Dict.{Dict, lookup, insert, erase, has}

abbrev pub Handler : Type 0
Handler = ℕ

-- core/events/models.py; the payload and the time are not read by the bus.
pub record Event : Type 0 where
  pub event_type : String
  pub source : String

pub data BusError : Type 0 where
  empty_event_type not_running : BusError

-- `delivered` is no field of the program: the calls of handlers, in order.
pub record EventBus : Type 0 where
  pub subscribers : Dict (List Handler)
  pub active : Bool
  pub events_published : ℕ
  pub handler_failures : ℕ
  pub delivered : List (Handler × Event)

-- `EventBus()`
abbrev pub init : EventBus
init = record {
  subscribers = [];
  active = true;
  events_published = 0;
  handler_failures = 0;
  delivered = [];
}

-- `handler in handlers`
unfoldable pub member : Handler → List Handler → Bool
member h [] = false
member h (g ∷ gs) = num_eq g h || member h gs

-- `handlers.remove(handler)`
unfoldable pub remove : Handler → List Handler → List Handler
remove h [] = []
remove h (g ∷ gs) = let rest = remove h gs in if num_eq g h then gs else g ∷ rest

-- `self._subscribers.get(event_type, [])`
abbrev pub handlers_of : EventBus → String → List Handler
handlers_of b t = or_else (lookup t b.subscribers) []

unfoldable pub start : EventBus → EventBus
start b = if b.active then b else record b { active = true }

unfoldable pub stop : EventBus → EventBus
stop b = record b { active = false }

abbrev pub append_new : Handler → List Handler → List Handler
append_new h hs = if member h hs then hs else hs ++ h ∷ []

unfoldable pub subscribe : String → Handler → EventBus → Result BusError (Unit {0}) × EventBus
subscribe t h b =
    if t == ""
    then (err empty_event_type, b)
    else (ok tt, record b { subscribers = insert t (append_new h (handlers_of b t)) b.subscribers })

-- The entry of an event type that has no handlers left is deleted.
abbrev pub keep_or_delete : String → List Handler → EventBus → EventBus
keep_or_delete t [] b = record b { subscribers = erase t b.subscribers }
keep_or_delete t (h ∷ hs) b = record b { subscribers = insert t (h ∷ hs) b.subscribers }

abbrev pub unsubscribe_from : String → Handler → List Handler → EventBus → EventBus
unsubscribe_from t h [] b = b
unsubscribe_from t h (g ∷ gs) b =
    keep_or_delete t (if member h (g ∷ gs) then remove h (g ∷ gs) else g ∷ gs) b

unfoldable pub unsubscribe : String → Handler → EventBus → EventBus
unsubscribe t h b = unsubscribe_from t h (handlers_of b t) b

unfoldable pub clear : EventBus → EventBus
clear b = record b { subscribers = [] }

-- A change of the bus that calls no handler.
pub data Action : Type 0 where
  subscribes unsubscribes : String → Handler → Action
  starts stops clears : Action

unfoldable pub act : Action → EventBus → EventBus
act (subscribes t h) b = (subscribe t h b).1
act (unsubscribes t h) b = unsubscribe t h b
act starts b = start b
act stops b = stop b
act clears b = clear b

-- What a handler does with the bus while it is called, and whether it raises in the end. `emits`
-- has the event that it publishes, and what the handlers then do that are called with it, each
-- after the deliveries so far.
pub data Behaviour : Type 0 where
  ends : Bool → Behaviour
  does_then : Action → Behaviour → Behaviour
  emits : Event → (List (Handler × Event) → Handler → Event → Behaviour) → Behaviour → Behaviour

-- What the handler does when it is called with the event, after the deliveries so far.
abbrev pub World : Type 0
World = List (Handler × Event) → Handler → Event → Behaviour

-- The call of a handler: the bus that it leaves, and whether it raises.
abbrev pub Calls : Type 0
Calls = List (Handler × Event) → Handler → Event → EventBus → EventBus × Bool

abbrev pub count_failure : EventBus × Bool → EventBus
count_failure (b, true) = record b { handler_failures = b.handler_failures + 1 }
count_failure (b, false) = b

-- One round of the loop of `publish`.
unfoldable pub deliver : Calls → Event → Handler → EventBus → EventBus
deliver calls e h b =
    count_failure (calls b.delivered h e (record b { delivered = b.delivered ++ (h, e) ∷ [] }))

unfoldable pub deliver_all : Calls → Event → List Handler → EventBus → EventBus
deliver_all calls e [] b = b
deliver_all calls e (h ∷ hs) b = deliver_all calls e hs (deliver calls e h b)

abbrev pub publish_if : Bool → Calls → Event → EventBus → Result BusError (Unit {0}) × EventBus
publish_if false calls e b = (err not_running, b)
publish_if true calls e b = (
  ok tt,
  deliver_all calls e (handlers_of b e.event_type)
      (record b { events_published = b.events_published + 1 }),
)

-- `publish`, with what a call of a handler does.
unfoldable pub publish_by : Calls → Event → EventBus → Result BusError (Unit {0}) × EventBus
publish_by calls e b = publish_if b.active calls e b

-- A call of a handler. What its own publication raises is for the handler to catch or not.
unfoldable pub perform : Behaviour → EventBus → EventBus × Bool
perform (ends raises) b = (b, raises)
perform (does_then a k) b = perform k (act a b)
perform (emits e world k) b =
    perform k (publish_by (λ before h event. perform (world before h event)) e b).1

unfoldable pub publish : World → Event → EventBus → Result BusError (Unit {0}) × EventBus
publish world e b = publish_by (λ before h event. perform (world before h event)) e b

unfoldable pub has_subscribers : String → EventBus → Bool
has_subscribers t b = elim (handlers_of b t) [ [] ↦ false | h ∷ hs ↦ true ]

abbrev pub total : Dict (List Handler) → ℕ
total [] = 0
total ((t, hs) ∷ d) = length hs + total d

unfoldable pub subscriber_count : Option String → EventBus → ℕ
subscriber_count none b = total b.subscribers
subscriber_count (some t) b = length (handlers_of b t)

-- The calls that use the bus.
pub data Op : Type 0 where
  does : Action → Op
  publishes : Event → Op

unfoldable pub run : World → List Op → EventBus → EventBus
run world [] b = b
run world (does a ∷ ops) b = run world ops (act a b)
run world (publishes e ∷ ops) b = run world ops (publish world e b).1

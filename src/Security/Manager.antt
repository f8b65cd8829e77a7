-- ===== src/Security/Manager.antt =====
-- `SecurityManager` of core/security/manager.py. An event handler is the identity of a function, which
-- does not use the manager while it is called. The time of an event is left out.
pub mod Outcomes
pub mod Counts
pub mod Kept
use core_host.Base.Scalars.{Scalar}
use core_host.Base.{
  ℕ, ◌+◌, Bool, true, false, not, ◌||◌, String, Option, none, some, List, [], ◌∷◌, ◌++◌, map,
  length, num_eq, if◌then◌else◌, Result, ok, err, ◌==◌,
}
use core_host.Base.Dict.{Dict, lookup, insert, erase, has}
use core_host.Security.Models.{Identity, Permission, has_permission}
use core_host.Security.Provider.{
  Provider, Answer, accepts, rejects, raises_type_error, raises_identity_not_found,
  raises_authentication_error, raises_other, existence,
}

pub data SecurityError : Type 0 where
  not_running : SecurityError
  identity_already_registered identity_not_found : String → SecurityError
  authentication_failed : String → SecurityError
  lacks_permission : String → Permission → SecurityError

pub data EventType : Type 0 where
  identity_registered identity_unregistered : EventType
  authentication_failed authentication_succeeded : EventType
  authorization_failed authorization_succeeded : EventType

pub record SecurityEvent : Type 0 where
  pub event_type : EventType
  pub identity_id : String
  pub success : Bool

abbrev pub Handler : Type 0
Handler = ℕ

-- `delivered` is no field of the program: the calls of event handlers, in order.
pub record SecurityManager : Type 0 where
  pub identities : Dict Identity
  pub active : Bool
  pub authentication_count : ℕ
  pub authentication_failures : ℕ
  pub authorization_count : ℕ
  pub authorization_failures : ℕ
  pub event_handlers : List Handler
  pub provider : Provider
  pub delivered : List (Handler × SecurityEvent)

-- `SecurityManager(provider)`
abbrev pub init : Option Provider → SecurityManager
init given = record {
  identities = [];
  active = true;
  authentication_count = 0;
  authentication_failures = 0;
  authorization_count = 0;
  authorization_failures = 0;
  event_handlers = [];
  provider = elim given [ none ↦ existence | some p ↦ p ];
  delivered = [];
}

abbrev pub Call : Type 0 → Type 0
Call A = Result SecurityError A × SecurityManager

unfoldable pub start : SecurityManager → SecurityManager
start m = record m { active = true }

unfoldable pub stop : SecurityManager → SecurityManager
stop m = record m { active = false }

-- What a handler raises is dropped.
unfoldable pub emit_event : EventType → String → Bool → SecurityManager → SecurityManager
emit_event t id success m = record m {
  delivered =
      m.delivered
      ++ map (λ h. (h, record { event_type = t; identity_id = id; success = success }))
          m.event_handlers;
}

-- `handler in self._event_handlers`
unfoldable pub member : Handler → List Handler → Bool
member h [] = false
member h (g ∷ gs) = num_eq g h || member h gs

unfoldable pub remove : Handler → List Handler → List Handler
remove h [] = []
remove h (g ∷ gs) = let rest = remove h gs in if num_eq g h then gs else g ∷ rest

unfoldable pub register_event_handler : Handler → SecurityManager → SecurityManager
register_event_handler h m = record m {
  event_handlers =
      if member h m.event_handlers then m.event_handlers else m.event_handlers ++ h ∷ [];
}

unfoldable pub unregister_event_handler : Handler → SecurityManager → SecurityManager
unregister_event_handler h m = record m {
  event_handlers =
      if member h m.event_handlers then remove h m.event_handlers else m.event_handlers;
}

unfoldable pub set_provider : Provider → SecurityManager → SecurityManager
set_provider p m = record m { provider = p }

-- Whether the manager is active, and whether the id is registered.
abbrev pub register_if : Bool → Bool → Identity → SecurityManager → Call Identity
register_if false known i m = (err not_running, m)
register_if true true i m = (err (identity_already_registered i.identity_id), m)
register_if true false i m = (
  ok i,
  emit_event identity_registered i.identity_id true
      (record m { identities = insert i.identity_id i m.identities }),
)

unfoldable pub register_identity : Identity → SecurityManager → Call Identity
register_identity i m = register_if m.active (has i.identity_id m.identities) i m

abbrev pub identity_or : String → Option Identity → Result SecurityError Identity
identity_or id none = err (identity_not_found id)
identity_or id (some i) = ok i

abbrev pub get_identity : String → SecurityManager → Result SecurityError Identity
get_identity id m = identity_or id (lookup id m.identities)

abbrev pub unregister_got : String → Result SecurityError Identity → SecurityManager → Call Identity
unregister_got id (err e) m = (err e, m)
unregister_got id (ok i) m = (
  ok i,
  emit_event identity_unregistered id true (record m { identities = erase id m.identities }),
)

abbrev pub unregister_if : Bool → String → SecurityManager → Call Identity
unregister_if false id m = (err not_running, m)
unregister_if true id m = unregister_got id (get_identity id m) m

unfoldable pub unregister_identity : String → SecurityManager → Call Identity
unregister_identity id m = unregister_if m.active id m

-- `provider.authenticate(identity, credential)`, and after a TypeError `provider.authenticate(identity)`
abbrev pub ask_again : Provider → Identity → Answer → Answer
ask_again p i raises_type_error = p.authenticate_alone i
ask_again p i a = a

-- The failures count one more, and an event says so.
abbrev pub fail_authentication : String → SecurityManager → SecurityManager
fail_authentication id m =
    emit_event authentication_failed id false
      (record m { authentication_failures = m.authentication_failures + 1 })

-- What follows the answer of the provider. An IdentityNotFound of its own is raised again.
abbrev pub finish_authentication : String → Identity → Answer → SecurityManager → Call Identity
finish_authentication id i accepts m = (ok i, emit_event authentication_succeeded id true m)
finish_authentication id i (raises_identity_not_found other) m = (err (identity_not_found other), m)
finish_authentication id i _ m = (err (authentication_failed id), fail_authentication id m)

abbrev pub authenticate_got :
    String → Option Scalar → Result SecurityError Identity → SecurityManager → Call Identity
authenticate_got id credential (err e) m = (err e, fail_authentication id m)
authenticate_got id credential (ok i) m =
    finish_authentication id i (ask_again m.provider i (m.provider.authenticate i credential)) m

abbrev pub authenticate_if : Bool → String → Option Scalar → SecurityManager → Call Identity
authenticate_if false id credential m = (err not_running, m)
authenticate_if true id credential m =
    authenticate_got id credential (get_identity id m)
      (record m { authentication_count = m.authentication_count + 1 })

unfoldable pub authenticate : String → Option Scalar → SecurityManager → Call Identity
authenticate id credential m = authenticate_if m.active id credential m

abbrev pub fail_authorization : String → SecurityManager → SecurityManager
fail_authorization id m =
    emit_event authorization_failed id false
      (record m { authorization_failures = m.authorization_failures + 1 })

abbrev pub authorize_held : String → Permission → Bool → SecurityManager → Call Bool
authorize_held id p false m = (err (lacks_permission id p), fail_authorization id m)
authorize_held id p true m = (ok true, emit_event authorization_succeeded id true m)

abbrev pub authorize_got :
    String → Permission → Result SecurityError Identity → SecurityManager → Call Bool
authorize_got id p (err e) m = (err e, fail_authorization id m)
authorize_got id p (ok i) m = authorize_held id p (has_permission i p) m

abbrev pub authorize_if : Bool → String → Permission → SecurityManager → Call Bool
authorize_if false id p m = (err not_running, m)
authorize_if true id p m =
    authorize_got id p (get_identity id m)
      (record m { authorization_count = m.authorization_count + 1 })

unfoldable pub authorize : String → Permission → SecurityManager → Call Bool
authorize id p m = authorize_if m.active id p m

-- `has_permission` of the manager
unfoldable pub identity_has_permission :
    String → Permission → SecurityManager → Result SecurityError Bool
identity_has_permission id p m =
    if not m.active
    then err not_running
    else elim (get_identity id m) [ err e ↦ err e | ok i ↦ ok (has_permission i p) ]

unfoldable pub count : SecurityManager → ℕ
count m = length m.identities

unfoldable pub reset_metrics : SecurityManager → SecurityManager
reset_metrics m = record m {
  authentication_count = 0;
  authentication_failures = 0;
  authorization_count = 0;
  authorization_failures = 0;
}

unfoldable pub clear : SecurityManager → SecurityManager
unfolding reset_metrics
clear m = record (reset_metrics m) { identities = [] }

-- The calls that change the manager.
pub data Op : Type 0 where
  starts stops resets clears : Op
  listens ignores : Handler → Op
  uses : Provider → Op
  registers : Identity → Op
  unregisters : String → Op
  authenticates : String → Option Scalar → Op
  authorizes : String → Permission → Op

unfoldable pub step : Op → SecurityManager → SecurityManager
step starts m = start m
step stops m = stop m
step resets m = reset_metrics m
step clears m = clear m
step (listens h) m = register_event_handler h m
step (ignores h) m = unregister_event_handler h m
step (uses p) m = set_provider p m
step (registers i) m = (register_identity i m).1
step (unregisters id) m = (unregister_identity id m).1
step (authenticates id credential) m = (authenticate id credential m).1
step (authorizes id p) m = (authorize id p m).1

unfoldable pub run : List Op → SecurityManager → SecurityManager
unfolding step
run [] m = m
run (op ∷ ops) m = run ops (step op m)

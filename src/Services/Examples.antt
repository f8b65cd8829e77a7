-- ===== src/Services/Examples.antt =====
-- A service with one operation that needs a permission.
use core_host.Base.Scalars.{word}
use core_host.Base.{◌≡◌, refl, elem, true, false, none, some, [], ◌∷◌, ok}
use core_host.Base.Dict.{lookup}
use core_host.Base.Chars.{is_space}
use core_host.Data.Values.{text}
use core_host.Communication.Messages.{Message}
use core_host.Security.Models.{read, user}
use core_host.Security.Provider.{token}
use core_host.Security.Manager.{SecurityManager}
use core_host.Security.Policy.{SecurityPolicy, validate, is_blank, required}
use core_host.Services.Manager.{ServiceManager, World, running, healthy, returns}
use core_host.Services.Requests.{
  ServiceDispatcher, ServiceRequest, service_id_for, arguments, to_request,
}
use core_host.Services.Dispatch.{handle}
use core_host.Services.Dispatch.Guarded.{Outcome, handle-IsGuarded}

abbrev notes : ServiceManager
notes = record {
  services =
      (
        "notes",
        record {
          service_id = "notes";
          name = "Notes";
          version = "1";
          dependencies = [];
          startup_priority = 100;
          status = running;
          health = healthy;
        },
      )
      ∷ [];
  handlers = ("notes", ("list", 1) ∷ []) ∷ [];
  calls = [];
}

abbrev guard : SecurityManager
guard = record (core_host.Security.Manager.init (some (token false))) {
  identities =
      (
        "op-1",
        record {
          identity_id = "op-1";
          name = "Operator";
          identity_type = user;
          permissions = read ∷ [];
          metadata = ("token", some (word "s3cret")) ∷ [];
          created_at = 0;
        },
      )
      ∷ [];
}

abbrev rules : SecurityPolicy
rules = record { requirements = ("notes", ("list", read) ∷ []) ∷ []; enforced = true }

abbrev dispatcher : ServiceDispatcher
dispatcher = record {
  services = notes;
  security = some guard;
  policy = some rules;
  has_emitter = true;
  emitted = [];
}

abbrev world : World
world calls h args = returns (text "none yet")

abbrev question : Message
question = record {
  source = "cli";
  destination = "service:notes";
  message_type = "REQUEST";
  payload =
      ("operation", some (word "list"))
      ∷ ("token", some (word "s3cret"))
      ∷ ("page", some (word "2"))
      ∷ [];
  message_id = "m-1";
  timestamp = 5;
  request_id = none;
  identity_id = some "op-1";
}

abbrev request : ServiceRequest
request = record {
  service_id = "notes";
  operation = "list";
  payload = ("page", some (word "2")) ∷ [];
  request_id = "m-1";
}

asked : to_request question ≡ some request
unfolding to_request arguments service_id_for lookup elem
asked = refl

needs_read : required "notes" "list" rules ≡ ok (some read)
unfolding required validate is_blank is_space lookup
needs_read = refl

handle-IsGuarded_example :
    Outcome question read guard request dispatcher (handle world question dispatcher)
handle-IsGuarded_example =
    handle-IsGuarded world question dispatcher guard rules request read refl refl refl asked
      needs_read

-- ===== src/Communication/Examples.antt =====
-- A transport with one endpoint, whose handler answers the first message and raises after that.
use core_host.Base.{◌≡◌, refl, true, none, some, List, [], ◌∷◌, length, num_eq, if◌then◌else◌}
use core_host.Base.Dict.{lookup, insert, erase, has}
use core_host.Communication.Messages.{Message, create_response}
use core_host.Communication.Transport.{
  LocalTransport, World, Op, init, start, stop, register, unregister, send, clear, registers, sends,
  returns, raises, step, run,
}
use core_host.Communication.Transport.Sent.{Sent, send-Sent}
use core_host.Communication.Transport.Valid.{IsOrderly, run-IsOrderly}

abbrev ping : Message
ping = record {
  source = "cli";
  destination = "core";
  message_type = "PING";
  payload = [];
  message_id = "m-1";
  timestamp = 5;
  request_id = none;
  identity_id = none;
}

abbrev world : World
world calls h m =
    if num_eq (length calls) 0
    then returns (some (create_response "m-2" 6 "core" [] "PONG" m))
    else raises

abbrev script : List Op
script = registers "core" 1 ∷ sends ping ∷ sends ping ∷ []

run-script :
    ((run world script (init true)).messages_sent ≡ 2)
    × ((run world script (init true)).messages_received ≡ 1)
    × ((run world script (init true)).notices ≡ ping ∷ [])
unfolding run step start stop register unregister send clear create_response lookup insert erase has
run-script = (refl, refl, refl)

abbrev registered : LocalTransport
registered = record (init true) { handlers = ("core", 1) ∷ [] }

send-Sent_example : Sent world ping true (some 1) registered (send world ping registered)
unfolding lookup
send-Sent_example = send-Sent world ping registered

run-IsOrderly_example : IsOrderly (run world script (init true))
run-IsOrderly_example = run-IsOrderly world true script

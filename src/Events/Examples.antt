-- ===== src/Events/Examples.antt =====
-- A bus with two handlers for one event type. While it is called, the first one publishes another
-- event, whose handler unsubscribes the second, and then raises.
use core_host.Base.{◌≡◌, refl, true, false, List, [], ◌∷◌, num_eq, if◌then◌else◌}
use core_host.Base.Dict.{lookup, insert, erase}
use core_host.Events.Bus.{
  Event, EventBus, World, ends, does_then, emits, publish_by, perform, Op, does, publishes,
  subscribes, unsubscribes, init, member, remove, start, stop, subscribe, unsubscribe, clear, act,
  deliver, deliver_all, publish, run,
}
use core_host.Events.Bus.Publish.{Published, publish-Published}
use core_host.Events.Bus.Tidy.{IsTidy, run-IsTidy}

abbrev event : Event
event = record { event_type = "HEALTH_CHANGED"; source = "health" }

abbrev notice : Event
notice = record { event_type = "NOTICE"; source = "health" }

abbrev inner : World
inner before h e = does_then (unsubscribes "HEALTH_CHANGED" 2) (ends false)

abbrev world : World
world before h e = if num_eq h 1 then emits notice inner (ends true) else ends false

abbrev script : List Op
script =
    does (subscribes "HEALTH_CHANGED" 1)
    ∷ does (subscribes "HEALTH_CHANGED" 2)
    ∷ does (subscribes "NOTICE" 3)
    ∷ publishes event
    ∷ publishes event
    ∷ []

abbrev three_handlers : EventBus
three_handlers = record init {
  subscribers = ("HEALTH_CHANGED", 1 ∷ 2 ∷ []) ∷ ("NOTICE", 3 ∷ []) ∷ [];
}

-- The second handler gets the first event and not the second one.
run-script :
    (run world script init).delivered
    ≡ (1, event) ∷ (3, notice) ∷ (2, event) ∷ (1, event) ∷ (3, notice) ∷ []
unfolding run act subscribe unsubscribe publish publish_by perform deliver deliver_all start stop
    clear member remove lookup insert erase
run-script = refl

publish-Published_example :
    Published true world event three_handlers (publish world event three_handlers)
publish-Published_example = publish-Published world event three_handlers

run-IsTidy_example : IsTidy (run world script init)
run-IsTidy_example = run-IsTidy world script

-- ===== src/Events/Bus/Tidy.antt =====
-- The registry of `EventBus` in core/events/bus.py.
use core_host.Base.{
  ◌+◌, ◌≡◌, ◌≢◌, refl, Bool, true, false, ◌||◌, String, List, [], ◌∷◌, ◌++◌, num_eq, arith, ◌==◌,
  inl, inr, Bool-cases, Option-cases,
}
use core_host.Base.Dict.{lookup, Every, Every-insert, Every-erase, Every-nil}
use core_host.Events.Bus.{
  Handler, Event, EventBus, World, Action, Behaviour, Calls, ends, does_then, emits, perform,
  publish_by, act, start, stop, subscribe, unsubscribe, unsubscribe_from, keep_or_delete,
  append_new, clear, count_failure, deliver, deliver_all, publish, publish_if, handlers_of, member,
  remove, init, Op, does, publishes, run, subscribes, unsubscribes, starts, stops, clears,
}

-- No handler stands twice.
abbrev pub IsOnce : List Handler → Type 0
IsOnce [] = Unit
IsOnce (h ∷ hs) = (member h hs ≡ false) × IsOnce hs

-- Some handlers, none of them twice.
abbrev pub IsRoster : List Handler → Type 0
IsRoster hs = (hs ≢ []) × IsOnce hs

abbrev pub IsTidy : EventBus → Type 0
IsTidy b = Every IsRoster b.subscribers

member_snoc :
    (h g : Handler) (hs : List Handler) → member h (hs ++ g ∷ []) ≡ member h hs || num_eq g h
unfolding member
member_snoc h g [] = ground arith
member_snoc h g (x ∷ hs) = ground (arith, member_snoc h g hs)

snoc-IsOnce :
    (h : Handler) (hs : List Handler) → member h hs ≡ false → IsOnce hs → IsOnce (hs ++ h ∷ [])
unfolding member
snoc-IsOnce h [] n o = (refl, tt)
snoc-IsOnce h (x ∷ xs) n (fresh, o) =
    (ground (arith, member_snoc x h xs), snoc-IsOnce h xs (ground arith) o)

snoc-ne-nil : (h : Handler) (hs : List Handler) → (hs ++ h ∷ []) ≢ []
snoc-ne-nil h [] e = cc
snoc-ne-nil h (x ∷ hs) e = cc

append_new-IsRoster : (h : Handler) (hs : List Handler) → IsOnce hs → IsRoster (append_new h hs)
append_new-IsRoster h hs once = elim (Bool-cases (member h hs)) [
  | inl old ↦ rw old (λ e. let m = rw e at old in unfold member in cc, once)
  | inr new ↦ rw new (snoc-ne-nil h hs, snoc-IsOnce h hs new once)
]

member-remove :
    (h g : Handler) (hs : List Handler) → member h hs ≡ false → member h (remove g hs) ≡ false
unfolding member remove
member-remove h g [] n = refl
member-remove h g (x ∷ hs) n = ground (arith, member-remove h g hs)

remove-IsOnce : (h : Handler) (hs : List Handler) → IsOnce hs → IsOnce (remove h hs)
unfolding remove
remove-IsOnce h [] o = tt
remove-IsOnce h (x ∷ hs) (fresh, o) = elim (Bool-cases (num_eq x h)) [
  | inl same ↦ rw same o
  | inr other ↦ rw other (member-remove x h hs fresh, remove-IsOnce h hs o)
]

module _ (b : EventBus) (v : IsTidy b) where
  handlers_of-IsOnce : (t : String) → IsOnce (handlers_of b t)
  handlers_of-IsOnce t = elim (Option-cases (lookup t b.subscribers)) [
    | inl absent ↦ rw absent tt
    | inr (hs, found) ↦ rw found (v t hs found).1
  ]

  subscribe-IsTidy : (t : String) (h : Handler) → IsTidy (subscribe t h b).1
  unfolding subscribe
  subscribe-IsTidy t h = elim (Bool-cases (t == "")) [
    | inl empty ↦ rw empty v
    | inr named ↦ rw named (
        Every-insert IsRoster t (append_new h (handlers_of b t)) b.subscribers
          (append_new-IsRoster h (handlers_of b t) (handlers_of-IsOnce t)) v)
  ]

  keep_or_delete-IsTidy :
      (t : String) (hs : List Handler) → IsOnce hs → IsTidy (keep_or_delete t hs b)
  keep_or_delete-IsTidy t [] once = Every-erase IsRoster t b.subscribers v
  keep_or_delete-IsTidy t (h ∷ hs) once =
      Every-insert IsRoster t (h ∷ hs) b.subscribers (λ e. cc, once) v

  unsubscribe_from-IsTidy :
      (t : String) (h : Handler) (hs : List Handler)
      → IsOnce hs
      → IsTidy (unsubscribe_from t h hs b)
  unsubscribe_from-IsTidy t h [] once = v
  unsubscribe_from-IsTidy t h (g ∷ gs) once = elim (Bool-cases (member h (g ∷ gs))) [
    | inl there ↦
        rw there (keep_or_delete-IsTidy t (remove h (g ∷ gs)) (remove-IsOnce h (g ∷ gs) once))
    | inr not_there ↦ rw not_there (keep_or_delete-IsTidy t (g ∷ gs) once)
  ]

act-IsTidy : (a : Action) (b : EventBus) → IsTidy b → IsTidy (act a b)
unfolding act
act-IsTidy (subscribes t h) b v = subscribe-IsTidy b v t h
act-IsTidy (unsubscribes t h) b v =
    unfold unsubscribe in
    unsubscribe_from-IsTidy b v t h (handlers_of b t) (handlers_of-IsOnce b v t)
act-IsTidy starts b v = elim (Bool-cases b.active) [
  | inl on ↦ unfold start in rw on v
  | inr off ↦ unfold start in rw off v
]
act-IsTidy stops b v = unfold stop in v
act-IsTidy clears b v = unfold clear in Every-nil IsRoster

count_failure-IsTidy :
    (raised : Bool) (b : EventBus) → IsTidy b → IsTidy (count_failure (b, raised))
count_failure-IsTidy true b v = v
count_failure-IsTidy false b v = v

module _ (calls : Calls)
    (tidy : (before : List (Handler × Event)) (h : Handler) (e : Event) (b : EventBus)
      → IsTidy b
      → IsTidy (calls before h e b).0) where
  deliver_all-IsTidy :
      (e : Event) (hs : List Handler) (b : EventBus) → IsTidy b → IsTidy (deliver_all calls e hs b)
  unfolding deliver_all
  deliver_all-IsTidy e [] b v = v
  deliver_all-IsTidy e (h ∷ hs) b v =
      let begun : EventBus = record b { delivered = b.delivered ++ (h, e) ∷ [] } in
      let left = calls b.delivered h e begun in
      deliver_all-IsTidy e hs (deliver calls e h b)
        (unfold deliver in count_failure-IsTidy left.1 left.0 (tidy b.delivered h e begun v))

  publish_if-IsTidy :
      (active : Bool) (e : Event) (b : EventBus) → IsTidy b → IsTidy (publish_if active calls e b).1
  publish_if-IsTidy true e b v =
      deliver_all-IsTidy e (handlers_of b e.event_type)
        (record b { events_published = b.events_published + 1 }) v
  publish_if-IsTidy false e b v = v

  publish_by-IsTidy : (e : Event) (b : EventBus) → IsTidy b → IsTidy (publish_by calls e b).1
  unfolding publish_by
  publish_by-IsTidy e b v = publish_if-IsTidy b.active e b v

perform-IsTidy : (k : Behaviour) (b : EventBus) → IsTidy b → IsTidy (perform k b).0
unfolding perform
perform-IsTidy (ends r) b v = v
perform-IsTidy (does_then a k) b v = perform-IsTidy k (act a b) (act-IsTidy a b v)
perform-IsTidy (emits e world k) b v = perform-IsTidy k _ (
    publish_by-IsTidy (λ before h event. perform (world before h event))
      (λ before h event. perform-IsTidy (world before h event)) e b v)

publish-IsTidy :
    (world : World) (e : Event) (b : EventBus) → IsTidy b → IsTidy (publish world e b).1
unfolding publish
publish-IsTidy world e b v =
    publish_by-IsTidy (λ before h event. perform (world before h event))
      (λ before h event. perform-IsTidy (world before h event)) e b v

run_from-IsTidy :
    (world : World) (ops : List Op) (b : EventBus) → IsTidy b → IsTidy (run world ops b)
unfolding run
run_from-IsTidy world [] b v = v
run_from-IsTidy world (does a ∷ ops) b v = run_from-IsTidy world ops (act a b) (act-IsTidy a b v)
run_from-IsTidy world (publishes e ∷ ops) b v =
    run_from-IsTidy world ops (publish world e b).1 (publish-IsTidy world e b v)

-- After any calls of its methods, the bus has handlers for each event type in its registry, and no
-- handler twice for a type. This holds for handlers that subscribe, unsubscribe, start, stop, clear
-- and publish while they are called.
pub run-IsTidy : (world : World) (ops : List Op) → IsTidy (run world ops init)
run-IsTidy world ops = run_from-IsTidy world ops init (Every-nil IsRoster)

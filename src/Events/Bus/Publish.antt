-- ===== src/Events/Bus/Publish.antt =====
-- `publish` of core/events/bus.py.
use core_host.Base.{
  ℕ, ◌+◌, ◌≡◌, refl, sym, ap, subst, ◌<◌, ◌∙◌, Bool, true, false, String, List, [], ◌∷◌, ◌++◌,
  append-nil, append_assoc, Result, ok, err, if◌then◌else◌, arith,
}
use core_host.Events.Bus.{
  Handler, Event, EventBus, World, Action, Behaviour, Calls, ends, does_then, emits, perform,
  publish_by, count_failure, act, start, stop, subscribe, unsubscribe, unsubscribe_from,
  keep_or_delete, clear, deliver, deliver_all, publish, publish_if, BusError, handlers_of,
  not_running, member, remove, subscribes, unsubscribes, starts, stops, clears,
}

-- What an action of a handler leaves alone.
pub record SameCounts (a b : EventBus) : Type 0 where
  pub published : b.events_published ≡ a.events_published
  pub failures : b.handler_failures ≡ a.handler_failures
  pub delivered : b.delivered ≡ a.delivered

SameCounts-refl : (b : EventBus) → SameCounts b b
SameCounts-refl b = record { published = refl; failures = refl; delivered = refl }

SameCounts-trans : (a b c : EventBus) → SameCounts a b → SameCounts b c → SameCounts a c
SameCounts-trans a b c s r = record {
  published = r.published ∙ s.published;
  failures = r.failures ∙ s.failures;
  delivered = r.delivered ∙ s.delivered;
}

keep_or_delete-SameCounts :
    (t : String) (hs : List Handler) (b : EventBus) → SameCounts b (keep_or_delete t hs b)
keep_or_delete-SameCounts t [] b = record { published = refl; failures = refl; delivered = refl }
keep_or_delete-SameCounts t (h ∷ hs) b = record {
  published = refl;
  failures = refl;
  delivered = refl;
}

unsubscribe-SameCounts :
    (t : String) (h : Handler) (hs : List Handler) (b : EventBus)
    → SameCounts b (unsubscribe_from t h hs b)
unsubscribe-SameCounts t h [] b = SameCounts-refl b
unsubscribe-SameCounts t h (g ∷ gs) b =
    keep_or_delete-SameCounts t (if member h (g ∷ gs) then remove h (g ∷ gs) else g ∷ gs) b

act-SameCounts : (a : Action) (b : EventBus) → SameCounts b (act a b)
unfolding act
act-SameCounts (subscribes t h) b = unfold subscribe in ground arith
act-SameCounts (unsubscribes t h) b =
    unfold unsubscribe in unsubscribe-SameCounts t h (handlers_of b t) b
act-SameCounts starts b = unfold start in ground arith
act-SameCounts stops b =
    unfold stop in record { published = refl; failures = refl; delivered = refl }
act-SameCounts clears b =
    unfold clear in record { published = refl; failures = refl; delivered = refl }

-- Some deliveries, publications and failures more.
record Grows (a b : EventBus) : Type 0 where
  more : List (Handler × Event)
  publications : ℕ
  failed : ℕ
  delivered : b.delivered ≡ a.delivered ++ more
  published : b.events_published ≡ a.events_published + publications
  failures : b.handler_failures ≡ a.handler_failures + failed

Grows-refl : (b : EventBus) → Grows b b
Grows-refl b = record {
  more = [];
  publications = 0;
  failed = 0;
  delivered = rw append-nil;
  published = omega arith;
  failures = omega arith;
}

Grows-trans : (a b c : EventBus) → Grows a b → Grows b c → Grows a c
Grows-trans a b c g k = record {
  more = g.more ++ k.more;
  publications = g.publications + k.publications;
  failed = g.failed + k.failed;
  delivered =
      k.delivered ∙ ap (λ ds. ds ++ k.more) g.delivered ∙ append_assoc a.delivered g.more k.more;
  published = omega (arith, g.published, k.published);
  failures = omega (arith, g.failures, k.failures);
}

act-Grows : (a : Action) (b : EventBus) → Grows b (act a b)
act-Grows a b =
    let s = act-SameCounts a b in
    record {
      more = [];
      publications = 0;
      failed = 0;
      delivered = rw append-nil s.delivered;
      published = omega (arith, s.published);
      failures = omega (arith, s.failures);
    }

count_failure-Grows : (raised : Bool) (b : EventBus) → Grows b (count_failure (b, raised))
count_failure-Grows false b = Grows-refl b
count_failure-Grows true b = record {
  more = [];
  publications = 0;
  failed = 1;
  delivered = rw append-nil;
  published = omega arith;
  failures = refl;
}

module _ (calls : Calls)
    (grow : (before : List (Handler × Event)) (h : Handler) (e : Event) (b : EventBus)
      → Grows b (calls before h e b).0) where
  deliver-Grows : (e : Event) (h : Handler) (b : EventBus) → Grows b (deliver calls e h b)
  unfolding deliver
  deliver-Grows e h b =
      let begun : EventBus = record b { delivered = b.delivered ++ (h, e) ∷ [] } in
      let left = calls b.delivered h e begun in
      let one : Grows b begun = record {
        more = (h, e) ∷ [];
        publications = 0;
        failed = 0;
        delivered = refl;
        published = omega arith;
        failures = omega arith;
      } in
      Grows-trans b begun _ one (
        Grows-trans begun left.0 _ (grow b.delivered h e begun) (count_failure-Grows left.1 left.0))

  deliver_all-Grows :
      (e : Event) (hs : List Handler) (b : EventBus) → Grows b (deliver_all calls e hs b)
  unfolding deliver_all
  deliver_all-Grows e [] b = Grows-refl b
  deliver_all-Grows e (h ∷ hs) b =
      Grows-trans b (deliver calls e h b) _ (deliver-Grows e h b)
        (deliver_all-Grows e hs (deliver calls e h b))

  publish_if-Grows :
      (active : Bool) (e : Event) (b : EventBus) → Grows b (publish_if active calls e b).1
  publish_if-Grows false e b = Grows-refl b
  publish_if-Grows true e b =
      let counted : EventBus = record b { events_published = b.events_published + 1 } in
      let one : Grows b counted = record {
        more = [];
        publications = 1;
        failed = 0;
        delivered = rw append-nil;
        published = refl;
        failures = omega arith;
      } in
      Grows-trans b counted _ one (deliver_all-Grows e (handlers_of b e.event_type) counted)

  publish_by-Grows : (e : Event) (b : EventBus) → Grows b (publish_by calls e b).1
  unfolding publish_by
  publish_by-Grows e b = publish_if-Grows b.active e b

  publish_by_counts :
      (e : Event) (b : EventBus)
      → b.active ≡ true
      → b.events_published < (publish_by calls e b).1.events_published
  unfolding publish_by
  publish_by_counts e b on =
      let counted : EventBus = record b { events_published = b.events_published + 1 } in
      let g = (deliver_all-Grows e (handlers_of b e.event_type) counted).published in
      subst (λ a. b.events_published < (publish_if a calls e b).1.events_published) (sym on)
        (omega (arith, g))

-- Whether the handler raises in the end.
unfoldable pub raises : Behaviour → Bool
raises (ends r) = r
raises (does_then a k) = raises k
raises (emits e world k) = raises k

-- Whether the handler publishes nothing.
unfoldable pub is_quiet : Behaviour → Bool
is_quiet (ends r) = true
is_quiet (does_then a k) = is_quiet k
is_quiet (emits e world k) = false

-- Whether the handler begins with a publication.
unfoldable pub opens : Behaviour → Bool
opens (ends r) = false
opens (does_then a k) = false
opens (emits e world k) = true

record HasPerformed (k : Behaviour) (a : EventBus) (r : EventBus × Bool) : Type 0 where
  grows : Grows a r.0
  raised : r.1 ≡ raises k
  quiet : is_quiet k ≡ true → SameCounts a r.0
  speaks : opens k ≡ true → a.active ≡ true → a.events_published < r.0.events_published

perform-HasPerformed : (k : Behaviour) (b : EventBus) → HasPerformed k b (perform k b)
unfolding perform raises is_quiet opens
perform-HasPerformed (ends r) b = record {
  grows = Grows-refl b;
  raised = refl;
  quiet = λ q. SameCounts-refl b;
  speaks = λ o. cc;
}
perform-HasPerformed (does_then a k) b =
    let rest = perform-HasPerformed k (act a b) in
    record {
      grows = Grows-trans b (act a b) _ (act-Grows a b) rest.grows;
      raised = rest.raised;
      quiet = λ q. SameCounts-trans b (act a b) _ (act-SameCounts a b) (rest.quiet q);
      speaks = λ o. cc;
    }
perform-HasPerformed (emits e world k) b =
    let calls : Calls = λ before h event. perform (world before h event) in
    let inner =
      publish_by-Grows calls
        (λ before h event c. (perform-HasPerformed (world before h event) c).grows) e b in
    let after = (publish_by calls e b).1 in
    let rest = perform-HasPerformed k after in
    record {
      grows = Grows-trans b after _ inner rest.grows;
      raised = rest.raised;
      quiet = λ q. cc;
      speaks = λ o on.
          let one =
            publish_by_counts calls
              (λ before h event c. (perform-HasPerformed (world before h event) c).grows) e b on in
          let more = rest.grows.published in omega (arith, one, more);
    }

-- A call of a handler with an event, between two states of the bus: it is delivered, then come the
-- deliveries, publications and failures of what the handler publishes, none if it publishes
-- nothing and at least one publication if it begins with one on an active bus, and a failure is
-- counted if the handler raises.
pub record IsCalled (k : Behaviour) (h : Handler) (e : Event) (a b : EventBus) : Type 0 where
  pub more : List (Handler × Event)
  pub publications : ℕ
  pub failed : ℕ
  pub delivered : b.delivered ≡ a.delivered ++ (h, e) ∷ more
  pub published : b.events_published ≡ a.events_published + publications
  pub failures : b.handler_failures ≡ a.handler_failures + failed + (if raises k then 1 else 0)
  pub quiet :
      is_quiet k ≡ true
      → (b.delivered ≡ a.delivered ++ (h, e) ∷ [])
        × (b.events_published ≡ a.events_published)
        × (b.handler_failures ≡ a.handler_failures + (if raises k then 1 else 0))
  pub speaks : opens k ≡ true → a.active ≡ true → 0 < publications

-- The calls of some handlers, one after the other.
abbrev pub AreCalled : World → Event → List Handler → EventBus → EventBus → Type 0
AreCalled world e [] a b = b ≡ a
AreCalled world e (h ∷ hs) a b =
    (c : EventBus) × IsCalled (world a.delivered h e) h e a c × AreCalled world e hs c b

count_failure_lem :
    (r : Bool) (b : EventBus)
    → ((count_failure (b, r)).delivered ≡ b.delivered)
      × ((count_failure (b, r)).events_published ≡ b.events_published)
      × ((count_failure (b, r)).handler_failures ≡ b.handler_failures + (if r then 1 else 0))
count_failure_lem true b = (refl, refl, refl)
count_failure_lem false b = (refl, refl, omega arith)

module _ (world : World) (e : Event) where
  calls_of : Calls
  calls_of before h event = perform (world before h event)

  deliver-IsCalled :
      (h : Handler) (b : EventBus) → IsCalled (world b.delivered h e) h e b (deliver calls_of e h b)
  unfolding deliver calls_of
  deliver-IsCalled h b =
      let begun : EventBus = record b { delivered = b.delivered ++ (h, e) ∷ [] } in
      let left = perform (world b.delivered h e) begun in
      let did = perform-HasPerformed (world b.delivered h e) begun in
      let (delivered, published, failures) = count_failure_lem left.1 left.0 in
      let g = did.grows in
      let counts = ap (λ r. left.0.handler_failures + (if r then 1 else 0)) did.raised in
      record {
        more = g.more;
        publications = g.publications;
        failed = g.failed;
        delivered = delivered ∙ g.delivered ∙ append_assoc b.delivered ((h, e) ∷ []) g.more;
        published = published ∙ g.published;
        failures =
            failures
            ∙ counts
            ∙ ap (λ n. n + (if raises (world b.delivered h e) then 1 else 0)) g.failures;
        quiet = λ q.
            let s = did.quiet q in
            (
              delivered ∙ s.delivered,
              published ∙ s.published,
              failures
                  ∙ counts
                  ∙ ap (λ n. n + (if raises (world b.delivered h e) then 1 else 0)) s.failures,
            );
        speaks = λ o on.
            let after = did.speaks o on in let total = g.published in omega (arith, after, total);
      }

  deliver_all-AreCalled :
      (hs : List Handler) (b : EventBus) → AreCalled world e hs b (deliver_all calls_of e hs b)
  unfolding deliver_all
  deliver_all-AreCalled [] b = refl
  deliver_all-AreCalled (h ∷ hs) b = (
    deliver calls_of e h b,
    deliver-IsCalled h b,
    deliver_all-AreCalled hs (deliver calls_of e h b),
  )

-- What a publication does, when the bus is active and when it is not.
abbrev pub Published :
    Bool → World → Event → EventBus → Result BusError (Unit {0}) × EventBus → Type 0
Published true world e b (r, b') =
    (r ≡ ok tt)
    × AreCalled world e (handlers_of b e.event_type)
        (record b { events_published = b.events_published + 1 }) b'
Published false world e b (r, b') = (r ≡ err not_running) × (b' ≡ b)

publish_if-Published :
    (active : Bool) (world : World) (e : Event) (b : EventBus)
    → Published active world e b (publish_if active (calls_of world e) e b)
publish_if-Published true world e b =
    (refl, deliver_all-AreCalled world e (handlers_of b e.event_type) _)
publish_if-Published false world e b = (refl, refl)

-- On an active bus, `publish` counts one more event and calls each handler that was subscribed to
-- the type of the event when it was published, once, in the order of their subscription, and no
-- other. Each call is one more delivery of the event and one more failure if the handler raises.
-- Between it and the next call there are other deliveries, publications and failures only if the
-- handler publishes in turn, and there is a publication if it begins with one on an active bus.
-- This holds for handlers that subscribe, unsubscribe, start, stop, clear and publish while they
-- are called. An inactive bus raises and is unchanged.
pub publish-Published :
    (world : World) (e : Event) (b : EventBus) → Published b.active world e b (publish world e b)
unfolding publish publish_by calls_of
publish-Published world e b = publish_if-Published b.active world e b

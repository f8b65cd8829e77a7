-- ===== src/Communication/Transport/Sent.antt =====
-- `send` of core/communication/transport.py.
use core_host.Base.{
  ℕ, ◌+◌, ◌≡◌, refl, sym, ap, subst, Bool, true, false, Option, none, some, List, [], ◌∷◌, ◌++◌,
  Result, ok, err, if◌then◌else◌, append-nil, arith,
}
use core_host.Base.Dict.{lookup}
use core_host.Communication.Messages.{Message}
use core_host.Communication.Transport.{
  Handler, MessageError, Reply, LocalTransport, World, Sending, returns, returns_other, raises,
  not_running, not_registered, handling_failed, invalid_response, notify, finish, send_found,
  send_if, send,
}

-- What the sender gets for what the handler did.
abbrev pub answer_of : Message → Reply → Result MessageError (Option Message)
answer_of m (returns response) = ok response
answer_of m returns_other = err invalid_response
answer_of m raises = err (handling_failed m.destination)

-- How often the handler returned, and which messages are announced as delivered.
abbrev pub returned : Reply → ℕ
returned raises = 0
returned _ = 1

abbrev pub announced : Bool → Message → Reply → List Message
announced listens m (returns response) = if listens then m ∷ [] else []
announced listens m returns_other = []
announced listens m raises = []

-- A message was given to the handler `h`, which replied with `r`.
pub record HasSent (h : Handler) (r : Reply) (m : Message) (t : LocalTransport) (done : Sending)
    : Type 0 where
  pub answer : done.0 ≡ answer_of m r
  pub called : done.1.calls ≡ t.calls ++ (h, m) ∷ []
  pub sent : done.1.messages_sent ≡ t.messages_sent + 1
  pub received : done.1.messages_received ≡ t.messages_received + returned r
  pub notices : done.1.notices ≡ t.notices ++ announced t.listens m r
  pub handlers : done.1.handlers ≡ t.handlers

-- What `send` does, by whether the transport is active and by the handler of the destination.
abbrev pub Sent : World → Message → Bool → Option Handler → LocalTransport → Sending → Type 0
Sent world m false found t done = done ≡ (err not_running, t)
Sent world m true none t done = done ≡ (err (not_registered m.destination), t)
Sent world m true (some h) t done = HasSent h (world t.calls h m) m t done

-- `notify` adds to the notices only.
notify-HasSent :
    (b : Bool) (h : Handler) (m : Message) (response : Option Message) (t u : LocalTransport)
    → u.calls ≡ t.calls ++ (h, m) ∷ []
    → u.messages_sent ≡ t.messages_sent + 1
    → u.messages_received ≡ t.messages_received + 1
    → u.notices ≡ t.notices
    → u.handlers ≡ t.handlers
    → t.listens ≡ b
    → HasSent h (returns response) m t (ok response, notify b m u)
notify-HasSent true h m response t u called sent received notices handlers b = record {
  answer = refl;
  called = called;
  sent = sent;
  received = received;
  notices = rw (b, notices) refl;
  handlers = handlers;
}
notify-HasSent false h m response t u called sent received notices handlers b = record {
  answer = refl;
  called = called;
  sent = sent;
  received = received;
  notices = rw (b, notices, append-nil) refl;
  handlers = handlers;
}

finish-HasSent :
    (h : Handler) (m : Message) (r : Reply) (t : LocalTransport)
    → HasSent h r m t (
        finish m r
          (record t { messages_sent = t.messages_sent + 1; calls = t.calls ++ (h, m) ∷ [] }))
finish-HasSent h m raises t = record {
  answer = refl;
  called = refl;
  sent = refl;
  received = omega arith;
  notices = rw append-nil;
  handlers = refl;
}
finish-HasSent h m returns_other t = record {
  answer = refl;
  called = refl;
  sent = refl;
  received = refl;
  notices = rw append-nil;
  handlers = refl;
}
finish-HasSent h m (returns response) t =
    notify-HasSent t.listens h m response t _ refl refl refl refl refl refl

send_if-Sent :
    (active : Bool) (found : Option Handler) (world : World) (m : Message) (t : LocalTransport)
    → lookup m.destination t.handlers ≡ found
    → Sent world m active found t (send_if active world m t)
send_if-Sent false found world m t here = refl
send_if-Sent true none world m t here = ap (λ f. send_found world m f t) here
send_if-Sent true (some h) world m t here =
    subst (λ f. HasSent h (world t.calls h m) m t (send_found world m f t)) (sym here)
      (finish-HasSent h m (world t.calls h m) t)

-- For handlers that do not use the transport while they are called: `send` raises and changes
-- nothing if the transport is not active, or if no endpoint is registered for the destination.
-- Otherwise it calls the handler of the destination once, counts one more message sent, and one
-- more received unless the handler raised. It returns what the handler returned; it raises if that
-- is no message, or if the handler raised. Only a message that was answered with a message or None
-- is announced, and only to a listener.
pub send-Sent :
    (world : World) (m : Message) (t : LocalTransport)
    → Sent world m t.active (lookup m.destination t.handlers) t (send world m t)
unfolding send
send-Sent world m t = send_if-Sent t.active (lookup m.destination t.handlers) world m t refl

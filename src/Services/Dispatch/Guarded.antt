-- ===== src/Services/Dispatch/Guarded.antt =====
-- What the enforcement of core/services/dispatch.py lets through.
use core_host.Base.{
  ◌≡◌, refl, sym, ap, ◌∙◌, subst, Bool, true, false, String, Option, none, some, Result, ok, err,
  inl, inr, ◌⊎◌, ◌==◌,
}
use core_host.Base.Dict.{lookup}
use core_host.Communication.Messages.{Message}
use core_host.Security.Models.{Identity, Permission, has_permission}
use core_host.Security.Provider.{first_of}
use core_host.Security.Manager.{SecurityManager, SecurityError, authenticate, authorize}
use core_host.Security.Manager.Outcomes.{
  IsRegistered, Accepts, authenticate_passes, authorize_passes,
}
use core_host.Security.Manager.Kept.{authenticate_keeps}
use core_host.Security.Policy.{SecurityPolicy, required}
use core_host.Services.Manager.{World}
use core_host.Services.Requests.{
  ServiceRequest, Reply, ServiceDispatcher, credential_keys, to_request,
}
use core_host.Services.Dispatch.{
  authorize_then, authenticate_then, enforce_identity, enforce_required, enforce_got, enforce_if,
  enforce_active, enforce, Handling, dispatch_unless, handle_request, handle,
}

-- The message names an identity that is registered, that the provider accepts with the credential of
-- the message, and that has the permission.
abbrev pub IsAllowed : SecurityManager → Message → Permission → Type 0
IsAllowed s m perm =
    (id : String) × (i : Identity) × (m.identity_id ≡ some id)
    × IsRegistered id i s
    × Accepts s.provider i (first_of credential_keys m.payload)
    × (has_permission i perm ≡ true)

-- An answer that no operation gave: no service has changed, no handler was called, and it is no success.
abbrev pub IsRefusal : ServiceDispatcher → Reply × ServiceDispatcher → Type 0
IsRefusal d (reply, e) = (e.services ≡ d.services) × (reply.response.success ≡ false)

module _ (m : Message) (perm : Permission) (s : SecurityManager) (q : ServiceRequest)
    (d : ServiceDispatcher) where
  abbrev Verdict : Option Reply × ServiceDispatcher → Type 0
  Verdict (none, e) = IsAllowed s m perm
  Verdict (some reply, e) = IsRefusal d (reply, e)

  authorize-Verdict :
      (id : String) (i : Identity) (t : SecurityManager)
      (call : Result SecurityError Bool × SecurityManager)
      → m.identity_id ≡ some id
      → IsRegistered id i s
      → Accepts s.provider i (first_of credential_keys m.payload)
      → t.identities ≡ s.identities
      → authorize id perm t ≡ call
      → Verdict (authorize_then q m call d)
  authorize-Verdict id i t (err e, u) named there accepted same h = (refl, refl)
  authorize-Verdict id i t (ok b, u) named there accepted same h =
      let (_, _, (j, here, held)) = (authorize_passes id perm t b).0 (ap (λ c. c.0) h) in
      let one : some j ≡ some i = sym here ∙ ap (lookup id) same ∙ there in
      let e : j ≡ i = cc in
      (id, i, named, there, accepted, subst (λ k. has_permission k perm ≡ true) e held)

  authenticate-Verdict :
      (id : String) (call : Result SecurityError Identity × SecurityManager)
      → m.identity_id ≡ some id
      → authenticate id (first_of credential_keys m.payload) s ≡ call
      → Verdict (authenticate_then q m id perm call d)
  authenticate-Verdict id (err e, t) named h = (refl, refl)
  authenticate-Verdict id (ok i, t) named h =
      let c = first_of credential_keys m.payload in
      let (_, there, accepted) = authenticate_passes id c s i (ap (λ x. x.0) h) in
      let same : t.identities ≡ s.identities =
        sym (ap (λ x. x.1.identities) h) ∙ authenticate_keeps id c s in
      authorize-Verdict id i t (authorize id perm t) named there accepted same refl

  identity-Verdict :
      (b : Bool) (id : String)
      → m.identity_id ≡ some id
      → Verdict (enforce_identity b id q m perm s d)
  identity-Verdict true id named = (refl, refl)
  identity-Verdict false id named =
      authenticate-Verdict id (authenticate id (first_of credential_keys m.payload) s) named refl

  required-Verdict :
      (named : Option String)
      → m.identity_id ≡ named
      → Verdict (enforce_required q m perm s d named)
  required-Verdict none h = (refl, refl)
  required-Verdict (some id) h = identity-Verdict (id == "") id h

  -- What `handle` makes of it.
  abbrev pub Outcome : Handling → Type 0
  Outcome (err e, e') = ⊥
  Outcome (ok reply, e') = IsRefusal d (reply, e') ⊎ IsAllowed s m perm

  Verdict-Outcome :
      (world : World) (call : Option Reply × ServiceDispatcher)
      → Verdict call
      → Outcome (dispatch_unless world q m (ok call.0, call.1))
  Verdict-Outcome world (none, e) v = inr v
  Verdict-Outcome world (some reply, e) v = inl v

-- With a policy that is enforced, for a message that asks for an operation that needs a permission:
-- `handle` answers. Either the answer is no success, no service has changed and no handler was called;
-- or the identity of the message is registered, the provider accepts it with the credential of the
-- message, and it has the permission.
pub handle-IsGuarded :
    (world : World) (m : Message) (d : ServiceDispatcher) (s : SecurityManager) (p : SecurityPolicy)
    (q : ServiceRequest) (perm : Permission)
    → d.security ≡ some s
    → d.policy ≡ some p
    → p.enforced ≡ true
    → to_request m ≡ some q
    → required q.service_id q.operation p ≡ ok (some perm)
    → Outcome m perm s q d (handle world m d)
unfolding handle enforce
handle-IsGuarded world m d s p q perm secured ruled on asked needed =
    let P = Outcome m perm s q d in
    let e : handle world m d ≡ dispatch_unless world q m (enforce_got (ok (some perm)) q m s d) =
      ap (λ f. handle_request world f m d) asked
      ∙ ap (λ x. dispatch_unless world q m (enforce_active x d.policy q m d)) secured
      ∙ ap (λ x. dispatch_unless world q m (enforce_active (some s) x q m d)) ruled
      ∙ ap (λ x. dispatch_unless world q m (enforce_if x q m s p d)) on
      ∙ ap (λ x. dispatch_unless world q m (enforce_got x q m s d)) needed in
    subst P (sym e) (
      Verdict-Outcome m perm s q d world (enforce_required q m perm s d m.identity_id)
        (required-Verdict m perm s q d m.identity_id refl))

-- ===== src/Security/Manager/Outcomes.antt =====
-- `authenticate` and `authorize` of core/security/manager.py: who passes, and what is recorded.
use core_host.Base.Scalars.{Scalar, str_of, same_chars-eq}
use core_host.Base.{
  ◌+◌, ◌≡◌, refl, Bool, true, false, String, Option, none, some, ok, inl, inr, ◌↔◌, ◌⊎◌, ◌≢◌, subst,
  ap, sym, ◌∙◌,
}
use core_host.Base.Dict.{lookup}
use core_host.Security.Models.{Identity, Permission, has_permission}
use core_host.Security.Provider.{
  Provider, Answer, accepts, rejects, raises_type_error, raises_identity_not_found,
  raises_authentication_error, raises_other, token, token_keys, first_of, token_authenticate,
  matches, answer,
}
use core_host.Security.Manager.{
  SecurityManager, ask_again, finish_authentication, authenticate, authenticate_if, identity_or,
  authorize_held, authorize_if, authorize_got, authorize,
}

-- The provider accepts the identity with the credential, or it takes no credential and accepts the
-- identity.
abbrev pub Accepts : Provider → Identity → Option Scalar → Type 0
Accepts p i credential =
    (p.authenticate i credential ≡ accepts)
    ⊎ ((p.authenticate i credential ≡ raises_type_error) × (p.authenticate_alone i ≡ accepts))

-- The identity `i` is registered under the id.
abbrev pub IsRegistered : String → Identity → SecurityManager → Type 0
IsRegistered id i m = lookup id m.identities ≡ some i

ask_again-accepts :
    (p : Provider) (i : Identity) (a : Answer)
    → ask_again p i a ≡ accepts
    → (a ≡ accepts) ⊎ ((a ≡ raises_type_error) × (p.authenticate_alone i ≡ accepts))
ask_again-accepts p i accepts h = inl refl
ask_again-accepts p i raises_type_error h = inr (refl, h)
ask_again-accepts p i rejects h = cc
ask_again-accepts p i (raises_identity_not_found x) h = cc
ask_again-accepts p i raises_authentication_error h = cc
ask_again-accepts p i raises_other h = cc

finish-ok :
    (id : String) (i j : Identity) (a : Answer) (m : SecurityManager)
    → (finish_authentication id i a m).0 ≡ ok j
    → (a ≡ accepts) × (i ≡ j)
finish-ok id i j accepts m h = (refl, cc)
finish-ok id i j raises_type_error m h = cc
finish-ok id i j rejects m h = cc
finish-ok id i j (raises_identity_not_found x) m h = cc
finish-ok id i j raises_authentication_error m h = cc
finish-ok id i j raises_other m h = cc

authenticate_if-ok :
    (active : Bool) (found : Option Identity) (id : String) (credential : Option Scalar)
    (m : SecurityManager) (i : Identity)
    → lookup id m.identities ≡ found
    → (authenticate_if active id credential m).0 ≡ ok i
    → (active ≡ true) × (found ≡ some i) × Accepts m.provider i credential
authenticate_if-ok false found id credential m i here h = cc
authenticate_if-ok true none id credential m i here h = let h' = rw here at h in cc
authenticate_if-ok true (some j) id credential m i here h =
    let (accepted, same) = finish-ok id j i _ _ (rw here at h) in
    (
      refl,
      ap some same,
      subst (λ k. Accepts m.provider k credential) same
          (ask_again-accepts m.provider j (m.provider.authenticate j credential) accepted),
    )

-- If `authenticate` returns an identity, the manager is active, the identity is registered under the
-- id, and the provider accepts it with the credential, or accepts it alone after a TypeError.
pub authenticate_passes :
    (id : String) (credential : Option Scalar) (m : SecurityManager) (i : Identity)
    → (authenticate id credential m).0 ≡ ok i
    → (m.active ≡ true) × IsRegistered id i m × Accepts m.provider i credential
unfolding authenticate
authenticate_passes id credential m i h =
    authenticate_if-ok m.active (lookup id m.identities) id credential m i refl h

-- Both are values that print alike.
abbrev pub PrintAlike : Option Scalar → Option Scalar → Type 0
PrintAlike expected credential =
    (e : Scalar) × (c : Scalar) × (expected ≡ some e)
    × (credential ≡ some c)
    × (str_of c ≡ str_of e)

matches_closed :
    (expected credential : Option Scalar)
    → matches false expected credential ≡ true
    → PrintAlike expected credential
matches_closed none c h = cc
matches_closed (some e) none h = cc
matches_closed (some e) (some c) h = (e, c, refl, refl, same_chars-eq (str_of c) (str_of e) h)

answer-accepts : (b : Bool) → answer b ≡ accepts → b ≡ true
answer-accepts true h = refl
answer-accepts false h = cc

answer-no_type_error : (b : Bool) → answer b ≢ raises_type_error
answer-no_type_error true h = cc
answer-no_type_error false h = cc

-- With the token provider, unless it allows the insecure fallback, `authenticate` returns an identity
-- only if the identity has a token, there is a credential, and both have the same `str`.
pub authenticate_closed :
    (id : String) (credential : Option Scalar) (m : SecurityManager) (i : Identity)
    → m.provider ≡ token false
    → (authenticate id credential m).0 ≡ ok i
    → PrintAlike (first_of token_keys i.metadata) credential
authenticate_closed id credential m i provider h =
    let (_, _, passed) = authenticate_passes id credential m i h in
    elim (subst (λ p. Accepts p i credential) provider passed) [
      | inl accepted ↦
          unfold token_authenticate in
          matches_closed (first_of token_keys i.metadata) credential
            (answer-accepts (token_authenticate false i credential) accepted)
      | inr (refused, _) ↦
          absurd (answer-no_type_error (token_authenticate false i credential) refused)
    ]

authorize_if-ok :
    (active : Bool) (found : Option Identity) (id : String) (p : Permission) (m : SecurityManager)
    (b : Bool)
    → lookup id m.identities ≡ found
    → (authorize_if active id p m).0 ≡ ok b
    → (active ≡ true)
      × (b ≡ true)
      × ((i : Identity) × (found ≡ some i) × (has_permission i p ≡ true))
authorize_if-ok false found id p m b here h = cc
authorize_if-ok true none id p m b here h = let h' = rw here at h in cc
authorize_if-ok true (some i) id p m b here h = held (has_permission i p) _ refl (rw here at h)
  where
    held :
        (have : Bool) (n : SecurityManager)
        → has_permission i p ≡ have
        → (authorize_held id p have n).0 ≡ ok b
        → (true ≡ true)
          × (b ≡ true)
          × ((j : Identity) × (some i ≡ some j) × (has_permission j p ≡ true))
    held true n same h' = (refl, cc, (i, refl, same))
    held false n same h' = cc

-- `authorize` returns exactly where the manager is active and the identity is registered under the id
-- with the permission, and then it returns True.
pub authorize_passes :
    (id : String) (p : Permission) (m : SecurityManager) (b : Bool)
    → ((authorize id p m).0 ≡ ok b) ↔ (
        (m.active ≡ true)
        × (b ≡ true)
        × ((i : Identity) × IsRegistered id i m × (has_permission i p ≡ true)))
unfolding authorize
authorize_passes id p m b = (
  λ h. authorize_if-ok m.active (lookup id m.identities) id p m b refl h,
  λ (on, granted, (i, here, held)).
      ap (λ a. (authorize_if a id p m).0) on
      ∙ ap
          (λ f.
            (authorize_got id p (identity_or id f)
              (record m { authorization_count = m.authorization_count + 1 })).0)
          here
      ∙ ap
          (λ a.
            (authorize_held id p a
              (record m { authorization_count = m.authorization_count + 1 })).0)
          held
      ∙ ap ok (sym granted),
)

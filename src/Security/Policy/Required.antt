-- ===== src/Security/Policy/Required.antt =====
-- What `required` answers after `grant` and `revoke`, in core/security/policy.py.
use core_host.Base.{
  ◌≡◌, refl, ap, ◌∙◌, Bool, true, false, ◌&&◌, String, Option, none, some, [], ◌∷◌, if◌then◌else◌,
  ok, arith, ◌==◌, eq_iff,
}
use core_host.Base.Dict.{Dict, lookup, insert, erase, lookup-insert, lookup-erase}
use core_host.Security.Models.{Permission}
use core_host.Security.Policy.{
  SecurityPolicy, validate, operations_of, grant_if, grant, keep_or_drop, revoke_from, revoke,
  required_if, required,
}

-- The requirement that is stored for an operation of a service.
abbrev pub stored : String → String → SecurityPolicy → Option Permission
stored service operation p = lookup operation (operations_of service p)

module _ (s o t u : String) (p : SecurityPolicy) where
  stored-grant :
      (permission : Permission)
      → stored t u (grant_if (ok tt) s o permission p).1
        ≡ (if s == t && o == u then some permission else stored t u p)
  stored-grant permission = ground (
    arith,
    eq_iff s t,
    eq_iff o u,
    lookup-insert s t (insert o permission (operations_of s p)) p.requirements,
    lookup-insert o u permission (operations_of s p),
  )

  stored-keep :
      (os : Dict Permission)
      → stored t u (keep_or_drop s os p) ≡ (if s == t then lookup u os else stored t u p)
  unfolding lookup
  stored-keep [] = ground (arith, eq_iff s t, lookup-erase s t p.requirements)
  stored-keep (x ∷ os) = ground (arith, eq_iff s t, lookup-insert s t (x ∷ os) p.requirements)

  stored-revoke :
      (found : Option (Dict Permission))
      → lookup s p.requirements ≡ found
      → stored t u (revoke_from s o found p) ≡ (if s == t && o == u then none else stored t u p)
  unfolding lookup
  stored-revoke none here = ground (arith, eq_iff s t, here)
  stored-revoke (some os) here =
      ground (arith, eq_iff s t, eq_iff o u, here, stored-keep (erase o os), lookup-erase o u os)

required-grant :
    (s o t u : String) (permission : Permission) (p : SecurityPolicy)
    → validate s o ≡ ok tt
    → validate t u ≡ ok tt
    → required t u (grant s o permission p).1
      ≡ (if s == t && o == u then ok (some permission) else required t u p)
unfolding required grant
required-grant s o t u permission p valid asked =
    rw (valid, asked) (ap ok (stored-grant s o t u p permission) ∙ ok-if (s == t && o == u))
  where
    ok-if :
        (b : Bool)
        → ok (if b then some permission else stored t u p)
          ≡ (if b then ok (some permission) else required_if (ok tt) t u p)
    ok-if true = refl
    ok-if false = refl

required-revoke :
    (s o t u : String) (p : SecurityPolicy)
    → validate s o ≡ ok tt
    → validate t u ≡ ok tt
    → required t u (revoke s o p).1 ≡ (if s == t && o == u then ok none else required t u p)
unfolding required revoke
required-revoke s o t u p valid asked =
    rw (valid, asked)
      (ap ok (stored-revoke s o t u p (lookup s p.requirements) refl) ∙ ok-if (s == t && o == u))
  where
    ok-if :
        (b : Bool)
        → ok (if b then none else stored t u p) ≡ (if b then ok none else required_if (ok tt) t u p)
    ok-if true = refl
    ok-if false = refl

-- For names that are not blank: after a `grant`, `required` answers with the permission granted for that
-- operation of that service; after a `revoke`, it answers with None for that operation of that service;
-- and both leave its answer for any other as it was.
pub required_lem :
    (s o t u : String) (permission : Permission) (p : SecurityPolicy)
    → validate s o ≡ ok tt
    → validate t u ≡ ok tt
    → (required t u (grant s o permission p).1
        ≡ (if s == t && o == u then ok (some permission) else required t u p))
      × (required t u (revoke s o p).1 ≡ (if s == t && o == u then ok none else required t u p))
required_lem s o t u permission p valid asked =
    (required-grant s o t u permission p valid asked, required-revoke s o t u p valid asked)

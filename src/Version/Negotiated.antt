-- ===== src/Version/Negotiated.antt =====
-- `negotiate` of core/version.py.
use Prim.Native.Nat.{Ordering, compare}
use core_host.Base.{
  ℕ, ◌≡◌, refl, sym, ap, ◌∙◌, true, false, not, inl, inr, Option, none, some, [], ◌∷◌, arith,
  Bool-cases,
}
use core_host.Base.Chars.{Chars}
use core_host.Base.Decimal.{ℤ, pos, negsuc}
use core_host.Version.{
  SemanticVersion, version, order, compare_ints, then_by, is_gt, lt, le, gt, ge, latest,
  legacy_versions, legacy_for, negotiate_parsed, parse_given, parse, negotiate, at_least,
  supports_tls,
}
use core_host.Version.Printed.{parse-show}

-- From 0.1.0 to the latest version.
abbrev pub IsOffered : SemanticVersion → Type 0
IsOffered v = (le (version 0 1 0) v ≡ true) × (le v latest ≡ true)

-- `legacy_for` answers with one of the legacy versions.
legacy_for_any :
    (P : SemanticVersion → Type 0) (v : SemanticVersion)
    → P (version 0 2 1)
    → P (version 0 2 0)
    → P (version 0 1 0)
    → P (legacy_for v legacy_versions)
unfolding legacy_for
legacy_for_any P v one two three = elim (Bool-cases (le (version 0 2 1) v)) [
  | inl first ↦ rw first one
  | inr no_first ↦ elim (Bool-cases (le (version 0 2 0) v)) [
    | inl second ↦ rw (no_first, second) two
    | inr no_second ↦ elim (Bool-cases (le (version 0 1 0) v)) [
      | inl third ↦ rw (no_first, no_second, third) three
      | inr no_third ↦ rw (no_first, no_second, no_third) one
    ]
  ]
]

legacy_for-IsOffered : (v : SemanticVersion) → IsOffered (legacy_for v legacy_versions)
unfolding order
legacy_for-IsOffered v = legacy_for_any IsOffered v (refl, refl) (refl, refl) (refl, refl)

legacy_for-old : (v : SemanticVersion) → lt (legacy_for v legacy_versions) (version 0 3 0) ≡ true
unfolding order
legacy_for-old v = legacy_for_any (λ w. lt w (version 0 3 0) ≡ true) v refl refl refl

abbrev flip : Ordering → Ordering
flip Ordering.lt = Ordering.gt
flip Ordering.eq = Ordering.eq
flip Ordering.gt = Ordering.lt

flip-compare : (m n : ℕ) → compare m n ≡ flip (compare n m)
flip-compare m n = ground arith

flip-compare_ints : (a b : ℤ) → compare_ints a b ≡ flip (compare_ints b a)
flip-compare_ints (pos m) (pos n) = flip-compare m n
flip-compare_ints (pos m) (negsuc n) = refl
flip-compare_ints (negsuc m) (pos n) = refl
flip-compare_ints (negsuc m) (negsuc n) = flip-compare n m

flip-then_by : (a b : Ordering) → flip (then_by a b) ≡ then_by (flip a) (flip b)
flip-then_by Ordering.lt b = refl
flip-then_by Ordering.eq b = refl
flip-then_by Ordering.gt b = refl

-- The order of versions is antisymmetric.
flip-order : (a b : SemanticVersion) → order a b ≡ flip (order b a)
unfolding order
flip-order a b =
    let x = flip-compare_ints a.major b.major in
    let y = flip-compare_ints a.minor b.minor in
    let z = flip-compare_ints a.patch b.patch in
    rw (x, y, z)
      (ap (then_by (flip (compare_ints b.major a.major)))
          (sym (flip-then_by (compare_ints b.minor a.minor) (compare_ints b.patch a.patch)))
        ∙ sym (
            flip-then_by (compare_ints b.major a.major)
              (then_by (compare_ints b.minor a.minor) (compare_ints b.patch a.patch))))

le_of_gt : (a b : SemanticVersion) → gt a b ≡ true → le b a ≡ true
le_of_gt a b h = ap (λ o. not (is_gt o)) (flip-order b a) ∙ down (order a b) h
  where
    down : (o : Ordering) → is_gt o ≡ true → not (is_gt (flip o)) ≡ true
    down Ordering.gt h = refl
    down Ordering.lt h = cc
    down Ordering.eq h = cc

le_refl : (a : SemanticVersion) → le a a ≡ true
le_refl a = own (order a a) (flip-order a a)
  where
    own : (o : Ordering) → o ≡ flip o → not (is_gt o) ≡ true
    own Ordering.lt h = refl
    own Ordering.eq h = refl
    own Ordering.gt h = cc

-- A version that is not before 0.3.0 is not before 0.1.0.
late :
    (a b c : ℤ)
    → lt (record { major = a; minor = b; patch = c }) (version 0 3 0) ≡ false
    → le (version 0 1 0) (record { major = a; minor = b; patch = c }) ≡ true
unfolding order
late (pos m) (pos n) (pos p) h = ground arith
late (pos m) (pos n) (negsuc p) h = ground arith
late (pos m) (negsuc n) c h = ground arith
late (negsuc m) b c h = cc

-- A version above the latest one is not before 0.3.0.
newer :
    (a b c : ℤ)
    → gt (record { major = a; minor = b; patch = c }) latest ≡ true
    → ge (record { major = a; minor = b; patch = c }) (version 0 3 0) ≡ true
unfolding order
newer (pos m) (pos n) (pos p) h = ground arith
newer (pos m) (pos n) (negsuc p) h = ground arith
newer (pos m) (negsuc n) c h = ground arith
newer (negsuc m) b c h = cc

negotiated-IsOffered : (client : Option SemanticVersion) → IsOffered (negotiate_parsed client)
negotiated-IsOffered none = unfold order in (refl, refl)
negotiated-IsOffered (some v) = elim (Bool-cases (gt v latest)) [
  | inl new ↦ rw new (unfold order in (refl, refl))
  | inr not_new ↦ elim (Bool-cases (lt v (version 0 3 0))) [
    | inl old ↦ rw (not_new, old) (legacy_for-IsOffered v)
    | inr not_old ↦ rw (not_new, not_old) (late v.major v.minor v.patch not_old, ap not not_new)
  ]
]

legacy_for-le :
    (v : SemanticVersion) → le (version 0 1 0) v ≡ true → le (legacy_for v legacy_versions) v ≡ true
unfolding legacy_for
legacy_for-le v known = elim (Bool-cases (le (version 0 2 1) v)) [
  | inl first ↦ rw first first
  | inr no_first ↦ elim (Bool-cases (le (version 0 2 0) v)) [
    | inl second ↦ rw (no_first, second) second
    | inr no_second ↦ rw (no_first, no_second, known) known
  ]
]

negotiated-le :
    (v : SemanticVersion) → le (version 0 1 0) v ≡ true → le (negotiate_parsed (some v)) v ≡ true
negotiated-le v known = elim (Bool-cases (gt v latest)) [
  | inl new ↦ rw new (le_of_gt v latest new)
  | inr not_new ↦ elim (Bool-cases (lt v (version 0 3 0))) [
    | inl old ↦ rw (not_new, old) (legacy_for-le v known)
    | inr not_old ↦ rw (not_new, not_old) (le_refl v)
  ]
]

-- Whatever the client sends, `negotiate` answers with a text that is parsed to a version from 0.1.0 to
-- the latest one, and that is not newer than the client's, if the client's is not before 0.1.0.
pub negotiate-IsOffered :
    (client : Option Chars)
    → (v : SemanticVersion) × (parse (negotiate client) ≡ some v)
      × IsOffered v
      × ((u : SemanticVersion)
          → parse_given client ≡ some u
          → le (version 0 1 0) u ≡ true
          → le v u ≡ true)
unfolding negotiate
negotiate-IsOffered client =
    let v = negotiate_parsed (parse_given client) in
    (
      v,
      parse-show v,
      negotiated-IsOffered (parse_given client),
      λ u sent known. rw sent (negotiated-le u known),
    )

newest : ge latest (version 0 3 0) ≡ true
unfolding order
newest = refl

-- TLS is offered exactly to the clients that send a version that is not before 0.3.0.
pub supports_tls_lem :
    (client : Option Chars) (u : SemanticVersion)
    → parse_given client ≡ some u
    → supports_tls client ≡ ge u (version 0 3 0)
unfolding supports_tls negotiate
supports_tls_lem none u sent = cc
supports_tls_lem (some []) u sent = cc
supports_tls_lem (some (c ∷ s)) u sent =
    ap (at_least (version 0 3 0)) (parse-show (negotiate_parsed (parse (c ∷ s))))
    ∙ ap (λ o. at_least (version 0 3 0) (some (negotiate_parsed o))) sent
    ∙ same
  where
    same : ge (negotiate_parsed (some u)) (version 0 3 0) ≡ ge u (version 0 3 0)
    same = elim (Bool-cases (gt u latest)) [
      | inl new ↦ rw new (newest ∙ sym (newer u.major u.minor u.patch new))
      | inr not_new ↦ elim (Bool-cases (lt u (version 0 3 0))) [
        | inl old ↦ rw (not_new, old) (ap not (legacy_for-old u))
        | inr not_old ↦ rw (not_new, not_old) (ap not not_old)
      ]
    ]

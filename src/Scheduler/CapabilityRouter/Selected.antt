-- ===== src/Scheduler/CapabilityRouter/Selected.antt =====
-- `select_model_profile` of core/scheduler/capability_router.py: which profile it returns.
use core_host.Base.{
  ◌≢◌, ◌&&◌, ◌<◌, ◌∙◌, ℕ, ◌≤◌, ◌≡◌, refl, sym, ap, subst, true, false, String, Option, none, some,
  List, [], ◌∷◌, ltb, inl, inr, ◌⊎◌, All, All-map, Bool-cases, arith, eq_iff, eq_refl, ◌==◌,
}
use core_host.Base.Decimal.{ℤ, pos, negsuc}
use core_host.Base.Dict.{Dict, lookup, has, values, IsDistinct, insert-IsDistinct}
use core_host.Base.Sorted.{All-sort_by, from-sort_by, Descends, sort_by-Descends}
use core_host.Scheduler.CapabilityRouter.{
  ModelProfile, DeviceCaps, CapabilityRouter, put, put_all, matches_capabilities, score_for,
  has_room, get_usage, scored, candidates, at_least, ranked, first, best, preferred_found, or_best,
  select_model_profile,
}

module _ {ℓ κ} {V : Type ℓ} (P : V → Type κ) where
  All-lookup : (k : String) (v : V) (d : Dict V) → lookup k d ≡ some v → All P (values d) → P v
  unfolding lookup
  All-lookup k v [] here all = cc
  All-lookup k v ((j, w) ∷ d) here (p, ps) = elim (Bool-cases (j == k)) [
    | inl same ↦ let e : w ≡ v = ground (arith, here) in subst (λ x. P x) e p
    | inr other ↦ All-lookup k v d (ground (arith, here)) ps
  ]

-- The entry stands in the dictionary.
abbrev pub IsIn {ℓ} : {V : Type ℓ} → Dict V → V → Type ℓ
IsIn d v = (k : String) × (lookup k d ≡ some v)

module _ {ℓ} {V : Type ℓ} where
  IsIn-cons : (j : String) (w v : V) (d : Dict V) → has j d ≡ false → IsIn d v → IsIn ((j, w) ∷ d) v
  unfolding has lookup
  IsIn-cons j w v d new (k, here) = (k, ground (arith, here, eq_iff j k))

  values-IsIn : (d : Dict V) → IsDistinct d → All (IsIn d) (values d)
  unfolding lookup
  values-IsIn [] h = tt
  values-IsIn ((j, w) ∷ d) (new, h) = (
    (j, rw eq_refl),
    All-map {Q = IsIn ((j, w) ∷ d)} (λ v p. IsIn-cons j w v d new p) (values d) (values-IsIn d h),
  )

-- A score that is not above 0 counts as 0.
abbrev pub points : ℤ → ℕ
points (pos n) = n
points (negsuc n) = 0

score-matches :
    (p : ModelProfile) (c : DeviceCaps) (n : ℕ)
    → score_for p c ≡ pos n
    → matches_capabilities p c ≡ true
unfolding score_for
score-matches p c n h = elim (Bool-cases (matches_capabilities p c)) [
  | inl fits ↦ fits
  | inr misses ↦ let h' = rw misses at h in cc
]

module _ (r : CapabilityRouter) (c : DeviceCaps) where
  -- A profile of the list that fits and has room.
  abbrev Stands : (ModelProfile → Type 0) → ℕ × ModelProfile → Type 0
  Stands P (n, p) =
      (n ≡ points (score_for p c)) × (matches_capabilities p c ≡ true) × (has_room p r ≡ true) × P p

  scored_sound :
      (P : ModelProfile → Type 0) (p : ModelProfile) (z : ℤ) (rest : List (ℕ × ModelProfile))
      → score_for p c ≡ z
      → has_room p r ≡ true
      → P p
      → All (Stands P) rest
      → All (Stands P) (scored z p rest)
  scored_sound P p (negsuc n) rest same room here more = more
  scored_sound P p (pos n) rest same room here more = elim (Bool-cases (ltb 0 n)) [
    | inl some_score ↦
        rw some_score ((sym (ap points same), score-matches p c n same, room, here), more)
    | inr no_score ↦ rw no_score more
  ]

  candidates_sound :
      (P : ModelProfile → Type 0) (ps : List ModelProfile)
      → All P ps
      → All (Stands P) (candidates r c ps)
  unfolding candidates
  candidates_sound P [] h = tt
  candidates_sound P (p ∷ ps) (here, h) = elim (Bool-cases (has_room p r)) [
    | inl room ↦ rw room (
        scored_sound P p (score_for p c) (candidates r c ps) refl room here
          (candidates_sound P ps h))
    | inr full ↦ rw full (candidates_sound P ps h)
  ]

  -- The score of a profile with room is at most the bound.
  abbrev pub IsAtMost : ℕ → ModelProfile → Type 0
  IsAtMost bound q = points (score_for q c) ≤ bound ⊎ (has_room q r ≡ false)

  scored_complete :
      (bound : ℕ) (p : ModelProfile) (z : ℤ) (rest : List (ℕ × ModelProfile))
      → All (λ e. e.0 ≤ bound) (scored z p rest)
      → (points z ≤ bound) × All (λ e. e.0 ≤ bound) rest
  scored_complete bound p (negsuc n) rest all = (omega arith, all)
  scored_complete bound p (pos n) rest all = elim (Bool-cases (ltb 0 n)) [
    | inl some_score ↦ rw some_score at all
    | inr no_score ↦ let h = rw no_score at all in (ground (arith, no_score), h)
  ]

  candidates_complete :
      (bound : ℕ) (ps : List ModelProfile)
      → All (λ e. e.0 ≤ bound) (candidates r c ps)
      → All (IsAtMost bound) ps
  unfolding candidates
  candidates_complete bound [] all = tt
  candidates_complete bound (p ∷ ps) all = elim (Bool-cases (has_room p r)) [
    | inl room ↦
        let (low, rest) =
          scored_complete bound p (score_for p c) (candidates r c ps) (rw room at all) in
        (inl low, candidates_complete bound ps rest)
    | inr full ↦ (inr full, candidates_complete bound ps (rw full at all))
  ]

ranked-Descends : (cs : List (ℕ × ModelProfile)) → Descends (λ e. e.0) (ranked cs)
unfolding ranked
ranked-Descends =
    sort_by-Descends at_least (λ e. e.0) (λ (m, p) (n, q) h. ground arith)
      (λ (m, p) (n, q) h. ground arith)

-- The profile takes one more use.
abbrev pub HasRoom : CapabilityRouter → ModelProfile → Type 0
HasRoom r p = get_usage p.profile_id r < p.max_concurrent

has_room-HasRoom : (p : ModelProfile) (r : CapabilityRouter) → has_room p r ≡ true → HasRoom r p
unfolding has_room
has_room-HasRoom p r h = ground (arith, h)

not_full : (p : ModelProfile) (r : CapabilityRouter) → has_room p r ≡ false → ¬ HasRoom r p
unfolding has_room
not_full p r h room = ground (arith, h, room)

-- A registered profile that fits the device and has room.
abbrev pub IsFit : CapabilityRouter → DeviceCaps → ModelProfile → Type 0
IsFit r c p = IsIn r.model_profiles p × (matches_capabilities p c ≡ true) × HasRoom r p

-- No registered profile with room has a score above the bound.
abbrev pub IsBound : CapabilityRouter → DeviceCaps → ℕ → Type 0
IsBound r c bound =
    (id : String) (q : ModelProfile)
    → lookup id r.model_profiles ≡ some q
    → HasRoom r q
    → points (score_for q c) ≤ bound

at_most :
    (r : CapabilityRouter) (c : DeviceCaps) (bound : ℕ) (q : ModelProfile)
    → IsAtMost r c bound q
    → HasRoom r q
    → points (score_for q c) ≤ bound
at_most r c bound q (inl low) room = low
at_most r c bound q (inr full) room = absurd (not_full q r full room)

-- Each profile stays registered once.
pub put_all-IsDistinct :
    (ps : List ModelProfile) (r : CapabilityRouter)
    → IsDistinct r.model_profiles
    → IsDistinct (put_all ps r).model_profiles
unfolding put_all
put_all-IsDistinct [] r h = h
put_all-IsDistinct (p ∷ ps) r h =
    put_all-IsDistinct ps (put p r) (insert-IsDistinct p.profile_id p r.model_profiles h)

-- The profile is asked for by its name, is registered under it, fits the device and has room.
abbrev pub IsPreferred : CapabilityRouter → DeviceCaps → Option String → ModelProfile → Type 0
IsPreferred r c none p = ⊥
IsPreferred r c (some id) p =
    (id ≢ "")
    × (lookup id r.model_profiles ≡ some p)
    × (matches_capabilities p c ≡ true)
    × (get_usage id r < p.max_concurrent)

-- A best profile with room, or none where no profile with room has a score above 0.
abbrev pub IsBest : CapabilityRouter → DeviceCaps → Option ModelProfile → Type 0
IsBest r c (some p) = IsFit r c p × IsBound r c (points (score_for p c))
IsBest r c none = IsBound r c 0

-- The profile that is preferred; or a best one, where none is preferred.
abbrev pub IsSelected : CapabilityRouter → DeviceCaps → Option String → Option ModelProfile → Type 0
IsSelected r c wanted result =
    ((p : ModelProfile) × IsPreferred r c wanted p × (result ≡ some p))
    ⊎ (((p : ModelProfile) → ¬ IsPreferred r c wanted p) × IsBest r c result)

module _ (r : CapabilityRouter) (c : DeviceCaps) (distinct : IsDistinct r.model_profiles) where
  entries-IsBound :
      (bound : ℕ)
      → All (λ e. e.0 ≤ bound) (ranked (candidates r c (values r.model_profiles)))
      → IsBound r c bound
  unfolding ranked
  entries-IsBound bound h id q here room =
      at_most r c bound q
        (All-lookup (IsAtMost r c bound) id q r.model_profiles here (
          candidates_complete r c bound (values r.model_profiles) (
            from-sort_by at_least (λ e. e.0 ≤ bound) (candidates r c (values r.model_profiles)) h)))
        room

  first-IsBest :
      (cs : List (ℕ × ModelProfile))
      → All (Stands r c (IsIn r.model_profiles)) cs
      → Descends (λ e. e.0) cs
      → ((bound : ℕ) → All (λ e. e.0 ≤ bound) cs → IsBound r c bound)
      → IsBest r c (first cs)
  first-IsBest [] sound falls all = all 0 tt
  first-IsBest ((n, p) ∷ cs) ((same, fits, room, here), sound) (below, falls) all =
      ((here, fits, has_room-HasRoom p r room), rw (← same) (all n (omega arith, below)))

  best-IsBest : IsBest r c (best r c)
  best-IsBest =
      first-IsBest (ranked (candidates r c (values r.model_profiles)))
        (unfold ranked in
          All-sort_by at_least (Stands r c (IsIn r.model_profiles))
            (candidates r c (values r.model_profiles))
            (candidates_sound r c (IsIn r.model_profiles) (values r.model_profiles)
              (values-IsIn r.model_profiles distinct)))
        (ranked-Descends (candidates r c (values r.model_profiles))) entries-IsBound

  none_found :
      (id : String) (found : Option ModelProfile)
      → lookup id r.model_profiles ≡ found
      → ((p : ModelProfile)
          → ¬ (
              (found ≡ some p)
              × (matches_capabilities p c ≡ true)
              × (get_usage id r < p.max_concurrent)))
      → (p : ModelProfile) → ¬ IsPreferred r c (some id) p
  none_found id found here apart p (_, there, fits, room) = apart p (sym here ∙ there, fits, room)

  found-IsSelected :
      (id : String) (found : Option ModelProfile)
      → id ≢ ""
      → lookup id r.model_profiles ≡ found
      → IsSelected r c (some id) (or_best (preferred_found found id c r) c r)
  found-IsSelected id none given here =
      inr (none_found id none here (λ p (e, _, _). cc), best-IsBest)
  found-IsSelected id (some p) given here =
      elim (Bool-cases (matches_capabilities p c && ltb (get_usage id r) p.max_concurrent)) [
        | inl can ↦ rw can (inl (p, (given, here, ground (arith, can), ground (arith, can)), refl))
        | inr cannot ↦ rw cannot (
            inr (
              none_found id (some p) here (λ q (e, fits, room).
                  let same : p ≡ q = cc in
                  let fits' = subst (λ x. matches_capabilities x c ≡ true) (sym same) fits in
                  let room' = subst (λ x. get_usage id r < x.max_concurrent) (sym same) room in
                  ground (arith, cannot, fits', room')),
              best-IsBest,
            ))
      ]

-- With each profile registered once. If the name that is asked for is not empty, and the profile that
-- is registered under it fits the device and has room, `select_model_profile` returns this profile.
-- Otherwise it returns a registered profile that fits the device and has room, whose score no other
-- profile with room exceeds; or None, where no profile with room has a score above 0.
pub select_model_profile-IsSelected :
    (r : CapabilityRouter) (c : DeviceCaps) (wanted : Option String)
    → IsDistinct r.model_profiles
    → IsSelected r c wanted (select_model_profile c wanted r)
unfolding select_model_profile
select_model_profile-IsSelected r c none distinct = inr (λ p h. h, best-IsBest r c distinct)
select_model_profile-IsSelected r c (some id) distinct = elim (Bool-cases (id == "")) [
  | inl empty ↦
      rw empty
        (inr (λ p (given, _, _, _). given ((eq_iff id "").0 empty), best-IsBest r c distinct))
  | inr named ↦ rw named (
      found-IsSelected r c distinct id (lookup id r.model_profiles)
        (λ e. ground (arith, named, e, eq_iff id "")) refl)
]

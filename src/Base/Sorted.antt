-- ===== src/Base/Sorted.antt =====
-- `sorted` of a list of texts, in the order of code points, and the order by a numeric key.
use Prim.Native.Nat.{ℕ, ◌≤◌, Ordering}
use Prim.Native.String.{String, compare}
use mathlib.Core.Path.{◌≡◌, refl}
use mathlib.Core.Bool.{Bool, true, false, ◌||◌}
use mathlib.Core.List.{List, [], ◌∷◌}
use native.Mathlib.Omega.{arith}
use text.Mathlib.Text.{◌==◌}
use mathlib.Core.Logic.{inl, inr}
use core_host.Base.Tests.{if◌then◌else◌, Bool-cases}
use core_host.Base.Lists.{All, All-map}
use core_host.Base.Names.{elem}

-- `a <= b` on texts
abbrev pub text_le : String → String → Bool
text_le a b = elim (compare a b) [ Ordering.gt ↦ false | _ ↦ true ]

module _ {ℓ} {A : Type ℓ} (le : A → A → Bool) where
  unfoldable pub place : A → List A → List A
  place x [] = x ∷ []
  place x (y ∷ ys) = let rest = place x ys in if le x y then x ∷ y ∷ ys else y ∷ rest

  -- a stable sort by the order `le`
  unfoldable pub sort_by : List A → List A
  unfolding place
  sort_by [] = []
  sort_by (x ∷ xs) = place x (sort_by xs)

unfoldable pub sorted : List String → List String
unfolding sort_by
sorted = sort_by text_le

elem-place :
    (le : String → String → Bool) (x y : String) (ys : List String)
    → elem x (place le y ys) ≡ y == x || elem x ys
unfolding elem place
elem-place le x y [] = refl
elem-place le x y (z ∷ ys) = ground (arith, elem-place le x y ys)

elem-sort_by :
    (le : String → String → Bool) (x : String) (xs : List String)
    → elem x (sort_by le xs) ≡ elem x xs
unfolding elem sort_by
elem-sort_by le x [] = refl
elem-sort_by le x (y ∷ ys) = ground (arith, elem-place le x y (sort_by le ys), elem-sort_by le x ys)

-- Sorting keeps the members.
pub elem-sorted : (x : String) (xs : List String) → elem x (sorted xs) ≡ elem x xs
unfolding sorted
elem-sorted x xs = elem-sort_by text_le x xs

test_sorted : sorted ("runtime" ∷ "bus" ∷ "cli" ∷ []) ≡ "bus" ∷ "cli" ∷ "runtime" ∷ []
unfolding sorted
test_sorted = refl

module _ {ℓ κ} {A : Type ℓ} (le : A → A → Bool) (P : A → Type κ) where
  All-place : (x : A) (ys : List A) → P x → All P ys → All P (place le x ys)
  unfolding place
  All-place x [] p ps = (p, tt)
  All-place x (y ∷ ys) p (q, qs) = elim (Bool-cases (le x y)) [
    | inl before ↦ rw before (p, (q, qs))
    | inr after ↦ rw after (q, All-place x ys p qs)
  ]

  -- Sorting keeps what holds of all entries.
  pub All-sort_by : (xs : List A) → All P xs → All P (sort_by le xs)
  unfolding sort_by
  All-sort_by [] h = tt
  All-sort_by (x ∷ xs) (p, ps) = All-place x (sort_by le xs) p (All-sort_by xs ps)

  from-place : (x : A) (ys : List A) → All P (place le x ys) → P x × All P ys
  unfolding place
  from-place x [] (p, _) = (p, tt)
  from-place x (y ∷ ys) h = elim (Bool-cases (le x y)) [
    | inl before ↦ let h' = rw before at h in (h'.0, h'.1)
    | inr after ↦ let h' = rw after at h in let (p, ps) = from-place x ys h'.1 in (p, (h'.0, ps))
  ]

  -- What holds of all entries of the sorted list held of all before.
  pub from-sort_by : (xs : List A) → All P (sort_by le xs) → All P xs
  unfolding sort_by
  from-sort_by [] h = tt
  from-sort_by (x ∷ xs) h = let (p, ps) = from-place x (sort_by le xs) h in (p, from-sort_by xs ps)

-- Each entry has the largest key of those from it on.
abbrev pub Descends {ℓ} : {A : Type ℓ} → (A → ℕ) → List A → Type 0
Descends key [] = Unit
Descends key (x ∷ xs) = All (λ y. key y ≤ key x) xs × Descends key xs

module _ {ℓ} {A : Type ℓ} (le : A → A → Bool) (key : A → ℕ)
    (down : (x y : A) → le x y ≡ true → key y ≤ key x)
    (up : (x y : A) → le x y ≡ false → key x ≤ key y) where
  place-Descends : (x : A) (ys : List A) → Descends key ys → Descends key (place le x ys)
  unfolding place
  place-Descends x [] h = (tt, tt)
  place-Descends x (y ∷ ys) (below, h) = elim (Bool-cases (le x y)) [
    | inl before ↦
        let y_le : key y ≤ key x = down x y before in
        rw before ((y_le, All-map (λ z p. omega arith) ys below), (below, h))
    | inr after ↦
        rw after
          (All-place le (λ z. key z ≤ key y) x ys (up x y after) below, place-Descends x ys h)
  ]

  -- Sorting by an order that agrees with a numeric key puts the largest key first.
  pub sort_by-Descends : (xs : List A) → Descends key (sort_by le xs)
  unfolding sort_by
  sort_by-Descends [] = tt
  sort_by-Descends (x ∷ xs) = place-Descends x (sort_by le xs) (sort_by-Descends xs)

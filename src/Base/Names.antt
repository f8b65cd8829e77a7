-- ===== src/Base/Names.antt =====
-- Python sets of texts as lists: membership, `add`, `discard` and `remove`.
use Prim.Native.Nat.{ℕ, ◌+◌, ◌≤◌, ◌<◌}
use Prim.Native.String.{String}
use mathlib.Core.Path.{◌≡◌, refl}
use mathlib.Core.Logic.{◌⊎◌}
use mathlib.Core.Bool.{Bool, true, false, not, ◌&&◌, ◌||◌}
use mathlib.Core.List.{List, [], ◌∷◌, ◌++◌, foldl}
use native.Mathlib.Omega.{arith}
use text.Mathlib.Text.{◌==◌}
use text.Mathlib.TextEquality.{eq_iff}
use text.Mathlib.TextPositions.{eq_refl}
use core_host.Base.Tests.{if◌then◌else◌}
use core_host.Base.Lists.{length}

-- `x in xs`
unfoldable pub elem : String → List String → Bool
elem x [] = false
elem x (y ∷ ys) = y == x || elem x ys

-- `xs.add(x)`
unfoldable pub add : String → List String → List String
unfolding elem
add x xs = if elem x xs then xs else xs ++ x ∷ []

-- `set(xs)`
unfoldable pub to_set : List String → List String
unfolding add
to_set = foldl (λ s x. add x s) []

-- `xs.discard(x)`
unfoldable pub discard : String → List String → List String
discard x [] = []
discard x (y ∷ ys) = let rest = discard x ys in if y == x then rest else y ∷ rest

-- `xs.remove(x)` of a list, and of a set that has no entry twice
unfoldable pub remove_first : String → List String → List String
remove_first x [] = []
remove_first x (y ∷ ys) = let rest = remove_first x ys in if y == x then ys else y ∷ rest

-- How many entries of the second list are not in the first.
unfoldable pub outside : List String → List String → ℕ
unfolding elem
outside seen [] = 0
outside seen (k ∷ ks) = (if elem k seen then 0 else 1) + outside seen ks

pub elem-append : (x : String) (xs ys : List String) → elem x (xs ++ ys) ≡ elem x xs || elem x ys
unfolding elem
elem-append x [] ys = refl
elem-append x (y ∷ xs) ys = ground (arith, elem-append x xs ys)

pub elem_snoc : (x y : String) (xs : List String) → elem x (xs ++ y ∷ []) ≡ elem x xs || y == x
unfolding elem
elem_snoc x y xs = ground (arith, elem-append x xs (y ∷ []))

pub elem_snoc_self : (x : String) (xs : List String) → elem x (xs ++ x ∷ []) ≡ true
elem_snoc_self x xs = ground (arith, elem_snoc x x xs, eq_refl x)

pub elem_snoc_of_elem :
    (x y : String) (xs : List String) → elem x xs ≡ true → elem x (xs ++ y ∷ []) ≡ true
elem_snoc_of_elem x y xs h = ground (arith, elem_snoc x y xs)

pub elem-cons_self : (x : String) (xs : List String) → elem x (x ∷ xs) ≡ true
unfolding elem
elem-cons_self x xs = rw eq_refl

pub elem-add : (x y : String) (xs : List String) → elem x (add y xs) ≡ elem x xs || y == x
unfolding add
elem-add x y xs = ground (arith, elem_snoc x y xs, eq_iff y x)

pub elem-add-cases :
    (x y : String) (xs : List String) → elem x (add y xs) ≡ true → (elem x xs ≡ true) ⊎ (y ≡ x)
elem-add-cases x y xs h = ground (arith, elem-add x y xs, eq_iff y x)

remove_first_snoc :
    (x : String) (xs : List String) → elem x xs ≡ false → remove_first x (xs ++ x ∷ []) ≡ xs
unfolding elem remove_first
remove_first_snoc x [] h = rw eq_refl
remove_first_snoc x (y ∷ xs) h = ground (arith, remove_first_snoc x xs)

-- To remove what was just added gives the set back.
pub remove_first-add :
    (x : String) (xs : List String) → elem x xs ≡ false → remove_first x (add x xs) ≡ xs
unfolding add
remove_first-add x xs h = rw h (remove_first_snoc x xs h)

pub add_of_new : (x : String) (xs : List String) → elem x xs ≡ false → add x xs ≡ xs ++ x ∷ []
unfolding add
add_of_new x xs h = rw h

pub elem-discard :
    (x y : String) (xs : List String) → elem x (discard y xs) ≡ elem x xs && not (y == x)
unfolding elem discard
elem-discard x y [] = refl
elem-discard x y (z ∷ xs) = ground (arith, elem-discard x y xs, eq_iff z y, eq_iff z x, eq_iff y x)

outside-add-le : (x : String) (seen ks : List String) → outside (add x seen) ks ≤ outside seen ks
unfolding outside
outside-add-le x seen [] = omega arith
outside-add-le x seen (k ∷ ks) = ground (arith, outside-add-le x seen ks, elem-add k x seen)

-- To mark a new key as seen leaves fewer keys outside.
pub outside-add-lt :
    (x : String) (seen ks : List String)
    → elem x ks ≡ true
    → elem x seen ≡ false
    → outside (add x seen) ks < outside seen ks
unfolding outside
outside-add-lt x seen [] h new = ground arith
outside-add-lt x seen (k ∷ ks) h new = ground (
  arith,
  eq_iff k x,
  eq_iff x k,
  outside-add-lt x seen ks,
  outside-add-le x seen ks,
  elem-add k x seen,
  eq_refl x,
)

pub outside-le-length : (seen ks : List String) → outside seen ks ≤ length ks
unfolding outside
outside-le-length seen [] = omega arith
outside-le-length seen (k ∷ ks) = ground (arith, outside-le-length seen ks)

elem-foldl-add :
    (x : String) (xs s : List String) → elem x (foldl (λ s y. add y s) s xs) ≡ elem x s || elem x xs
unfolding elem
elem-foldl-add x [] s = ground arith
elem-foldl-add x (y ∷ xs) s = ground (arith, elem-foldl-add x xs (add y s), elem-add x y s)

-- `set` keeps the members.
pub elem-to_set : (x : String) (xs : List String) → elem x (to_set xs) ≡ elem x xs
unfolding to_set elem
elem-to_set x xs = elem-foldl-add x xs []

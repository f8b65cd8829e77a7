-- ===== src/Base/Dict.antt =====
-- Python's `dict` with text keys: an association list in insertion order. `d[k] = v` keeps the
-- place of a key that is there, and puts a new key last.
use Prim.Native.String.{String}
use mathlib.Core.Path.{◌≡◌, refl}
use mathlib.Core.Bool.{Bool, false, ◌||◌}
use mathlib.Core.Option.{Option, none, some}
use mathlib.Core.List.{List, [], ◌∷◌}
use native.Mathlib.Omega.{arith}
use text.Mathlib.Text.{◌==◌}
use text.Mathlib.TextEquality.{eq_iff}
use text.Mathlib.TextPositions.{eq_refl}
use mathlib.Core.Logic.{inl, inr}
use core_host.Base.Tests.{if◌then◌else◌, is_some, Bool-cases}
use core_host.Base.Names.{elem}

abbrev pub Dict {ℓ} : Type ℓ → Type ℓ
Dict V = List (String × V)

module _ {ℓ} {V : Type ℓ} where
  -- `d.get(k)`
  unfoldable pub lookup : String → Dict V → Option V
  lookup k [] = none
  lookup k ((j, v) ∷ d) = if j == k then some v else lookup k d

  -- `d[k] = v`
  unfoldable pub insert : String → V → Dict V → Dict V
  insert k v [] = (k, v) ∷ []
  insert k v ((j, w) ∷ d) = let rest = insert k v d in if j == k then (j, v) ∷ d else (j, w) ∷ rest

  -- `del d[k]`, `d.pop(k, None)`
  unfoldable pub erase : String → Dict V → Dict V
  erase k [] = []
  erase k ((j, v) ∷ d) = let rest = erase k d in if j == k then rest else (j, v) ∷ rest

  -- `k in d`
  unfoldable pub has : String → Dict V → Bool
  unfolding lookup
  has k d = is_some (lookup k d)

  -- `list(d)`
  abbrev pub keys : Dict V → List String
  keys [] = []
  keys ((j, v) ∷ d) = j ∷ keys d

  -- `list(d.values())`
  abbrev pub values : Dict V → List V
  values [] = []
  values ((j, v) ∷ d) = v ∷ values d

  pub lookup-insert :
      (k j : String) (v : V) (d : Dict V)
      → lookup j (insert k v d) ≡ (if k == j then some v else lookup j d)
  unfolding lookup insert
  lookup-insert k j v [] = refl
  lookup-insert k j v ((i, w) ∷ d) =
      ground (arith, eq_iff k j, eq_iff i k, eq_iff i j, lookup-insert k j v d)

  pub lookup-erase :
      (k j : String) (d : Dict V) → lookup j (erase k d) ≡ (if k == j then none else lookup j d)
  unfolding lookup erase
  lookup-erase k j [] = ground arith
  lookup-erase k j ((i, w) ∷ d) =
      ground (arith, eq_iff k j, eq_iff i k, eq_iff i j, lookup-erase k j d)

  pub has-insert : (k j : String) (v : V) (d : Dict V) → has j (insert k v d) ≡ k == j || has j d
  unfolding has
  has-insert k j v d = ground (arith, lookup-insert k j v d)

  pub has-erase :
      (k j : String) (d : Dict V) → has j (erase k d) ≡ (if k == j then false else has j d)
  unfolding has
  has-erase k j d = ground (arith, lookup-erase k j d)

  pub elem-keys : (k : String) (d : Dict V) → elem k (keys d) ≡ has k d
  unfolding elem has lookup
  elem-keys k [] = refl
  elem-keys k ((j, v) ∷ d) = ground (arith, elem-keys k d)

-- No key stands twice.
abbrev pub IsDistinct {ℓ} : {V : Type ℓ} → Dict V → Type 0
IsDistinct [] = Unit
IsDistinct ((k, v) ∷ d) = (has k d ≡ false) × IsDistinct d

module _ {ℓ} {V : Type ℓ} where
  pub insert-IsDistinct :
      (k : String) (v : V) (d : Dict V) → IsDistinct d → IsDistinct (insert k v d)
  unfolding insert has lookup
  insert-IsDistinct k v [] h = (refl, tt)
  insert-IsDistinct k v ((j, w) ∷ d) (new, h) = elim (Bool-cases (j == k)) [
    | inl same ↦ rw same (new, h)
    | inr other ↦
        rw other
          (ground (arith, lookup-insert k j v d, eq_iff j k, eq_iff k j), insert-IsDistinct k v d h)
  ]

  pub erase-IsDistinct : (k : String) (d : Dict V) → IsDistinct d → IsDistinct (erase k d)
  unfolding erase has
  erase-IsDistinct k [] h = tt
  erase-IsDistinct k ((j, w) ∷ d) (new, h) = elim (Bool-cases (j == k)) [
    | inl same ↦ rw same (erase-IsDistinct k d h)
    | inr other ↦ rw other (ground (arith, lookup-erase k j d), erase-IsDistinct k d h)
  ]

  -- To erase a key that is not there changes nothing.
  pub erase_absent : (k : String) (d : Dict V) → lookup k d ≡ none → erase k d ≡ d
  unfolding lookup erase
  erase_absent k [] h = refl
  erase_absent k ((j, w) ∷ d) h = ground (arith, erase_absent k d)

-- Every value that a lookup finds.
abbrev pub Every {ℓ κ} : {V : Type ℓ} → (V → Type κ) → Dict V → Type (ℓ ⊔ κ)
Every {V} P d = (k : String) (v : V) → lookup k d ≡ some v → P v

module _ {ℓ κ} {V : Type ℓ} (P : V → Type κ) where
  pub Every-insert : (k : String) (v : V) (d : Dict V) → P v → Every P d → Every P (insert k v d)
  Every-insert k v d p all j w found = elim (Bool-cases (k == j)) [
    | inl same ↦ let e : v ≡ w = ground (arith, lookup-insert k j v d) in rw (← e) p
    | inr other ↦ all j w (ground (arith, lookup-insert k j v d))
  ]

  pub Every-erase : (k : String) (d : Dict V) → Every P d → Every P (erase k d)
  Every-erase k d all j w found = all j w (ground (arith, lookup-erase k j d))

  pub Every-nil : Every P []
  unfolding lookup
  Every-nil k v found = cc

pub ruleset dict_laws = (lookup-insert, lookup-erase, has-insert, has-erase, eq_refl)

-- ===== src/Base/Scalars.antt =====
-- The values of Python that are not None, where only their `str` is read, or whether they are a text.
use Prim.Native.Nat.{ℕ}
use Prim.Native.String.{String}
use mathlib.Core.Path.{◌≡◌, refl}
use mathlib.Core.Bool.{Bool, true, false, ◌&&◌}
use mathlib.Core.List.{[], ◌∷◌}
use native.Mathlib.Omega.{arith}
use core_host.Base.Tests.{num_eq}
use core_host.Base.Chars.{Chars, codes}
use core_host.Base.Decimal.{ℤ, str}

-- A value of any other type is its identity and its `str`.
pub data Scalar : Type 0 where
  word : String → Scalar
  number : ℤ → Scalar
  truth : Bool → Scalar
  other : ℕ → Chars → Scalar

unfoldable pub same_chars : Chars → Chars → Bool
same_chars [] [] = true
same_chars [] (c ∷ t) = false
same_chars (c ∷ s) [] = false
same_chars (c ∷ s) (d ∷ t) = num_eq c d && same_chars s t

pub same_chars-eq : (s t : Chars) → same_chars s t ≡ true → s ≡ t
unfolding same_chars
same_chars-eq [] [] h = refl
same_chars-eq [] (c ∷ t) h = cc
same_chars-eq (c ∷ s) [] h = cc
same_chars-eq (c ∷ s) (d ∷ t) h =
    let one : c ≡ d = ground (arith, h) in
    let rest : s ≡ t = same_chars-eq s t (ground (arith, h)) in cc

-- `str(value)`
unfoldable pub str_of : Scalar → Chars
str_of (word s) = codes s
str_of (number n) = str n
str_of (truth true) = codes "True"
str_of (truth false) = codes "False"
str_of (other id s) = s

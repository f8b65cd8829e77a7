-- ===== src/Version.antt =====
-- core/version.py. A version text is the list of its code points.
pub mod Printed
pub mod Negotiated
mod Examples
use Prim.Native.Nat.{Ordering, compare}
use core_host.Base.{
  ℕ, Bool, true, false, not, ◌||◌, String, Option, none, some, List, [], ◌∷◌, ◌++◌, num_eq,
  if◌then◌else◌,
}
use core_host.Base.Chars.{Chars, codes, strip}
use core_host.Base.Decimal.{ℤ, pos, negsuc, int, str}

pub record SemanticVersion : Type 0 where
  pub major : ℤ
  pub minor : ℤ
  pub patch : ℤ

-- `text.removeprefix(c)`
abbrev pub remove_prefix : ℕ → Chars → Chars
remove_prefix c [] = []
remove_prefix c (x ∷ s) = if num_eq x c then s else x ∷ s

abbrev pub join_first : ℕ → List Chars → List Chars
join_first c [] = (c ∷ []) ∷ []
join_first c (p ∷ ps) = (c ∷ p) ∷ ps

-- `text.split(".")`
unfoldable pub split : Chars → List Chars
split [] = [] ∷ []
split (c ∷ s) = let rest = split s in if num_eq c 46 then [] ∷ rest else join_first c rest

abbrev pub version_of : Option ℤ → Option ℤ → Option ℤ → Option SemanticVersion
version_of (some a) (some b) (some c) = some (record { major = a; minor = b; patch = c })
version_of _ _ _ = none

abbrev pub from_parts : List Chars → Option SemanticVersion
from_parts (a ∷ b ∷ []) = version_of (int a) (int b) (int (48 ∷ []))
from_parts (a ∷ b ∷ c ∷ []) = version_of (int a) (int b) (int c)
from_parts _ = none

abbrev pub parse_stripped : Chars → Option SemanticVersion
parse_stripped [] = none
parse_stripped (c ∷ s) = from_parts (split (remove_prefix 86 (remove_prefix 118 (c ∷ s))))

-- `SemanticVersion.parse`; a ValueError is none.
unfoldable pub parse : Chars → Option SemanticVersion
parse s = parse_stripped (strip s)

-- `str(version)`
unfoldable pub show : SemanticVersion → Chars
show v = str v.major ++ (46 ∷ (str v.minor ++ (46 ∷ str v.patch)))

abbrev pub compare_ints : ℤ → ℤ → Ordering
compare_ints (pos m) (pos n) = compare m n
compare_ints (pos m) (negsuc n) = Ordering.gt
compare_ints (negsuc m) (pos n) = Ordering.lt
compare_ints (negsuc m) (negsuc n) = compare n m

abbrev pub then_by : Ordering → Ordering → Ordering
then_by Ordering.eq o = o
then_by Ordering.lt o = Ordering.lt
then_by Ordering.gt o = Ordering.gt

-- The order of the tuples of major, minor and patch.
unfoldable pub order : SemanticVersion → SemanticVersion → Ordering
order a b =
    then_by (compare_ints a.major b.major)
      (then_by (compare_ints a.minor b.minor) (compare_ints a.patch b.patch))

abbrev pub is_lt : Ordering → Bool
is_lt Ordering.lt = true
is_lt _ = false

abbrev pub is_gt : Ordering → Bool
is_gt Ordering.gt = true
is_gt _ = false

-- `a < b`, `a <= b`, `a > b` and `a >= b`
abbrev pub lt : SemanticVersion → SemanticVersion → Bool
lt a b = is_lt (order a b)

abbrev pub le : SemanticVersion → SemanticVersion → Bool
le a b = not (is_gt (order a b))

abbrev pub gt : SemanticVersion → SemanticVersion → Bool
gt a b = is_gt (order a b)

abbrev pub ge : SemanticVersion → SemanticVersion → Bool
ge a b = not (is_lt (order a b))

abbrev pub version : ℕ → ℕ → ℕ → SemanticVersion
version a b c = record { major = pos a; minor = pos b; patch = pos c }

abbrev pub supported_versions : List SemanticVersion
supported_versions = version 0 2 0 ∷ version 0 2 1 ∷ version 0 3 0 ∷ version 0 4 0 ∷ []

-- `LEGACY_VERSIONS`, reversed
abbrev pub legacy_versions : List SemanticVersion
legacy_versions = version 0 2 1 ∷ version 0 2 0 ∷ version 0 1 0 ∷ []

-- `SUPPORTED_VERSIONS[-1]`
abbrev pub latest : SemanticVersion
latest = version 0 4 0

abbrev pub is_eq : Ordering → Bool
is_eq Ordering.eq = true
is_eq _ = false

-- `str(v) in versions`, where each of the versions is a print
unfoldable pub among : SemanticVersion → List SemanticVersion → Bool
unfolding order
among v [] = false
among v (w ∷ ws) = is_eq (order v w) || among v ws

abbrev pub is_supported_parsed : Option SemanticVersion → Bool
is_supported_parsed none = false
is_supported_parsed (some v) = among v supported_versions

unfoldable pub is_supported : Chars → Bool
is_supported s = is_supported_parsed (parse s)

abbrev pub is_legacy_parsed : Option SemanticVersion → Bool
is_legacy_parsed none = true
is_legacy_parsed (some v) = among v legacy_versions || lt v (version 0 3 0)

unfoldable pub is_legacy : Chars → Bool
is_legacy s = is_legacy_parsed (parse s)

-- The first of the legacy versions that is not above `v`, or 0.2.1.
unfoldable pub legacy_for : SemanticVersion → List SemanticVersion → SemanticVersion
unfolding order
legacy_for v [] = version 0 2 1
legacy_for v (w ∷ ws) = let rest = legacy_for v ws in if le w v then w else rest

abbrev pub negotiate_parsed : Option SemanticVersion → SemanticVersion
negotiate_parsed none = version 0 2 1
negotiate_parsed (some v) =
    if gt v latest then latest else if lt v (version 0 3 0) then legacy_for v legacy_versions else v

abbrev pub parse_given : Option Chars → Option SemanticVersion
parse_given none = none
parse_given (some []) = none
parse_given (some (c ∷ s)) = parse (c ∷ s)

-- `negotiate`; no version and an empty one are handled as one that cannot be parsed.
unfoldable pub negotiate : Option Chars → Chars
negotiate client = show (negotiate_parsed (parse_given client))

abbrev pub is_given : Option Chars → Bool
is_given none = false
is_given (some []) = false
is_given (some (c ∷ s)) = true

abbrev pub at_least : SemanticVersion → Option SemanticVersion → Bool
at_least least none = false
at_least least (some v) = ge v least

-- `supports_tls` and `supports_auto_assign`: both begin with 0.3.0.
unfoldable pub supports_tls : Option Chars → Bool
supports_tls client =
    if is_given client then at_least (version 0 3 0) (parse (negotiate client)) else false

unfoldable pub supports_auto_assign : Option Chars → Bool
supports_auto_assign client =
    if is_given client then at_least (version 0 3 0) (parse (negotiate client)) else false

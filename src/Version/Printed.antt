-- ===== src/Version/Printed.antt =====
-- A version is read back from its print, in core/version.py.
use core_host.Base.{
  ℕ, ◌≡◌, refl, sym, ap, ◌∙◌, false, inl, inr, none, some, [], ◌∷◌, ◌++◌, num_eq, arith, All,
  All-map,
}
use core_host.Base.Chars.{Chars, strip_none, NoSpace, is_space, All-append}
use core_host.Base.Decimal.{ℤ, int, str, int-str, IsPlain, str-IsPlain, plain-NoSpace}
use core_host.Version.{SemanticVersion, join_first, split, from_parts, parse_stripped, parse, show}

plain-ne-dot : (c : ℕ) → IsPlain c → num_eq c 46 ≡ false
plain-ne-dot c (inl h) = ground arith
plain-ne-dot c (inr h) = ground arith

plain-ne-v : (c : ℕ) → IsPlain c → (num_eq c 118 ≡ false) × (num_eq c 86 ≡ false)
plain-ne-v c (inl h) = (ground arith, ground arith)
plain-ne-v c (inr h) = (ground arith, ground arith)

split_last : (s : Chars) → All IsPlain s → split s ≡ s ∷ []
unfolding split
split_last [] h = refl
split_last (c ∷ s) (h, hs) = rw (plain-ne-dot c h) (ap (join_first c) (split_last s hs))

split_dot : (s t : Chars) → All IsPlain s → split (s ++ (46 ∷ t)) ≡ s ∷ split t
unfolding split
split_dot [] t h = refl
split_dot (c ∷ s) t (h, hs) = rw (plain-ne-dot c h) (ap (join_first c) (split_dot s t hs))

split-show : (v : SemanticVersion) → split (show v) ≡ str v.major ∷ str v.minor ∷ str v.patch ∷ []
unfolding show
split-show v =
    split_dot (str v.major) (str v.minor ++ (46 ∷ str v.patch)) (str-IsPlain v.major)
    ∙ ap (λ r. str v.major ∷ r) (split_dot (str v.minor) (str v.patch) (str-IsPlain v.minor))
    ∙ ap (λ r. str v.major ∷ str v.minor ∷ r) (split_last (str v.patch) (str-IsPlain v.patch))

dot-NoSpace : NoSpace 46
unfolding is_space
dot-NoSpace = refl

show-NoSpace : (v : SemanticVersion) → All NoSpace (show v)
unfolding show
show-NoSpace v =
    All-append NoSpace (str v.major) (46 ∷ (str v.minor ++ (46 ∷ str v.patch))) (plain v.major) (
      dot-NoSpace,
      All-append NoSpace (str v.minor) (46 ∷ str v.patch) (plain v.minor)
          (dot-NoSpace, plain v.patch),
    )
  where
    plain : (z : ℤ) → All NoSpace (str z)
    plain z = All-map plain-NoSpace (str z) (str-IsPlain z)

parsed_parts :
    (v : SemanticVersion) → from_parts (str v.major ∷ str v.minor ∷ str v.patch ∷ []) ≡ some v
parsed_parts v = rw (int-str v.major, int-str v.minor, int-str v.patch) refl

-- A text that begins with a digit or a minus sign has no prefix `v` or `V`.
parse_stripped_plain :
    (s t : Chars) (z : ℤ)
    → str z ≡ s
    → All IsPlain s
    → parse_stripped (s ++ t) ≡ from_parts (split (s ++ t))
parse_stripped_plain [] t z e h =
    let gone : int [] ≡ some z = sym (ap int e) ∙ int-str z in
    let nothing : int [] ≡ none = unfold int in refl in cc
parse_stripped_plain (c ∷ s) t z e (h, hs) =
    let (not_v, not_capital) = plain-ne-v c h in rw (not_v, not_capital) refl

-- Every version is read back from its print.
pub parse-show : (v : SemanticVersion) → parse (show v) ≡ some v
unfolding parse show
parse-show v =
    ap parse_stripped (strip_none (show v) (show-NoSpace v))
    ∙ parse_stripped_plain (str v.major) (46 ∷ (str v.minor ++ (46 ∷ str v.patch))) v.major refl
        (str-IsPlain v.major)
    ∙ ap from_parts (split-show v)
    ∙ parsed_parts v

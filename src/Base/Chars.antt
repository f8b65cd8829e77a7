-- ===== src/Base/Chars.antt =====
-- Texts as lists of code points, and `str.strip`.
use Prim.Native.Nat.{ℕ}
use Prim.Native.Char.{code}
use Prim.Native.String.{String}
use mathlib.Core.Path.{◌≡◌, refl, ◌∙◌, ap}
use mathlib.Core.Bool.{Bool, true, false, ◌&&◌, ◌||◌}
use mathlib.Core.List.{List, [], ◌∷◌, ◌++◌, reverse, reverse-append, reverse-reverse}
use core_host.Base.Tests.{num_eq, leb, if◌then◌else◌}
use core_host.Base.Lists.{All}

abbrev pub Chars : Type 0
Chars = List ℕ

abbrev pub codes : String → Chars
codes String.[] = []
codes (String.◌∷◌ c s) = code c ∷ codes s

-- The code points that `str.strip` drops.
unfoldable pub is_space : ℕ → Bool
is_space c =
    (leb 9 c && leb c 13)
    || (leb 28 c && leb c 32)
    || num_eq c 133
    || num_eq c 160
    || num_eq c 5760
    || (leb 8192 c && leb c 8202)
    || num_eq c 8232
    || num_eq c 8233
    || num_eq c 8239
    || num_eq c 8287
    || num_eq c 12288

unfoldable pub drop_spaces : Chars → Chars
drop_spaces [] = []
drop_spaces (c ∷ s) = let rest = drop_spaces s in if is_space c then rest else c ∷ s

-- `s.strip()`
unfoldable pub strip : Chars → Chars
unfolding drop_spaces
strip s = reverse (drop_spaces (reverse (drop_spaces s)))

abbrev pub is_nil : Chars → Bool
is_nil [] = true
is_nil (c ∷ s) = false

-- `not s.strip()`
unfoldable pub blank : Chars → Bool
unfolding strip
blank s = is_nil (strip s)

abbrev pub NoSpace : ℕ → Type 0
NoSpace c = is_space c ≡ false

drop_spaces_none : (s : Chars) → All NoSpace s → drop_spaces s ≡ s
unfolding drop_spaces
drop_spaces_none [] h = refl
drop_spaces_none (c ∷ s) (h, hs) = rw h refl

module _ (P : ℕ → Type 0) where
  pub All-append : (s t : Chars) → All P s → All P t → All P (s ++ t)
  All-append [] t h k = k
  All-append (c ∷ s) t (h, hs) k = (h, All-append s t hs k)

  pub All-reverse : (s : Chars) → All P s → All P (reverse s)
  All-reverse [] h = tt
  All-reverse (c ∷ s) (h, hs) =
      let e = reverse-append (c ∷ []) s in
      rw e (All-append (reverse s) (c ∷ []) (All-reverse s hs) (h, tt))

-- A text without spaces is not changed.
pub strip_none : (s : Chars) → All NoSpace s → strip s ≡ s
unfolding strip
strip_none s h =
    ap (λ t. reverse (drop_spaces (reverse t))) (drop_spaces_none s h)
    ∙ ap reverse (drop_spaces_none (reverse s) (All-reverse NoSpace s h))
    ∙ reverse-reverse s

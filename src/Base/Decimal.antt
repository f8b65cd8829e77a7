-- ===== src/Base/Decimal.antt =====
-- `str(n)` and `int(text)` of integers. The digits are those of ASCII.
use Prim.Native.Nat.{ℕ, zero, suc, ◌+◌, ◌-◌, ◌*◌, ◌/◌, ◌%◌, ◌≤◌}
use mathlib.Core.Path.{◌≡◌, refl, sym, ap, ◌∙◌}
use mathlib.Core.Logic.{◌⊎◌, inl, inr}
use mathlib.Core.Bool.{Bool, true, false, ◌&&◌}
use mathlib.Core.Option.{Option, none, some}
use mathlib.Core.List.{[], ◌∷◌}
use native.Mathlib.Omega.{arith}
use core_host.Base.Tests.{num_eq, leb, ltb, if◌then◌else◌, Bool-cases}
use core_host.Base.Lists.{All, All-map}
use core_host.Base.Chars.{Chars, is_space, strip, strip_none, NoSpace}

pub data ℤ : Type 0 where
  pos negsuc : ℕ → ℤ

-- `- n`
abbrev pub negated : ℕ → ℤ
negated zero = pos 0
negated (suc n) = negsuc n

abbrev pub is_digit : ℕ → Bool
is_digit c = leb 48 c && leb c 57

-- The rest of a number: one underscore may stand between two digits. `after` tells whether a digit
-- comes before, and `n` is the number so far.
unfoldable pub scan : Chars → Bool → ℕ → Option ℕ
scan [] true n = some n
scan [] false n = none
scan (c ∷ s) after n = elim (is_digit c) [
  | true ↦ scan s true (n * 10 + (c - 48))
  | false ↦ elim (num_eq c 95 && after) [ true ↦ scan s false n | false ↦ none ]
]

abbrev pub positive : Option ℕ → Option ℤ
positive none = none
positive (some n) = some (pos n)

abbrev pub negative : Option ℕ → Option ℤ
negative none = none
negative (some n) = some (negated n)

-- A sign and digits.
unfoldable pub signed : Chars → Option ℤ
unfolding scan
signed [] = none
signed (c ∷ s) =
    if num_eq c 45
    then negative (scan s false 0)
    else if num_eq c 43
    then positive (scan s false 0)
    else positive (scan (c ∷ s) false 0)

-- `int(text)`
unfoldable pub int : Chars → Option ℤ
unfolding strip signed
int s = signed (strip s)

-- The digits of `n` before `out`. The fuel bounds the number of digits.
unfoldable pub emit : ℕ → ℕ → Chars → Chars
emit zero n out = (48 + n % 10) ∷ out
emit (suc fuel) n out =
    let rest = emit fuel (n / 10) ((48 + n % 10) ∷ out) in
    if ltb n 10 then (48 + n % 10) ∷ out else rest

unfoldable pub digits : ℕ → Chars
unfolding emit
digits n = emit n n []

-- `str(n)`
unfoldable pub str : ℤ → Chars
unfolding digits
str (pos n) = digits n
str (negsuc n) = 45 ∷ digits (suc n)

-- A digit, or the sign of a negative number.
abbrev pub IsPlain : ℕ → Type 0
IsPlain c = (is_digit c ≡ true) ⊎ (c ≡ 45)

abbrev pub IsDigit : ℕ → Type 0
IsDigit c = is_digit c ≡ true

digit_bound : (n : ℕ) → is_digit (48 + n % 10) ≡ true
digit_bound n = ground arith

emit-IsDigit : (fuel n : ℕ) (out : Chars) → All IsDigit out → All IsDigit (emit fuel n out)
unfolding emit
emit-IsDigit zero n out h = (digit_bound n, h)
emit-IsDigit (suc fuel) n out h = elim (Bool-cases (ltb n 10)) [
  | inl small ↦ rw small (digit_bound n, h)
  | inr large ↦ rw large (emit-IsDigit fuel (n / 10) ((48 + n % 10) ∷ out) (digit_bound n, h))
]

scan_digit :
    (c : ℕ) (s : Chars) (after : Bool) (n : ℕ)
    → is_digit c ≡ true
    → scan (c ∷ s) after n ≡ scan s true (n * 10 + (c - 48))
unfolding scan
scan_digit c s after n h =
    ap
      (λ b. elim b [
        | true ↦ scan s true (n * 10 + (c - 48))
        | false ↦ elim (num_eq c 95 && after) [ true ↦ scan s false n | false ↦ none ]
      ])
      h

-- With enough fuel, the digits of `n` are read back as `n`.
scan-emit : (fuel n : ℕ) (out : Chars) → n ≤ fuel → scan (emit fuel n out) false 0 ≡ scan out true n
unfolding emit
scan-emit zero n out h =
    scan_digit (48 + n % 10) out false 0 (digit_bound n) ∙ ap (scan out true) (omega (arith, h))
scan-emit (suc fuel) n out h = elim (Bool-cases (ltb n 10)) [
  | inl small ↦
      rw small
        (scan_digit (48 + n % 10) out false 0 (digit_bound n) ∙ ap (scan out true) (ground arith))
  | inr large ↦ rw large (
      scan-emit fuel (n / 10) ((48 + n % 10) ∷ out) (ground arith)
      ∙ scan_digit (48 + n % 10) out true (n / 10) (digit_bound n)
      ∙ ap (scan out true) (omega arith))
]

scan-digits : (n : ℕ) → scan (digits n) false 0 ≡ some n
unfolding digits scan
scan-digits n = scan-emit n n [] (omega arith)

pub plain-NoSpace : (c : ℕ) → IsPlain c → NoSpace c
unfolding is_space
plain-NoSpace c (inl h) = ground arith
plain-NoSpace c (inr h) = ground arith

scanned-cons :
    (n : ℕ) (s : Chars)
    → All IsDigit s
    → scan s false 0 ≡ some n
    → (c : ℕ) × (t : Chars) × (s ≡ c ∷ t) × (is_digit c ≡ true)
unfolding scan
scanned-cons n [] h read = cc
scanned-cons n (c ∷ t) (h, hs) read = (c, t, refl, h)

digits-IsDigit : (n : ℕ) → All IsDigit (digits n)
unfolding digits
digits-IsDigit n = emit-IsDigit n n [] tt

signed_digit :
    (c : ℕ) (s : Chars) → is_digit c ≡ true → signed (c ∷ s) ≡ positive (scan (c ∷ s) false 0)
unfolding signed
signed_digit c s h =
    let not_minus : num_eq c 45 ≡ false = ground arith in
    let not_plus : num_eq c 43 ≡ false = ground arith in rw (not_minus, not_plus) refl

signed-digits : (n : ℕ) → signed (digits n) ≡ some (pos n)
signed-digits n =
    let (c, s, e, h) = scanned-cons n (digits n) (digits-IsDigit n) (scan-digits n) in
    ap signed e
    ∙ signed_digit c s h
    ∙ ap (λ t. positive (scan t false 0)) (sym e)
    ∙ ap positive (scan-digits n)

-- The print of an integer has digits and a sign only.
pub str-IsPlain : (z : ℤ) → All IsPlain (str z)
unfolding str
str-IsPlain (pos n) = All-map (λ c h. inl h) (digits n) (digits-IsDigit n)
str-IsPlain (negsuc n) =
    (inr refl, All-map (λ c h. inl h) (digits (suc n)) (digits-IsDigit (suc n)))

signed-str : (z : ℤ) → signed (str z) ≡ some z
unfolding str
signed-str (pos n) = signed-digits n
signed-str (negsuc n) = unfold signed in ap negative (scan-digits (suc n))

-- An integer is read back from its print.
pub int-str : (z : ℤ) → int (str z) ≡ some z
unfolding int
int-str z =
    ap signed (strip_none (str z) (All-map plain-NoSpace (str z) (str-IsPlain z))) ∙ signed-str z

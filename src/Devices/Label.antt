-- ===== src/Devices/Label.antt =====
-- The join names of core/communication/devices.py: their alphabet, their length, and the loop that
-- leaves no two dashes in a row.
use core_host.Base.{
  ℕ, zero, suc, ◌≤◌, ◌<◌, ◌≡◌, refl, true, false, ◌&&◌, List, [], ◌∷◌, ◌++◌, length, num_eq, map,
  All, All-map, arith, inl, inr, Bool-cases,
}
use mathlib.Core.List.{reverse}
use core_host.Base.Chars.{Chars, codes, strip, All-append, All-reverse}
use core_host.Data.Pages.{take}
use core_host.Devices.Names.{
  Table, is_kept, clean, has_double, replace_doubles, collapse, is_edge, drop_edges, strip_edges,
  or_device, sanitize_join_part, or_chars, derive_join_name,
}

replace-le : (s : Chars) → length (replace_doubles s) ≤ length s
unfolding replace_doubles
replace-le [] = omega arith
replace-le (c ∷ []) = omega arith
replace-le (c ∷ d ∷ s) = ground (arith, replace-le s, replace-le (d ∷ s))

replace-lt : (s : Chars) → has_double s ≡ true → length (replace_doubles s) < length s
unfolding replace_doubles has_double
replace-lt [] h = absurd cc
replace-lt (c ∷ []) h = absurd cc
replace-lt (c ∷ d ∷ s) h = ground (arith, replace-le s, replace-lt (d ∷ s))

-- As many rounds as there are code points leave no two dashes in a row.
pub collapse-ends : (n : ℕ) (s : Chars) → length s ≤ n → has_double (collapse n s) ≡ false
unfolding collapse
collapse-ends zero [] h = refl
collapse-ends zero (c ∷ s) h = absurd (omega (arith, h))
collapse-ends (suc n) s h = elim (Bool-cases (has_double s)) [
  | inl yes_double ↦
      let fewer = replace-lt s yes_double in
      rw yes_double (collapse-ends n (replace_doubles s) (omega (arith, h, fewer)))
  | inr clear ↦ rw clear clear
]

-- Every code point is a letter, a digit, a dash, an underscore or a dot.
abbrev pub IsKept : Table → Chars → Type 0
IsKept alnum s = All (λ c. is_kept alnum c ≡ true) s

dash_kept : (alnum : Table) → is_kept alnum 45 ≡ true
dash_kept alnum = ground arith

clean-kept : (alnum : Table) (c : ℕ) → is_kept alnum (clean alnum c) ≡ true
clean-kept alnum c = elim (Bool-cases (is_kept alnum c)) [
  | inl same ↦ rw same same
  | inr other ↦ rw other (dash_kept alnum)
]

map-IsKept : (alnum : Table) (s : Chars) → IsKept alnum (map (clean alnum) s)
map-IsKept alnum [] = tt
map-IsKept alnum (c ∷ s) = (clean-kept alnum c, map-IsKept alnum s)

module _ (alnum : Table) where
  replace-IsKept : (s : Chars) → IsKept alnum s → IsKept alnum (replace_doubles s)
  unfolding replace_doubles
  replace-IsKept [] h = tt
  replace-IsKept (c ∷ []) h = h
  replace-IsKept (c ∷ d ∷ s) (first, (second, more)) =
      elim (Bool-cases (num_eq c 45 && num_eq d 45)) [
        | inl both ↦ rw both (dash_kept alnum, replace-IsKept s more)
        | inr other ↦ rw other (first, replace-IsKept (d ∷ s) (second, more))
      ]

  collapse-IsKept : (n : ℕ) (s : Chars) → IsKept alnum s → IsKept alnum (collapse n s)
  unfolding collapse
  collapse-IsKept zero s h = h
  collapse-IsKept (suc n) s h = elim (Bool-cases (has_double s)) [
    | inl double ↦ rw double (collapse-IsKept n (replace_doubles s) (replace-IsKept s h))
    | inr other ↦ rw other h
  ]

  drop_edges-IsKept : (s : Chars) → IsKept alnum s → IsKept alnum (drop_edges s)
  unfolding drop_edges
  drop_edges-IsKept [] h = tt
  drop_edges-IsKept (c ∷ s) (first, more) = elim (Bool-cases (is_edge c)) [
    | inl edge ↦ rw edge (drop_edges-IsKept s more)
    | inr other ↦ rw other (first, more)
  ]

  strip_edges-IsKept : (s : Chars) → IsKept alnum s → IsKept alnum (strip_edges s)
  unfolding strip_edges
  strip_edges-IsKept s h =
      let P = λ (c : ℕ). is_kept alnum c ≡ true in
      All-reverse P (drop_edges (reverse (drop_edges s))) (
        drop_edges-IsKept (reverse (drop_edges s))
          (All-reverse P (drop_edges s) (drop_edges-IsKept s h)))

  take-IsKept : (n : ℕ) (s : Chars) → IsKept alnum s → IsKept alnum (take n s)
  take-IsKept n [] h = tt
  take-IsKept zero (c ∷ s) h = tt
  take-IsKept (suc n) (c ∷ s) (first, more) = (first, take-IsKept n s more)

  letter-kept : (c : ℕ) → alnum c ≡ true → is_kept alnum c ≡ true
  letter-kept c h = ground (arith, h)

  or_device-IsKept :
      (s : Chars) → IsKept alnum (codes "device") → IsKept alnum s → IsKept alnum (or_device s)
  or_device-IsKept [] d h = d
  or_device-IsKept (c ∷ s) d h = h

  sanitize-IsKept :
      (s : Chars) → IsKept alnum (codes "device") → IsKept alnum (sanitize_join_part alnum s)
  unfolding sanitize_join_part
  sanitize-IsKept s d =
      let cleaned = map (clean alnum) (strip s) in
      or_device-IsKept (strip_edges (collapse (length cleaned) cleaned)) d (
        strip_edges-IsKept (collapse (length cleaned) cleaned)
          (collapse-IsKept (length cleaned) cleaned (map-IsKept alnum (strip s))))

length-take-le {ℓ} : {A : Type ℓ} (n : ℕ) (xs : List A) → length (take n xs) ≤ n
length-take-le n [] = omega arith
length-take-le zero (x ∷ xs) = omega arith
length-take-le (suc n) (x ∷ xs) = omega (arith, length-take-le n xs)

-- A join name that the host may show: not empty, at most 64 code points, each of the alphabet.
pub record IsLabel (alnum : Table) (s : Chars) : Type 0 where
  pub kept : IsKept alnum s
  pub short : length s ≤ 64
  pub some_text : 1 ≤ length s

or_device-some : (s : Chars) → 1 ≤ length (or_device s)
or_device-some [] = omega arith
or_device-some (c ∷ s) = omega arith

take-some {ℓ} : {A : Type ℓ} (xs ys : List A) → 1 ≤ length xs → 1 ≤ length (take 64 (xs ++ ys))
take-some [] ys h = absurd (omega (arith, h))
take-some (x ∷ xs) ys h = omega arith

-- For a table that has the letters of `device`: a derived join name has one code point or more, at
-- most 64, and each of them is a letter, a digit, a dash, an underscore or a dot.
pub derive_join_name-IsLabel :
    (alnum : Table) (device_name device_id : Chars)
    → All (λ c. alnum c ≡ true) (codes "device")
    → IsLabel alnum (derive_join_name alnum device_name device_id)
unfolding derive_join_name sanitize_join_part
derive_join_name-IsLabel alnum device_name device_id letters =
    let d = All-map (letter-kept alnum) (codes "device") letters in
    let head = sanitize_join_part alnum (or_chars device_name device_id) in
    let whole = head ++ (45 ∷ sanitize_join_part alnum device_id) in
    record {
      kept = take-IsKept alnum 64 whole (
          All-append (λ (c : ℕ). is_kept alnum c ≡ true) head
            (45 ∷ sanitize_join_part alnum device_id)
            (sanitize-IsKept alnum (or_chars device_name device_id) d)
            (dash_kept alnum, sanitize-IsKept alnum device_id d));
      short = length-take-le 64 whole;
      some_text = take-some head (45 ∷ sanitize_join_part alnum device_id) (or_device-some _);
    }

-- ===== src/Devices/Names.antt =====
-- `derive_join_name` of core/communication/devices.py. Which code points are letters or digits is an
-- argument, the table of `str.isalnum`.
use core_host.Base.{
  ℕ, zero, suc, Bool, false, ◌||◌, ◌&&◌, [], ◌∷◌, ◌++◌, length, num_eq, map, if◌then◌else◌,
}
use mathlib.Core.List.{reverse}
use core_host.Base.Chars.{Chars, codes, strip}
use core_host.Data.Pages.{take}

abbrev pub Table : Type 0
Table = ℕ → Bool

-- 45 is the dash, 95 the underscore and 46 the dot.
abbrev pub is_kept : Table → ℕ → Bool
is_kept alnum c = alnum c || num_eq c 45 || num_eq c 95 || num_eq c 46

abbrev pub clean : Table → ℕ → ℕ
clean alnum c = if is_kept alnum c then c else 45

-- `"--" in s`
unfoldable pub has_double : Chars → Bool
has_double [] = false
has_double (c ∷ []) = false
has_double (c ∷ d ∷ s) = (num_eq c 45 && num_eq d 45) || has_double (d ∷ s)

-- `s.replace("--", "-")`
unfoldable pub replace_doubles : Chars → Chars
replace_doubles [] = []
replace_doubles (c ∷ []) = c ∷ []
replace_doubles (c ∷ d ∷ s) =
    let both = replace_doubles s in
    let one = replace_doubles (d ∷ s) in if num_eq c 45 && num_eq d 45 then 45 ∷ both else c ∷ one

-- The loop. Each round takes at least one code point away.
unfoldable pub collapse : ℕ → Chars → Chars
unfolding has_double
collapse zero s = s
collapse (suc fuel) s =
    let rest = collapse fuel (replace_doubles s) in if has_double s then rest else s

abbrev pub is_edge : ℕ → Bool
is_edge c = num_eq c 45 || num_eq c 46 || num_eq c 95

unfoldable pub drop_edges : Chars → Chars
drop_edges [] = []
drop_edges (c ∷ s) = let rest = drop_edges s in if is_edge c then rest else c ∷ s

-- `s.strip("-._")`
unfoldable pub strip_edges : Chars → Chars
unfolding drop_edges
strip_edges s = reverse (drop_edges (reverse (drop_edges s)))

-- `part or "device"`
abbrev pub or_device : Chars → Chars
or_device [] = codes "device"
or_device (c ∷ s) = c ∷ s

unfoldable pub sanitize_join_part : Table → Chars → Chars
sanitize_join_part alnum value =
    let cleaned = map (clean alnum) (strip value) in
    or_device (strip_edges (collapse (length cleaned) cleaned))

abbrev pub or_chars : Chars → Chars → Chars
or_chars [] other = other
or_chars (c ∷ s) other = c ∷ s

unfoldable pub derive_join_name : Table → Chars → Chars → Chars
derive_join_name alnum device_name device_id = take 64 (
    sanitize_join_part alnum (or_chars device_name device_id)
    ++ (45 ∷ sanitize_join_part alnum device_id))

-- ===== src/Version/Examples.antt =====
-- Versions that are parsed, printed and negotiated.
use core_host.Base.{◌≡◌, refl, true, false, some}
use core_host.Base.Chars.{codes, strip, drop_spaces, is_space}
use core_host.Base.Decimal.{pos, negsuc, int, str, signed, scan, digits, emit}
use core_host.Version.{
  SemanticVersion, version, parse, show, split, order, le, negotiate, parse_given, is_supported,
  among,
}
use core_host.Version.Printed.{parse-show}
use core_host.Version.Negotiated.{IsOffered, negotiate-IsOffered}

parse-short : parse (codes " v0.3") ≡ some (version 0 3 0)
unfolding parse strip drop_spaces is_space split int signed scan
parse-short = refl

-- A version that was never released is negotiated as it is.
negotiate-unreleased :
    (negotiate (some (codes "0.3.7")) ≡ codes "0.3.7") × (is_supported (codes "0.3.7") ≡ false)
unfolding negotiate parse strip drop_spaces is_space split int signed scan order show str digits
    emit is_supported among
negotiate-unreleased = (refl, refl)

parse-show_example :
    parse (show (record { major = pos 12; minor = negsuc 2; patch = pos 0 }))
    ≡ some (record { major = pos 12; minor = negsuc 2; patch = pos 0 })
parse-show_example = parse-show (record { major = pos 12; minor = negsuc 2; patch = pos 0 })

negotiate-IsOffered_example :
    (v : SemanticVersion) × (parse (negotiate (some (codes "9.0.0"))) ≡ some v)
    × IsOffered v
    × ((u : SemanticVersion)
        → parse_given (some (codes "9.0.0")) ≡ some u
        → le (version 0 1 0) u ≡ true
        → le v u ≡ true)
negotiate-IsOffered_example = negotiate-IsOffered (some (codes "9.0.0"))

parsed : parse_given (some (codes "0.3.0")) ≡ some (version 0 3 0)
unfolding parse strip drop_spaces is_space split int signed scan
parsed = refl

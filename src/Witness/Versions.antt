-- ===== src/Witness/Versions.antt =====
-- The theorems on versions at concrete inputs.
use zero_trust_public.Base.{
  ℕ, ◌≡◌, ◌≢◌, refl, true, List, [], ◌∷◌, ◌++◌, codes, bytes_eq, is_empty, is_digit, some, Option,
  arith,
}
use zero_trust_public.Version.{
  Cmp, greater, Version, VersionRange, parse, compare, compare_parts, in_range, span_digits,
  skip_to_digit, decimal_value, stoi, parse_loop,
}
use zero_trust_public.Version.Order.{compare_trans, in_range_widen}
use zero_trust_public.Version.Parse.{dotted, parse-dotted}
use zero_trust_public.Dpkg.{dpkg_loop, dpkg_compare_str, parse_dpkg_version, all_digits}
use zero_trust_public.Dpkg.Total.{dpkg_compare_str_total, dpkg_compare_str_stuck}
use zero_trust_public.Dpkg.Laws.{map_flip, dpkg_compare_str-flip, parse_dpkg_version_parts}

abbrev version_of : List ℕ → Version
version_of ns = record { raw = []; components = ns }

compare_trans_example : compare (version_of (8 ∷ 9 ∷ [])) (version_of (9 ∷ 1 ∷ [])) ≢ greater
unfolding compare compare_parts
compare_trans_example =
    compare_trans (version_of (8 ∷ 9 ∷ [])) (version_of (9 ∷ [])) (version_of (9 ∷ 1 ∷ [])) (cc)
      (cc)

abbrev narrow : VersionRange
narrow = record { minimum = codes "8.0"; maximum = codes "8.9" }

abbrev wide : VersionRange
wide = record { minimum = codes "7"; maximum = codes "9.1" }

in_range_widen_example : in_range (codes "8.4p1") wide ≡ true
unfolding in_range compare compare_parts parse parse_loop skip_to_digit span_digits is_digit stoi
    decimal_value bytes_eq is_empty
in_range_widen_example = in_range_widen (codes "8.4p1") narrow wide refl refl (cc) (cc) refl

parse-dotted_example :
    (parse (codes "v" ++ (dotted 8 (9 ∷ []) ++ codes "p1"))).components ≡ 8 ∷ 9 ∷ []
unfolding is_digit
parse-dotted_example =
    parse-dotted (codes "v") 8 (9 ∷ []) (codes "p1") (refl, tt) (omega arith) (omega arith, tt)
      (refl, refl)

dpkg_compare_str_total_example : (c : Cmp) × (dpkg_compare_str (codes "1~") (codes "1") ≡ some c)
dpkg_compare_str_total_example =
    dpkg_compare_str_total (codes "1~") (codes "1") (refl, (refl, tt)) (refl, tt)

dpkg_compare_str_stuck_example :
    ((f : ℕ) → dpkg_loop f (0 ∷ codes "1") (0 ∷ codes "2") ≡ Option.none)
    × (dpkg_compare_str (0 ∷ codes "1") (0 ∷ codes "2") ≡ Option.none)
dpkg_compare_str_stuck_example = dpkg_compare_str_stuck (codes "1") (codes "2")

dpkg_compare_str-flip_example :
    dpkg_compare_str (codes "2") (codes "10") ≡ map_flip (dpkg_compare_str (codes "10") (codes "2"))
dpkg_compare_str-flip_example = dpkg_compare_str-flip (codes "10") (codes "2")

parse_dpkg_version_parts_example :
    parse_dpkg_version (codes "1" ++ (b':' ∷ (codes "8.9-p1" ++ (b'-' ∷ codes "3u"))))
    ≡ record { epoch = codes "1"; upstream = codes "8.9-p1"; revision = codes "3u" }
unfolding is_empty all_digits is_digit
parse_dpkg_version_parts_example =
    parse_dpkg_version_parts (codes "1") (codes "8.9-p1") (codes "3u") refl refl (refl, (refl, tt))

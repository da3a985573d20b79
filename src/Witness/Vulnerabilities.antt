-- ===== src/Witness/Vulnerabilities.antt =====
-- The theorems on the CVE database and the backport check at concrete inputs.
use zero_trust_public.Base.{
  ℕ, ◌≡◌, refl, true, false, List, [], ◌∷◌, map, Bytes, codes, bytes_eq, is_empty, is_digit,
  is_alpha, lower, some, All, filter_by, contains, strip_prefix, split_last, split_first, split_by,
}
use zero_trust_public.Finding.{Severity, Protocol, PortState, Port, Finding}
use zero_trust_public.Version.{
  span_digits, in_range, compare, compare_parts, parse, parse_loop, skip_to_digit, decimal_value,
  stoi,
}
use zero_trust_public.Dpkg.{
  dpkg_char_order, lead, step_over, nondigit_run, skip_zeros, compare_digits, compare_numbers,
  digit_run, dpkg_loop, dpkg_compare_str, all_digits, split_epoch, with_revision,
  parse_dpkg_version,
}
use zero_trust_public.Backport.{
  to_lower, DistroFix, FixTable, distro_fix_key, add_index, find_index, fix_of_fields, is_skipped,
  add_row, load_lines, load_distro_fixes, parse_distro_tag, BackportOutcome, has_fix, row_verdict,
  via_text, check_rows, cons_row, rows_at, check_backport,
}
use zero_trust_public.Backport.Index.{IsIndexed, has_fix_key, load_distro_fixes-IsIndexed}
use zero_trust_public.Backport.Rows.{In, IsInstalled, installed, check_backport_sound}
use zero_trust_public.Backport.Total.{check_backport_total}
use zero_trust_public.Cve.{CveEntry, affects, product_matches}
use zero_trust_public.Cve.Report.{finding_of, check_port, check_loop, push_finding}
use zero_trust_public.Cve.Report.Laws.{IsJustified, check_port_exact, check_port-IsJustified}
use zero_trust_public.Witness.Findings.{hundredths}

abbrev fix_text : Bytes
fix_text = codes "C1\tubuntu\t22\tnginx\t1-3u2\treleased\n"

abbrev no_fixes : FixTable
no_fixes = record { table = []; index = [] }

abbrev fix_table : FixTable
fix_table = load_distro_fixes no_fixes (some fix_text)

load_distro_fixes-IsIndexed_example : IsIndexed (load_distro_fixes no_fixes (some fix_text))
load_distro_fixes-IsIndexed_example = load_distro_fixes-IsIndexed no_fixes fix_text

-- The same table written out.
abbrev the_fix : DistroFix
the_fix = record {
  cve = codes "C1";
  distro = codes "ubuntu";
  release = codes "22";
  package_name = codes "nginx";
  fixed_version = codes "1-3u2";
  status = codes "released";
}

abbrev one_fix : FixTable
one_fix = record { table = the_fix ∷ []; index = (codes "C1|ubuntu", 0 ∷ []) ∷ [] }

one_fix_loaded : fix_table ≡ one_fix
unfolding load_distro_fixes load_lines is_skipped fix_of_fields add_row add_index distro_fix_key
    to_lower lower split_by bytes_eq
one_fix_loaded = refl

one_fix-IsIndexed : IsIndexed one_fix
one_fix-IsIndexed = rw (← one_fix_loaded) (load_distro_fixes-IsIndexed no_fixes fix_text)

abbrev port_with : Bytes → Port
port_with distro = record {
  number = 80;
  protocol = Protocol.tcp;
  state = PortState.open_port;
  service = codes "http";
  product = codes "nginx";
  version = codes "1";
  distro = distro;
  tls = false;
}

abbrev updated : Port
updated = port_with (codes "Ubuntu (3u4)")

abbrev outdated : Port
outdated = port_with (codes "Ubuntu (3u1)")

abbrev patched_outcome : BackportOutcome
patched_outcome = record {
  patched = true;
  release_not_affected = false;
  via = codes "ubuntu 22: nginx 1-3u2";
}

check_backport_sound_example :
    (fix : DistroFix) × In fix one_fix.table
    × (has_fix_key (distro_fix_key (codes "C1") (parse_distro_tag updated.distro).distro) fix
        ≡ true)
    × IsInstalled (installed updated) fix
    × (patched_outcome.via ≡ via_text (parse_distro_tag updated.distro).distro fix)
unfolding check_backport check_rows rows_at row_verdict cons_row has_fix via_text find_index
    distro_fix_key to_lower lower parse_distro_tag contains strip_prefix split_last split_first
    bytes_eq is_empty dpkg_compare_str dpkg_loop nondigit_run lead step_over dpkg_char_order
    digit_run skip_zeros compare_numbers compare_digits span_digits is_digit is_alpha
    parse_dpkg_version split_epoch with_revision all_digits
check_backport_sound_example =
    check_backport_sound one_fix (codes "C1") updated {out = patched_outcome} one_fix-IsIndexed refl
      refl

check_backport_total_example :
    (out : BackportOutcome) × (check_backport one_fix (codes "C1") updated ≡ some out)
check_backport_total_example =
    check_backport_total one_fix (codes "C1") updated one_fix-IsIndexed (refl, tt)
      (
        refl,
        (refl, (refl, (refl, (refl, (refl, (refl, (refl, (refl, (refl, (refl, (refl, tt))))))))))),
      )
      ((refl, (refl, (refl, (refl, (refl, tt))))), tt)

abbrev an_entry : CveEntry ℕ
an_entry = record {
  cve_id = codes "C1";
  product = codes "Nginx";
  version_min = codes "*";
  version_max = codes "1.2";
  severity = Severity.high;
  description = codes "an issue";
  cvss = 98;
  cvss_vector = [];
  remediation = [];
  references = [];
}

abbrev database : List (CveEntry ℕ)
database = an_entry ∷ []

check_port_exact_example :
    (outcome : Bytes → BackportOutcome) × ((cve : Bytes)
      → check_backport one_fix cve updated ≡ some (outcome cve))
    × (check_port hundredths 0 one_fix database updated
        ≡ some (
            map
              (λ e. finding_of hundredths 0 updated e (outcome e.cve_id))
              (filter_by (affects updated.product updated.version) database)))
unfolding is_empty
check_port_exact_example =
    check_port_exact hundredths 0 one_fix database updated one_fix-IsIndexed (refl, tt)
      (
        refl,
        (refl, (refl, (refl, (refl, (refl, (refl, (refl, (refl, (refl, (refl, (refl, tt))))))))))),
      )
      ((refl, (refl, (refl, (refl, (refl, tt))))), tt) refl

abbrev reported : List (Finding ℕ)
reported = finding_of hundredths 0 updated an_entry patched_outcome ∷ []

check_port-IsJustified_example : All (IsJustified hundredths 0 one_fix updated) reported
unfolding check_port check_loop push_finding affects product_matches in_range compare compare_parts
    parse parse_loop skip_to_digit decimal_value stoi check_backport check_rows rows_at row_verdict
    cons_row has_fix via_text find_index distro_fix_key to_lower lower parse_distro_tag contains
    strip_prefix split_last split_first bytes_eq is_empty dpkg_compare_str dpkg_loop nondigit_run
    lead step_over dpkg_char_order digit_run skip_zeros compare_numbers compare_digits span_digits
    is_digit is_alpha parse_dpkg_version split_epoch with_revision all_digits
check_port-IsJustified_example =
    check_port-IsJustified hundredths 0 one_fix database updated {fs = reported} one_fix-IsIndexed
      refl

-- ===== src/Processor.antt =====
-- src/processor/processor.cpp: the patterns of services and distributions, and what they find in a
-- banner. The regular expressions are an argument: whether a text is one, and what a search gives.
use zero_trust_public.Base.{
  Bool, true, false, List, [], ◌∷◌, ◌++◌, Bytes, codes, bytes_eq, is_empty, split_by, if◌then◌else◌,
  Option, none, some, ◌==◌,
}
use zero_trust_public.Finding.{Port}

-- A pattern is its text and whether case counts.
pub record ServicePattern : Type 0 where
  pattern : Bytes
  icase : Bool
  pub service : Bytes

-- `std::regex`: whether the constructor takes a text, and the groups of the first match, the whole
-- match first.
pub record Regex : Type 0 where
  is_valid : Bytes → Bool → Bool
  pub search : Bytes → Bool → Bytes → Option (List Bytes)

unfoldable split_by_tab : Bytes → List Bytes
split_by_tab line = split_by b'\t' line

abbrev is_comment : Bytes → Bool
is_comment [] = true
is_comment (c ∷ _) = c == b'#'

abbrev is_icase : List Bytes → Bool
is_icase [] = false
is_icase (f ∷ _) = bytes_eq f (codes "icase")

-- The pattern of a line, if it has one.
unfoldable pattern_of_fields : List Bytes → Option ServicePattern
pattern_of_fields (f ∷ service ∷ pattern ∷ rest) =
    if bytes_eq f (codes "match")
    then some (record { pattern = pattern; icase = is_icase rest; service = service })
    else none
pattern_of_fields _ = none

unfoldable pattern_of_line : Bytes → Option ServicePattern
unfolding pattern_of_fields split_by_tab
pattern_of_line line = if is_comment line then none else pattern_of_fields (split_by_tab line)

module _ (regex : Regex) where
  -- The loop over the lines: the patterns, and whether an invalid one ended it with an exception.
  unfoldable pub load_lines : List ServicePattern → List Bytes → List ServicePattern × Bool
  unfolding pattern_of_line
  load_lines loaded [] = (loaded, false)
  load_lines loaded (line ∷ lines) =
      let skipped = load_lines loaded lines in
      elim (pattern_of_line line) [
        | none ↦ skipped
        | some p ↦
            let more = load_lines (loaded ++ (p ∷ [])) lines in
            if regex.is_valid p.pattern p.icase then more else (loaded, true)
      ]

  -- The patterns behind those that are there, from the text of a file that can be read.
  unfoldable load_patterns : List ServicePattern → Bytes → List ServicePattern × Bool
  unfolding load_lines
  load_patterns loaded file = load_lines loaded (split_by b'\n' file)

  -- The groups behind the whole match that a pattern has are written to the port.
  unfoldable with_match : Port → Bytes → List Bytes → Port
  with_match port service (_ ∷ product ∷ version ∷ _) = record port {
    service = service;
    product = product;
    version = version;
  }
  with_match port service (_ ∷ product ∷ []) = record port { service = service; product = product }
  with_match port service _ = record port { service = service }

  unfoldable pub detect_service : List ServicePattern → Bytes → Port → Port
  unfolding with_match
  detect_service [] banner port = record port { service = [] }
  detect_service (sp ∷ patterns) banner port =
      let later = detect_service patterns banner port in
      elim (regex.search sp.pattern sp.icase banner) [
        | none ↦ later
        | some groups ↦ with_match port sp.service groups
      ]

  -- The patterns of the distributions, with their tags.
  unfoldable distro_patterns : List (Bytes × Bytes)
  distro_patterns =
      (codes "(Ubuntu-[0-9a-zA-Z.~+_-]+)", codes "Ubuntu")
      ∷ (codes "(Debian-[0-9a-zA-Z.~+_-]+)", codes "Debian")
      ∷ (codes "\\bel([0-9]+)_([0-9]+)", codes "RHEL")
      ∷ (codes "\\.fc([0-9]+)", codes "Fedora")
      ∷ (codes "\\.amzn([0-9]+)", codes "AmazonLinux")
      ∷ (codes "\\+alpine", codes "Alpine")
      ∷ (codes "\\+suse", codes "SUSE")
      ∷ []

  -- The tag, with the first group in parentheses where it is not empty.
  unfoldable distro_text : Bytes → List Bytes → Bytes
  distro_text tag (_ ∷ group ∷ _) =
      if is_empty group then tag else tag ++ (codes " (" ++ (group ++ codes ")"))
  distro_text tag _ = tag

  unfoldable distro_loop : List (Bytes × Bytes) → Bytes → Port → Port
  unfolding distro_text
  distro_loop [] banner port = port
  distro_loop ((pattern, tag) ∷ patterns) banner port =
      let later = distro_loop patterns banner port in
      elim (regex.search pattern false banner) [
        | none ↦ later
        | some groups ↦ record port { distro = distro_text tag groups }
      ]

  unfoldable pub detect_distro : Bytes → Port → Port
  unfolding distro_loop distro_patterns
  detect_distro banner port = distro_loop distro_patterns banner port

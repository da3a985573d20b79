-- ===== src/Cve/Native.antt =====
-- src/scan/cve.cpp: run_native_checks, the check of SSH servers and those of TLS on one port.
use zero_trust_public.Base.{
  ℕ, not, List, [], ◌++◌, codes, bytes_eq, if◌then◌else◌, Option, none, some, Floats, ◌&&◌, ◌≡◌,
  false, map, ap,
}
use zero_trust_public.Finding.{Port, Finding}
use zero_trust_public.KnowledgeBase.{KnowledgeBase}
use zero_trust_public.Ssh.Check.{Server, check_terrapin}
use zero_trust_public.Tls.Report.{Tls, is_ok}
use zero_trust_public.Tls.{port_looks_like_tls}
use zero_trust_public.Tls.Scan.{pushed, run_tls_checks}
use zero_trust_public.Tls.Laws.{rules, map-run_tls_checks}

module _ {D : Type 0} (fp : Floats D) (now : ℕ) (server : Server) (tls : Tls) (port : Port) where
  -- The findings and the knowledge base of a check; none: a read outside a packet.
  abbrev Checked : Type 0
  Checked = Option (List (Finding D) × KnowledgeBase)

  -- The registry has one entry, `check_terrapin` for `ssh`.
  unfoldable registered_checks : KnowledgeBase → Checked
  unfolding check_terrapin
  registered_checks kb =
      let checked : Checked = elim (check_terrapin fp now server port kb) [
        | none ↦ none
        | some (f, kb') ↦ some (pushed f [], kb')
      ] in
      if not (bytes_eq (codes "ssh") port.service) then some ([], kb) else checked

  -- The TLS checks come behind, on the knowledge base that the others leave.
  unfoldable pub run_native_checks : KnowledgeBase → Checked
  unfolding registered_checks run_tls_checks
  run_native_checks kb = elim (registered_checks kb) [
    | none ↦ none
    | some (findings, kb') ↦
        let checked = run_tls_checks fp now port tls kb' in some (findings ++ checked.0, checked.1)
  ]

  -- On a port of another service than SSH, the native checks never read out of bounds and report just
  -- the TLS checks that apply.
  map-run_native_checks :
      (kb : KnowledgeBase)
      → bytes_eq (codes "ssh") port.service ≡ false
      → elim (run_native_checks kb) [
        | none ↦ none
        | some (findings, _) ↦ some (map (λ f. f.plugin_name) findings)
      ]
        ≡ some (
            if port_looks_like_tls port && is_ok (tls.handshake port.number 3000).result
            then rules tls port (tls.handshake port.number 3000)
            else [])
  unfolding run_native_checks registered_checks
  map-run_native_checks kb h =
      rw (run_native_checks, registered_checks, h) (ap some (map-run_tls_checks fp now port tls kb))

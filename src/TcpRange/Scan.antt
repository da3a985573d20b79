-- ===== src/TcpRange/Scan.antt =====
-- src/scan/tcp_range.cpp: the whole task of an open port, with the parts that it calls.
use zero_trust_public.Base.{ℕ, List, ◌++◌, map, Bytes, Option, none, some, Floats}
use zero_trust_public.Finding.{Port, Finding}
use zero_trust_public.KnowledgeBase.{KnowledgeBase}
use zero_trust_public.Backport.{FixTable}
use zero_trust_public.Cve.{CveEntry}
use zero_trust_public.Cve.Report.{check_port}
use zero_trust_public.Cve.Native.{run_native_checks}
use zero_trust_public.Ssh.Check.{Server}
use zero_trust_public.Tls.Report.{Tls}
use zero_trust_public.Runtime.{NativeFn, Numbers}
use zero_trust_public.Runner.{FindingOut, RunState}
use zero_trust_public.Runner.Plugins.{LoadedPlugin, DetectedInfo, run_plugin}
use zero_trust_public.Runner.Passes.{run_for_port}
use zero_trust_public.Processor.{ServicePattern, Regex}
use zero_trust_public.TcpRange.{
  Greeting, banner_of, detected, with_detected, finding_of_plugin, findings_of,
}

-- What the program has loaded.
pub record Loaded (D : Type 0) : Type 0 where
  pub patterns : List ServicePattern
  pub plugins : List (LoadedPlugin D)
  pub cves : List (CveEntry D)
  pub fixes : FixTable

-- What a host answers on a port.
pub record Answers : Type 0 where
  greeting : Greeting
  ssh : Server
  pub tls : Tls

module _ {D : Type 0} (num : Numbers D) (fp : Floats D) (now : ℕ) (regex : Regex)
    (network : ℕ → NativeFn D (RunState D)) (loaded : Loaded D) (ip : Bytes) where
  unfoldable run_plugins : Port → List (FindingOut D) × DetectedInfo
  unfolding run_for_port run_plugin
  run_plugins port =
      run_for_port
        (λ lp service facts.
          run_plugin num fp loaded.cves now network lp ip port.number service facts)
        loaded.plugins port.service

  -- The port as it is known at the end, its findings and the knowledge base; none: a read outside an
  -- answer, or a comparison of versions that does not end.
  unfoldable scan_port :
      Answers → Port → KnowledgeBase → Option (Port × List (Finding D) × KnowledgeBase)
  unfolding banner_of detected with_detected finding_of_plugin findings_of run_plugins
      run_native_checks check_port
  scan_port answers connected kb =
      let guessed = detected regex loaded.patterns (banner_of answers.greeting) connected in
      elim (run_native_checks fp now answers.ssh answers.tls guessed kb) [
        | none ↦ none
        | some (native, kb') ↦
            let run = run_plugins guessed in
            let port = with_detected run.1 guessed in
            elim (check_port fp now loaded.fixes loaded.cves port) [
              | none ↦ none
              | some cves ↦ some (
                port,
                findings_of fp ip port (native ++ map (finding_of_plugin fp) run.0) cves,
                kb',
              )
            ]
      ]

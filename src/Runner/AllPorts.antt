-- ===== src/Runner/AllPorts.antt =====
-- src/ztl/runner.cpp: run_all. The maps by port are functions; a port without an entry has the empty
-- service, and the facts of an open port begin empty.
use zero_trust_public.Base.{
  ℕ, List, [], ◌∷◌, ◌++◌, Bytes, is_empty, if◌then◌else◌, Option, some, ◌==◌,
}
use zero_trust_public.Runtime.{Vars}
use zero_trust_public.Runner.{FindingOut}
use zero_trust_public.Runner.Plugins.{LoadedPlugin, RunOutcome}
use zero_trust_public.Runner.Passes.{filtered_out}

pub record Ports (D : Type 0) : Type 0 where
  service_of : ℕ → Bytes
  kbs : ℕ → Option (Vars D)
  pub all : List (FindingOut D)

abbrev at : {A : Type 0} → ℕ → A → (ℕ → A) → ℕ → A
at port v m p = if p == port then v else m p

-- `run` is run_plugin on the host, by the port, the service and the facts.
module _ {D : Type 0}
    (run : LoadedPlugin D → ℕ → Bytes → Option (Vars D) → RunOutcome D × Option (Vars D)) where
  -- A run of the first pass may set the service of its port.
  unfoldable detect_on : LoadedPlugin D → ℕ → Ports D → Ports D
  detect_on lp port s =
      let result = run lp port (s.service_of port) (s.kbs port) in
      let found = result.0.detected_service in
      record {
        service_of = if is_empty found then s.service_of else at port found s.service_of;
        kbs = at port result.1 s.kbs;
        all = s.all ++ result.0.findings;
      }

  unfoldable check_on : LoadedPlugin D → ℕ → Ports D → Ports D
  check_on lp port s =
      let result = run lp port (s.service_of port) (s.kbs port) in
      if filtered_out lp (s.service_of port) then s else record {
        service_of = s.service_of;
        kbs = at port result.1 s.kbs;
        all = s.all ++ result.0.findings;
      }

  unfoldable over_ports : (ℕ → Ports D → Ports D) → List ℕ → Ports D → Ports D
  over_ports act [] s = s
  over_ports act (port ∷ ports) s = over_ports act ports (act port s)

  unfoldable detect_pass : List (LoadedPlugin D) → List ℕ → Ports D → Ports D
  unfolding detect_on over_ports
  detect_pass [] ports s = s
  detect_pass (lp ∷ plugins) ports s =
      detect_pass plugins ports
        (if lp.preview_meta.filter_any then over_ports (detect_on lp) ports s else s)

  unfoldable check_pass : List (LoadedPlugin D) → List ℕ → Ports D → Ports D
  unfolding check_on over_ports
  check_pass [] ports s = s
  check_pass (lp ∷ plugins) ports s =
      check_pass plugins ports
        (if lp.preview_meta.filter_any then s else over_ports (check_on lp) ports s)

  unfoldable pub run_all : List (LoadedPlugin D) → List ℕ → List (FindingOut D)
  unfolding detect_pass check_pass
  run_all plugins open_ports =
      (check_pass plugins open_ports (
        detect_pass plugins open_ports
          (record { service_of = λ _. []; kbs = λ _. some []; all = [] }))).all

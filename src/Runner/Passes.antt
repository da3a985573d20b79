-- ===== src/Runner/Passes.antt =====
-- src/ztl/runner.cpp: run_for_port and run_all, the two passes over the plugins.
use zero_trust_public.Base.{
  Bool, true, false, not, ◌&&◌, List, [], ◌∷◌, ◌++◌, Bytes, codes, bytes_eq, is_empty,
  if◌then◌else◌, Option, some, filter_by, cons_if, ◌≡◌, refl, sym, ap, ◌∙◌,
}
use zero_trust_public.Runtime.{text, Vars}
use zero_trust_public.Runner.{FindingOut}
use zero_trust_public.Runner.Plugins.{LoadedPlugin, RunOutcome, DetectedInfo}

-- The variables of run_for_port, with the facts of the port.
pub record Port (D : Type 0) : Type 0 where
  pub svc : Bytes
  pub product : Bytes
  pub version : Bytes
  pub out : List (FindingOut D)
  pub facts : Option (Vars D)

abbrev or_kept : Bytes → Bytes → Bytes
or_kept new old = if is_empty new then old else new

unfoldable absorb : {D : Type 0} → Port D → RunOutcome D × Option (Vars D) → Port D
absorb s (r, facts) = record {
  svc = or_kept r.detected_service s.svc;
  product = or_kept r.detected_product s.product;
  version = or_kept r.detected_version s.version;
  out = s.out ++ r.findings;
  facts = facts;
}

-- Whether the second pass leaves a plugin out.
abbrev pub filtered_out : {D : Type 0} → LoadedPlugin D → Bytes → Bool
filtered_out lp svc =
    not (is_empty lp.preview_meta.filter_service)
    && not (bytes_eq lp.preview_meta.filter_service svc)

unfoldable pub start_port : {D : Type 0} → Bytes → Port D
start_port initial = record {
  svc = initial;
  product = [];
  version = [];
  out = [];
  facts = some (if is_empty initial then [] else (codes "service", text initial) ∷ []);
}

-- `run` is run_plugin on the host and the port, by the service and the facts.
module _ {D : Type 0}
    (run : LoadedPlugin D → Bytes → Option (Vars D) → RunOutcome D × Option (Vars D)) where
  unfoldable pub run_on : LoadedPlugin D → Port D → Port D
  unfolding absorb
  run_on lp s = absorb s (run lp s.svc s.facts)

  unfoldable first_pass : List (LoadedPlugin D) → Port D → Port D
  unfolding run_on
  first_pass [] s = s
  first_pass (lp ∷ plugins) s =
      first_pass plugins (if lp.preview_meta.filter_any then run_on lp s else s)

  unfoldable second_step : LoadedPlugin D → Port D → Port D
  unfolding run_on
  second_step lp s =
      if lp.preview_meta.filter_any then s else if filtered_out lp s.svc then s else run_on lp s

  unfoldable second_pass : List (LoadedPlugin D) → Port D → Port D
  unfolding second_step
  second_pass [] s = s
  second_pass (lp ∷ plugins) s = second_pass plugins (second_step lp s)

  unfoldable pub run_for_port : List (LoadedPlugin D) → Bytes → List (FindingOut D) × DetectedInfo
  unfolding first_pass second_pass start_port
  run_for_port plugins initial =
      let s = second_pass plugins (first_pass plugins (start_port initial)) in
      (s.out, record { service = s.svc; product = s.product; version = s.version })

  -- What a plugin does on its turn, with the service at that moment.
  abbrev pub turn : LoadedPlugin D → Port D → Port D
  turn lp s =
      if lp.preview_meta.filter_any
      then run_on lp s
      else if filtered_out lp s.svc
      then s
      else run_on lp s

  -- One pass in which each plugin has its turn.
  unfoldable pub one_pass : List (LoadedPlugin D) → Port D → Port D
  one_pass [] s = s
  one_pass (lp ∷ plugins) s = one_pass plugins (turn lp s)

  abbrev detects : LoadedPlugin D → Bool
  detects lp = lp.preview_meta.filter_any

  -- The plugins that detect, in their order, before all others, in theirs.
  abbrev pub detectors_first : List (LoadedPlugin D) → List (LoadedPlugin D)
  detectors_first plugins = filter_by detects plugins ++ filter_by (λ lp. not (detects lp)) plugins

  one_pass-append :
      (a b : List (LoadedPlugin D)) (s : Port D) → one_pass (a ++ b) s ≡ one_pass b (one_pass a s)
  unfolding one_pass
  one_pass-append [] b s = refl
  one_pass-append (lp ∷ a) b s = one_pass-append a b (turn lp s)

  -- The turn of a plugin by whether it detects.
  turn-detects :
      (lp : LoadedPlugin D) (s : Port D) (b : Bool)
      → lp.preview_meta.filter_any ≡ b
      → turn lp s ≡ (if b then run_on lp s else if filtered_out lp s.svc then s else run_on lp s)
  turn-detects lp s b e =
      ap (λ b. if b then run_on lp s else if filtered_out lp s.svc then s else run_on lp s) e

  first_pass-one_pass :
      (plugins : List (LoadedPlugin D)) (s : Port D)
      → first_pass plugins s ≡ one_pass (filter_by detects plugins) s
  unfolding first_pass one_pass
  first_pass-one_pass [] s = refl
  first_pass-one_pass (lp ∷ plugins) s =
      by_kind lp.preview_meta.filter_any refl (first_pass-one_pass plugins s)
        (first_pass-one_pass plugins (run_on lp s))
    where
      by_kind :
          (b : Bool)
          → lp.preview_meta.filter_any ≡ b
          → first_pass plugins s ≡ one_pass (filter_by detects plugins) s
          → first_pass plugins (run_on lp s) ≡ one_pass (filter_by detects plugins) (run_on lp s)
          → first_pass plugins (if b then run_on lp s else s)
            ≡ one_pass (cons_if b lp (filter_by detects plugins)) s
      by_kind true e h k =
          k ∙ ap (one_pass (filter_by detects plugins)) (sym (turn-detects lp s true e))
      by_kind false e h k = h

  second_pass-one_pass :
      (plugins : List (LoadedPlugin D)) (s : Port D)
      → second_pass plugins s ≡ one_pass (filter_by (λ lp. not (detects lp)) plugins) s
  unfolding second_pass second_step one_pass
  second_pass-one_pass [] s = refl
  second_pass-one_pass (lp ∷ plugins) s =
      by_kind lp.preview_meta.filter_any refl (λ t. second_pass-one_pass plugins t)
    where
      others : List (LoadedPlugin D)
      others = filter_by (λ lp. not (detects lp)) plugins

      by_kind :
          (b : Bool)
          → lp.preview_meta.filter_any ≡ b
          → ((t : Port D) → second_pass plugins t ≡ one_pass others t)
          → second_pass plugins (if b then s else if filtered_out lp s.svc then s else run_on lp s)
            ≡ one_pass (cons_if (not b) lp others) s
      by_kind true e h = h s
      by_kind false e h =
          h (if filtered_out lp s.svc then s else run_on lp s)
          ∙ ap (one_pass others) (sym (turn-detects lp s false e))

  -- The two passes over all plugins are one pass over the plugins with those that detect services put
  -- first: no plugin runs twice, and the others see the service that these found.
  pub run_for_port-one_pass :
      (plugins : List (LoadedPlugin D)) (initial : Bytes)
      → let s : Port D = one_pass (detectors_first plugins) (start_port initial) in
        run_for_port plugins initial
        ≡ (s.out, record { service = s.svc; product = s.product; version = s.version })
  unfolding run_for_port
  run_for_port-one_pass plugins initial =
      ap {A = Port D}
        (λ s. (s.out, record { service = s.svc; product = s.product; version = s.version }))
        (ap (λ s. second_pass plugins s) (first_pass-one_pass plugins (start_port initial))
          ∙ second_pass-one_pass plugins (one_pass (filter_by detects plugins) (start_port initial))
          ∙ sym (
              one_pass-append (filter_by detects plugins)
                (filter_by (λ lp. not (detects lp)) plugins) (start_port initial)))

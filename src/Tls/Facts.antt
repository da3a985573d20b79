-- ===== src/Tls/Facts.antt =====
-- Which facts of the knowledge base run_tls_checks writes.
use zero_trust_public.Base.{
  ℕ, Bool, true, false, not, List, [], ◌∷◌, ◌++◌, Bytes, bytes_eq, strip_prefix, if◌then◌else◌,
  none, some, Floats, ◌≡◌, refl, ap, ◌∙◌, Bool-cases, inl, inr, arith,
}
use zero_trust_public.Finding.{Port, Finding}
use zero_trust_public.KnowledgeBase.{KnowledgeBase, find_key, set, get}
use zero_trust_public.KnowledgeBase.Laws.{find_key-assign_key}
use zero_trust_public.Tls.Report.{TlsHandshakeReport, TlsCertificateInfo, Tls, is_ok}
use zero_trust_public.Tls.{port_looks_like_tls}
use zero_trust_public.Tls.Scan.{
  tls_prefix, store_certificate, store_handshake, checks, run_tls_checks,
}

-- The two tests that come before the checks.
abbrev walk :
    {D : Type 0}
    → Bool
    → Bool
    → KnowledgeBase
    → List (Finding D) × KnowledgeBase
    → List (Finding D) × KnowledgeBase
walk a b kb checked = if not a then ([], kb) else if not b then ([], kb) else checked

-- A key that does not begin with the prefix is none of the keys behind it.
other_key :
    (prefix name key : Bytes)
    → strip_prefix prefix key ≡ none
    → bytes_eq (prefix ++ name) key ≡ false
unfolding strip_prefix bytes_eq
other_key [] name key h = absurd (ground (arith, h))
other_key (p ∷ prefix) name [] h = refl
other_key (p ∷ prefix) name (k ∷ key) h = ground (arith, other_key prefix name key)

module _ (port : Port) (key : Bytes) (elsewhere : strip_prefix (tls_prefix port) key ≡ none) where
  get-set :
      (name value : Bytes) (kb : KnowledgeBase)
      → get key (set (tls_prefix port ++ name) value kb) ≡ get key kb
  unfolding get set
  get-set name value kb =
      find_key-assign_key (tls_prefix port ++ name) key value kb.facts
      ∙ ap (λ b. if b then some value else find_key key kb.facts)
          (other_key (tls_prefix port) name key elsewhere)

  get-store_certificate :
      (cert : TlsCertificateInfo) (kb : KnowledgeBase)
      → get key (store_certificate port cert kb) ≡ get key kb
  unfolding store_certificate
  get-store_certificate cert kb =
      get-set _ _ _ ∙ get-set _ _ _ ∙ get-set _ _ _ ∙ get-set _ _ _ ∙ get-set _ _ _ ∙ get-set _ _ _

  get-store_handshake :
      (handshake : TlsHandshakeReport) (kb : KnowledgeBase)
      → get key (store_handshake port handshake kb) ≡ get key kb
  unfolding store_handshake
  get-store_handshake handshake kb = elim (Bool-cases handshake.certificate_present) [
    | inl e ↦
        rw (store_handshake, e)
          (get-store_certificate handshake.certificate _ ∙ get-set _ _ _ ∙ get-set _ _ _)
    | inr e ↦ rw (store_handshake, e) (get-set _ _ _ ∙ get-set _ _ _)
  ]

  -- Every fact whose key does not begin with `port/<number>/tls/` is after the checks what it was.
  pub get-run_tls_checks :
      {D : Type 0} (fp : Floats D) (now : ℕ) (tls : Tls) (kb : KnowledgeBase)
      → get key (run_tls_checks fp now port tls kb).1 ≡ get key kb
  unfolding run_tls_checks
  get-run_tls_checks {D = D} fp now tls kb =
      guarded (port_looks_like_tls port) (is_ok (tls.handshake port.number 3000).result)
    where
      guarded :
          (a b : Bool)
          → get key
              (walk a b kb (
                checks fp now port tls (tls.handshake port.number 3000),
                store_handshake port (tls.handshake port.number 3000) kb,
              )).1
            ≡ get key kb
      guarded true true = get-store_handshake (tls.handshake port.number 3000) kb
      guarded true false = refl
      guarded false b = refl

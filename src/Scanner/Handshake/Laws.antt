-- ===== src/Scanner/Handshake/Laws.antt =====
-- When an attempt succeeds, and what a passing grade of its findings means.
use ctscan.Base.{
  ℕ, false, List, [], ◌∷◌, Option, none, some, Outcome, ok, err, if◌then◌else◌, ◌==◌, text_eq,
  Bytes, ◌≡◌, ◌≢◌, refl, sym, ◌∙◌, arith, is_some,
}
use ctscan.Base.Int.{◌≤ℤ◌}
use ctscan.Scanner.Certificates.{
  X509, certificate_info, validate_certificate, is_self_signed, hostname_error_of,
}
use ctscan.Scanner.Errors.{Error}
use ctscan.Scanner.Findings.{compliance_for, pass}
use ctscan.Scanner.Findings.Compliance.{graded}
use ctscan.Scanner.Findings.Certificates.{
  is_urgent, is_doubtful, compliance_for-certificate_findings,
}
use ctscan.Scanner.Handshake.{
  TlsState, Hello, Answers, World, hello_of, expected_name_of, report, reported, shaken,
  negotiated_then, secured, text_or, scan_once_with_tls,
}
use ctscan.Types.{Target, Result, Pool, Certificate, Time}

module _ (world : World) where
  -- The network answers every question of the attempt, and the server presents a certificate: the
  -- result is the report on it.
  abbrev pub Reports : Option Pool → Target → Answers → Result → Type 0
  Reports roots target answers r =
      (ip : Option Bytes) × (state : TlsState) × (leaf : X509) × (intermediates : List X509)
      × (answers.dialed ≡ ok ip)
      × (target.start_tls ≢ [] → answers.negotiated ≡ none)
      × (answers.handshake ≡ ok state)
      × (state.peer_certificates ≡ leaf ∷ intermediates)
      × (r ≡ report world roots target answers (text_or ip []) state leaf intermediates)

  -- The handshake gave a state with some certificate, and the result reports on it.
  abbrev Shows : Option Pool → Target → Answers → Bytes → Result → Type 0
  Shows roots target answers ip r =
      (state : TlsState) × (leaf : X509) × (intermediates : List X509) × (answers.handshake
        ≡ ok state)
      × (state.peer_certificates ≡ leaf ∷ intermediates)
      × (r ≡ report world roots target answers ip state leaf intermediates)

  reported_sound :
      (roots : Option Pool) (target : Target) (answers : Answers) (ip : Bytes) (state : TlsState)
      (peers : List X509) (r : Result)
      → answers.handshake ≡ ok state
      → state.peer_certificates ≡ peers
      → reported world roots target answers ip state peers ≡ ok r
      → Shows roots target answers ip r
  unfolding reported
  reported_sound roots target answers ip state [] r e p h = cc
  reported_sound roots target answers ip state (leaf ∷ intermediates) r e p h =
      (state, leaf, intermediates, e, p, cc)

  shaken_sound :
      (roots : Option Pool) (target : Target) (answers : Answers) (ip : Bytes)
      (handshake : Outcome Error TlsState) (r : Result)
      → answers.handshake ≡ handshake
      → shaken world roots target answers ip handshake ≡ ok r
      → Shows roots target answers ip r
  unfolding shaken
  shaken_sound roots target answers ip (err x) r e h = cc
  shaken_sound roots target answers ip (ok state) r e h =
      reported_sound roots target answers ip state state.peer_certificates r e refl h

  negotiated_sound :
      (roots : Option Pool) (target : Target) (answers : Answers) (ip : Bytes) (o : Option Error)
      (r : Result)
      → negotiated_then world roots target answers ip o ≡ ok r
      → (o ≡ none) × Shows roots target answers ip r
  unfolding negotiated_then
  negotiated_sound roots target answers ip (some x) r h = cc
  negotiated_sound roots target answers ip none r h =
      (refl, shaken_sound roots target answers ip answers.handshake r refl h)

  secured_sound :
      (roots : Option Pool) (target : Target) (answers : Answers) (address : Bytes)
      (dialed : Outcome Error (Option Bytes)) (r : Result)
      → answers.dialed ≡ dialed
      → secured world roots target answers address dialed ≡ ok r
      → Reports roots target answers r
  unfolding secured
  secured_sound roots target answers address (err x) r e h = cc
  secured_sound roots target answers address (ok ip) r e h =
      let (quiet, (state, leaf, intermediates, shaken, peers, made)) =
        negotiated_sound roots target answers (text_or ip [])
          (if target.start_tls == [] then none else answers.negotiated) r h in
      (ip, state, leaf, intermediates, e, (λ wanted. ground (arith, quiet)), shaken, peers, made)

  -- A successful attempt has an answer to every question, and reports on the certificates that the
  -- server presented.
  pub scan_once_sound :
      (network : Hello → Answers) (join_host_port : Bytes → Bytes → Bytes) (roots : Option Pool)
      (target : Target) (min_version max_version : ℕ) (cipher_suites : List ℕ) (r : Result)
      → scan_once_with_tls world network join_host_port roots target min_version max_version
          cipher_suites
        ≡ ok r
      → Reports roots target
          (network (hello_of world target min_version max_version cipher_suites))
          r
  unfolding scan_once_with_tls
  scan_once_sound network join_host_port roots target min_version max_version cipher_suites r h =
      let answers = network (hello_of world target min_version max_version cipher_suites) in
      secured_sound roots target answers _ answers.dialed r refl h

  -- Within its validity, issued for the name, not self-signed, and verified up to the roots.
  abbrev pub IsSound : X509 → List X509 → Bytes → Option Pool → Time → Type 0
  IsSound leaf intermediates name roots now =
      (leaf.not_before ≤ℤ now)
      × (now ≤ℤ leaf.not_after)
      × (name ≢ [])
      × (world.crypto.verify_hostname leaf name ≡ none)
      × (is_self_signed world.crypto leaf leaf.raw_subject ≡ false)
      × (world.crypto.verify leaf name roots intermediates now ≡ none)

  no_error : (o : Option Bytes) → is_some o ≡ false → o ≡ none
  no_error none h = refl
  no_error (some e) h = cc

  validate-IsSound :
      (c : Certificate) (leaf : X509) (intermediates : List X509) (name : Bytes)
      (roots : Option Pool) (now : Time)
      → is_urgent c (validate_certificate world.crypto leaf intermediates name roots now) ≡ false
      → is_doubtful c (validate_certificate world.crypto leaf intermediates name roots now) ≡ false
      → IsSound leaf intermediates name roots now
  unfolding validate_certificate hostname_error_of
  validate-IsSound c leaf intermediates name roots now urgent doubtful = (
    ground arith,
    ground arith,
    ground arith,
    no_error (world.crypto.verify_hostname leaf name) (ground arith),
    ground arith,
    no_error (world.crypto.verify leaf name roots intermediates now) (ground arith),
  )

  report-IsSound :
      (roots : Option Pool) (target : Target) (answers : Answers) (ip : Bytes) (state : TlsState)
      (leaf : X509) (intermediates : List X509)
      → compliance_for (report world roots target answers ip state leaf intermediates).findings
        ≡ pass
      → IsSound leaf intermediates (expected_name_of world target) roots answers.validation_time
  unfolding report
  report-IsSound roots target answers ip state leaf intermediates h =
      let c = certificate_info world.crypto leaf answers.leaf_time in
      let name = expected_name_of world target in
      let v =
        validate_certificate world.crypto leaf intermediates name roots answers.validation_time in
      let (urgent, doubtful) =
        graded (is_urgent c v) (is_doubtful c v)
          (sym (compliance_for-certificate_findings world.clock c v) ∙ h) in
      validate-IsSound c leaf intermediates name roots answers.validation_time urgent doubtful

  -- The server presented a certificate, and it is sound for the target.
  abbrev pub IsTrusted : Option Pool → Target → Answers → Type 0
  IsTrusted roots target answers =
      (state : TlsState) × (leaf : X509) × (intermediates : List X509) × (answers.handshake
        ≡ ok state)
      × (state.peer_certificates ≡ leaf ∷ intermediates)
      × IsSound leaf intermediates (expected_name_of world target) roots answers.validation_time

  -- A successful attempt whose findings pass has met a certificate that is valid at the time of its
  -- validation, is issued for the name expected, is not self-signed, and verifies up to the roots.
  pub scan_once-IsTrusted :
      (network : Hello → Answers) (join_host_port : Bytes → Bytes → Bytes) (roots : Option Pool)
      (target : Target) (min_version max_version : ℕ) (cipher_suites : List ℕ) (r : Result)
      → scan_once_with_tls world network join_host_port roots target min_version max_version
          cipher_suites
        ≡ ok r
      → compliance_for r.findings ≡ pass
      → IsTrusted roots target
          (network (hello_of world target min_version max_version cipher_suites))
  scan_once-IsTrusted network join_host_port roots target min_version max_version cipher_suites r h
        passes =
      let answers = network (hello_of world target min_version max_version cipher_suites) in
      let (ip, state, leaf, intermediates, dialed, quiet, shaken, peers, made) =
        scan_once_sound network join_host_port roots target min_version max_version cipher_suites r
          h in
      (
        state,
        leaf,
        intermediates,
        shaken,
        peers,
        report-IsSound roots target answers (text_or ip []) state leaf intermediates
            (rw made at passes),
      )

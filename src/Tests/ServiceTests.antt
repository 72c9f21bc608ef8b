-- ===== src/Tests/ServiceTests.antt =====
-- The theorems on scanners, handshakes and audits at concrete inputs.
use ctscan.Base.{
  ℕ, Bool, ◌≡◌, ◌↔◌, refl, true, false, ◌||◌, List, [], ◌∷◌, none, some, ok, err, Outcome,
  if◌then◌else◌, ◌==◌, text_eq, nat_eq, contains, Bytes, codes, arith,
}
use ctscan.Base.Int.{pos, negsuc}
use ctscan.Scanner.Audit.{
  VersionAnswer, scan_audit, Suite, CipherProbe, cipher_probes, accepted, with_audit_defaults,
}
use ctscan.Scanner.Audit.Probing.{
  Probing, ProbeReach, set_out, make_step, hand_probe, probes_done, accept, reject, send_cipher,
  leave_probing, take_cipher,
}
use ctscan.Scanner.Audit.Probing.Laws.{IsFullAudit, scan_audit-IsFullAudit}
use ctscan.Scanner.Audit.Laws.{IsClean, scan_audit-same, scan_audit-IsClean}
use ctscan.Scanner.Certificates.{X509, X509Name, rsa, validate_certificate}
use ctscan.Scanner.Errors.{Error}
use ctscan.Scanner.Findings.{certificate_findings, compliance_for, pass}
use ctscan.Scanner.Handshake.{
  TlsState, Hello, Answers, World, hello_of, report, scan_once_with_tls, tls_version_name,
}
use ctscan.Scanner.Handshake.Laws.{IsTrusted, scan_once-IsTrusted}
use ctscan.Scanner.Setup.{
  Proxy, Dialer, Scanner, direct, proxy_scheme, bad_concurrency, bad_retries, with_defaults,
  make_dialer, new_scanner, period_of,
}
use ctscan.Scanner.Setup.Laws.{IsConfig, IsMade, new_scanner_iff}
use ctscan.Tests.Samples.{target_for, good_result, reset_error}
use ctscan.Types.{Config, default_config, Result, AuditConfig, AuditResult}

-- A URL is its scheme.
abbrev test_proxy : Proxy Bytes
test_proxy = record { url_parse = λ text. ok text; scheme = λ url. url; socks_error = λ url. none }

abbrev slow_config : Config
slow_config = record default_config { concurrency = pos 0; rate_limit = pos 4 }

new_scanner_test :
    (new_scanner test_proxy slow_config
      ≡ ok (record {
        config = record slow_config { concurrency = pos 300 };
        dial = direct;
        period = some 250_000_000;
      }))
    × (new_scanner test_proxy (record slow_config { concurrency = negsuc 0 }) ≡ err bad_concurrency)
    × (new_scanner test_proxy (record slow_config { retries = pos 11 }) ≡ err bad_retries)
    × (new_scanner test_proxy (record slow_config { proxy_url = codes "ftp" })
        ≡ err (proxy_scheme (codes "ftp")))
    × (period_of (pos 2_000_000) ≡ some 1_000)
unfolding new_scanner text_eq nat_eq
new_scanner_test = (refl, refl, refl, refl, refl)

new_scanner_iff_example : ((s : Scanner Bytes) × IsMade test_proxy slow_config s) ↔ (
    IsConfig (with_defaults slow_config)
    × ((d : Dialer Bytes) × (make_dialer test_proxy (with_defaults slow_config) ≡ ok d)))
new_scanner_iff_example = new_scanner_iff test_proxy slow_config

abbrev name_for : Bytes → X509Name
name_for text = record {
  text = text;
  common_name = text;
  organization = [];
  organizational_unit = [];
  country = [];
  province = [];
  locality = [];
}

abbrev leaf : X509
leaf = record {
  raw = codes "leaf";
  subject = name_for (codes "example.com");
  issuer = name_for (codes "ca");
  raw_subject = some (codes "example.com");
  raw_issuer = codes "ca";
  dns_names = codes "example.com" ∷ [];
  email_addresses = [];
  ip_addresses = [];
  uris = [];
  serial_text = codes "1f";
  not_before = pos 0;
  not_after = pos 9_000;
  public_key_algorithm = codes "RSA";
  signature_algorithm = codes "SHA256-RSA";
  is_ca = false;
  extensions = [];
  public_key = rsa 2048;
}

abbrev test_world : World
test_world = record {
  crypto = record {
    sha256 = λ raw. raw;
    days = λ d. d;
    signs_itself = λ cert. false;
    verify_hostname = λ cert name. if contains cert.dns_names name then none else some (codes "no");
    verify = λ cert name roots intermediates now. none;
  };
  clock = record { format_rfc3339 = λ t. [] };
  is_ip = λ host. false;
  no_certificate = reset_error;
}

abbrev test_state : TlsState
test_state = record {
  peer_certificates = leaf ∷ [];
  version = 0x0304;
  curve = none;
  cipher = codes "TLS_AES_128_GCM_SHA256";
  negotiated_protocol = codes "h2";
  did_resume = false;
  handshake_complete = true;
  ocsp_response = [];
  client_cert_requested = false;
}

-- A server on port 443 that offers TLS 1.3.
abbrev test_answers : Answers
test_answers = record {
  dialed = ok (some (codes "192.0.2.1"));
  negotiated = none;
  handshake = ok test_state;
  started = pos 5_000;
  leaf_time = pos 5_000;
  chain_time = λ i. pos 5_000;
  validation_time = pos 5_001;
}

abbrev test_network : Hello → Answers
test_network hello =
    if hello.port == 443 then test_answers else record test_answers { dialed = err reset_error }

abbrev test_report : Result
test_report =
    report test_world none (target_for (codes "example.com")) test_answers (codes "192.0.2.1")
      test_state leaf []

no_joining : Bytes → Bytes → Bytes
no_joining host port = host

scan_once_test :
    scan_once_with_tls test_world test_network no_joining none
      (target_for (codes "example.com"))
      0
      0
      []
    ≡ ok test_report
unfolding scan_once_with_tls nat_eq text_eq
scan_once_test = refl

test_report-pass : compliance_for test_report.findings ≡ pass
unfolding report compliance_for certificate_findings validate_certificate nat_eq text_eq
test_report-pass = refl

scan_once-IsTrusted_example :
    IsTrusted test_world none
      (target_for (codes "example.com"))
      (test_network (hello_of test_world (target_for (codes "example.com")) 0 0 []))
scan_once-IsTrusted_example =
    scan_once-IsTrusted test_world test_network no_joining none (target_for (codes "example.com")) 0
      0 [] test_report scan_once_test test_report-pass

version_name_tests :
    (tls_version_name 0x0303 ≡ codes "TLS1.2") × (tls_version_name 0x0300 ≡ codes "0x0300")
unfolding tls_version_name nat_eq
version_name_tests = (refl, refl)

abbrev scanned : Result
scanned = good_result (codes "example.com") []

abbrev with_cipher : Bytes → Outcome Error Result
with_cipher cipher = ok (record scanned {
  tls = some (record {
    version = [];
    cipher = cipher;
    key_exchange = [];
    alpn = [];
    did_resume = false;
    handshake_complete = true;
    ocsp_stapled = false;
    client_cert_required = false;
  });
})

-- A service that offers TLS 1.2 and TLS 1.3.
abbrev version_answer : ℕ → VersionAnswer
version_answer id = record {
  rate = none;
  outcome =
      if id == 0x0304
      then with_cipher (codes "TLS_AES_128_GCM_SHA256")
      else if id == 0x0303
      then with_cipher (codes "TLS_ECDHE_RSA_WITH_AES_128_GCM_SHA256")
      else err reset_error;
}

abbrev empty_audit : AuditConfig
empty_audit = record { audit_profile = []; cipher_concurrency = pos 0 }

abbrev arrivals : List Bytes
arrivals =
    codes "TLS_ECDHE_RSA_WITH_AES_256_GCM_SHA384"
    ∷ codes "TLS_ECDHE_RSA_WITH_AES_128_GCM_SHA256"
    ∷ []

abbrev test_audit : AuditResult
test_audit = record {
  profile = codes "intermediate";
  compliance = codes "pass";
  supported_versions = codes "TLS1.2" ∷ codes "TLS1.3" ∷ [];
  supported_ciphers =
      codes "TLS_AES_128_GCM_SHA256"
      ∷ codes "TLS_ECDHE_RSA_WITH_AES_128_GCM_SHA256"
      ∷ codes "TLS_ECDHE_RSA_WITH_AES_256_GCM_SHA384"
      ∷ [];
}

scan_audit_test : (scan_audit empty_audit scanned version_answer arrivals).audit ≡ some test_audit
unfolding scan_audit nat_eq text_eq
scan_audit_test = refl

-- Two suites, of which the service agrees to the first, at TLS 1.2.
abbrev test_suites : List Suite
test_suites =
    record { id = 0xC030; supported_versions = 0x0303 ∷ 0x0304 ∷ [] }
    ∷ record { id = 0xC02F; supported_versions = 0x0303 ∷ [] }
    ∷ []

abbrev strong_cipher : Bytes
strong_cipher = codes "TLS_ECDHE_RSA_WITH_AES_256_GCM_SHA384"

abbrev suite_name : CipherProbe → Bytes
suite_name probe = if probe.id == 0xC030 then strong_cipher else codes "other"

abbrev probe_outcome : CipherProbe → Outcome Error Result
probe_outcome probe = if probe.id == 0xC030 then with_cipher strong_cipher else err reset_error

abbrev one_worker : AuditConfig
one_worker = record { audit_profile = []; cipher_concurrency = pos 1 }

abbrev probed : Probing
probed = record {
  pending = [];
  closed = true;
  idle = 0;
  probing = [];
  sending = [];
  departed = 1;
  buffer = [];
  arrived = strong_cipher ∷ [];
  canceled = false;
}

first_probed : ProbeReach 1 suite_name probe_outcome test_suites (record probed {
  pending = record { id = 0xC02F; version = 0x0303 } ∷ [];
  closed = false;
  idle = 1;
  departed = 0;
})
unfolding cipher_probes accepted nat_eq text_eq
first_probed =
    make_step
      (make_step
        (make_step (make_step set_out (hand_probe refl refl refl))
          (accept (record { id = 0xC030; version = 0x0303 }) [] [] refl refl))
        (send_cipher strong_cipher [] [] refl (omega arith)))
      (take_cipher refl)

probed-ProbeReach : ProbeReach 1 suite_name probe_outcome test_suites probed
unfolding accepted nat_eq text_eq
probed-ProbeReach =
    make_step
      (make_step
        (make_step (make_step first_probed (hand_probe refl refl refl))
          (reject (record { id = 0xC02F; version = 0x0303 }) [] [] refl refl))
        (probes_done refl refl))
      (leave_probing refl refl)

scan_audit-IsFullAudit_example :
    IsFullAudit suite_name probe_outcome one_worker test_suites scanned version_answer
      (scan_audit one_worker scanned version_answer (strong_cipher ∷ []))
unfolding with_audit_defaults
scan_audit-IsFullAudit_example =
    scan_audit-IsFullAudit suite_name probe_outcome one_worker test_suites scanned version_answer
      probed refl probed-ProbeReach (refl, refl) refl

scan_audit-IsClean_example : IsClean scanned test_audit
scan_audit-IsClean_example =
    scan_audit-IsClean empty_audit scanned version_answer arrivals test_audit refl scan_audit_test
      refl

abbrev turned : List Bytes
turned =
    codes "TLS_ECDHE_RSA_WITH_AES_128_GCM_SHA256"
    ∷ codes "TLS_ECDHE_RSA_WITH_AES_256_GCM_SHA384"
    ∷ []

or_comm : (a b : Bool) → (a || (b || false)) ≡ (b || (a || false))
or_comm a b = ground arith

turned-same : (a : Bytes) → contains arrivals a ≡ contains turned a
turned-same a =
    or_comm (a == codes "TLS_ECDHE_RSA_WITH_AES_256_GCM_SHA384")
      (a == codes "TLS_ECDHE_RSA_WITH_AES_128_GCM_SHA256")

scan_audit-same_example :
    scan_audit empty_audit scanned version_answer arrivals
    ≡ scan_audit empty_audit scanned version_answer turned
scan_audit-same_example =
    scan_audit-same empty_audit scanned version_answer arrivals turned turned-same

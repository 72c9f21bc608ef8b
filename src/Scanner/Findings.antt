-- ===== src/Scanner/Findings.antt =====
-- `complianceFor` and `auditFindings` of pkg/ctscan/audit.go, `certificateFindings` of
-- pkg/ctscan/scanner.go. The texts of titles, remediations and references are constants.
pub mod Compliance
pub mod Audit
pub mod Certificates
use ctscan.Base.{
  ℕ, zero, suc, Bool, true, false, not, ◌&&◌, ◌||◌, List, [], ◌∷◌, ◌++◌, Option, none, some, ltb,
  if◌then◌else◌, ◌==◌, text_eq, Bytes, codes, ◌≡◌, refl,
}
use ctscan.Base.Decimal.{decimal, show_int}
use ctscan.Base.Int.{ℤ, pos, negsuc, ltb_ℤ}
use ctscan.Base.Text.{to_upper, has_text, has_prefix}
use ctscan.Types.{Finding, Certificate, Validation, AuditResult, Time}

abbrev pub critical : Bytes
critical = codes "critical"

abbrev pub high : Bytes
high = codes "high"

abbrev pub medium : Bytes
medium = codes "medium"

abbrev pub low : Bytes
low = codes "low"

abbrev pub pass : Bytes
pass = codes "pass"

abbrev pub warn : Bytes
warn = codes "warn"

abbrev pub fail : Bytes
fail = codes "fail"

-- The loop of `complianceFor`; the first argument is `compliance`.
compliance_loop : Bytes → List Finding → Bytes
compliance_loop compliance [] = compliance
compliance_loop compliance (finding ∷ findings) =
    let s = finding.severity in
    let rest = compliance_loop (if s == medium || s == low then warn else compliance) findings in
    if s == critical || s == high then fail else rest

unfoldable pub compliance_for : List Finding → Bytes
unfolding compliance_loop
compliance_for = compliance_loop pass

abbrev owasp_tls : Bytes
owasp_tls =
    codes
      "https://owasp.org/www-project-web-security-testing-guide/latest/4-Web_Application_Security_Testing/09-Testing_for_Weak_Cryptography/01-Testing_for_Weak_Transport_Layer_Security"

abbrev tls_ref : Bytes
tls_ref = codes "https://docs.tlsref.org/"

-- The switch on one version.
version_findings : Bytes → Bytes → List Finding
version_findings profile version =
    if version == codes "TLS1.0" || version == codes "TLS1.1"
    then record {
      id = codes "tls-deprecated-version";
      severity = high;
      title = codes "Deprecated TLS version is supported";
      evidence = version;
      remediation = codes "Disable TLS 1.0 and TLS 1.1; require TLS 1.2 or TLS 1.3.";
      references = owasp_tls ∷ tls_ref ∷ [];
    }
      ∷ []
    else if version == codes "TLS1.2" && profile == codes "modern"
    then record {
      id = codes "tls-modern-profile-version";
      severity = medium;
      title = codes "TLS 1.2 is outside the modern policy";
      evidence = version;
      remediation = codes "Require TLS 1.3 when compatibility requirements allow it.";
      references = tls_ref ∷ [];
    }
      ∷ []
    else []

-- The switch on the upper-case name of a cipher: its severity and the reason.
cipher_grade : Bytes → Option (Bytes × Bytes)
cipher_grade upper =
    if has_text upper (codes "NULL")
      || has_text upper (codes "ANON")
      || has_text upper (codes "EXPORT")
    then some (critical, codes "unauthenticated or unencrypted cipher")
    else if has_text upper (codes "RC4") || has_text upper (codes "3DES")
    then some (high, codes "deprecated cipher")
    else if has_text upper (codes "CBC")
        || not (has_text upper (codes "GCM"))
          && not (has_text upper (codes "CHACHA20"))
          && not (has_prefix upper (codes "TLS_AES_"))
    then some (medium, codes "legacy non-AEAD cipher")
    else none

weak_cipher : Bytes → Option (Bytes × Bytes) → List Finding
weak_cipher cipher none = []
weak_cipher cipher (some (severity, reason)) =
    record {
      id = codes "tls-weak-cipher";
      severity = severity;
      title = codes "Weak TLS cipher is supported";
      evidence = cipher ++ (codes " (" ++ (reason ++ codes ")"));
      remediation = codes "Restrict the service to TLSRef-recommended AEAD cipher suites.";
      references = owasp_tls ∷ tls_ref ∷ [];
    }
    ∷ []

for_versions : Bytes → List Bytes → List Finding → List Finding
for_versions profile [] findings = findings
for_versions profile (version ∷ versions) findings =
    for_versions profile versions (findings ++ version_findings profile version)

for_ciphers : List Bytes → List Finding → List Finding
for_ciphers [] findings = findings
for_ciphers (cipher ∷ ciphers) findings =
    for_ciphers ciphers (findings ++ weak_cipher cipher (cipher_grade (to_upper cipher)))

unfoldable pub audit_findings : AuditResult → Bytes → List Finding
unfolding for_versions for_ciphers version_findings weak_cipher cipher_grade to_upper has_text
    has_prefix
audit_findings audit profile =
    for_ciphers audit.supported_ciphers (for_versions profile audit.supported_versions [])

-- `time.Time.Format(time.RFC3339)`
pub record Clock : Type 0 where
  pub format_rfc3339 : Time → Bytes

add : Bytes → Bytes → Bytes → Bytes → Bytes → Finding
add id severity title evidence remediation = record {
  id = id;
  severity = severity;
  title = title;
  evidence = evidence;
  remediation = remediation;
  references = owasp_tls ∷ codes "https://datatracker.ietf.org/doc/html/rfc5280" ∷ [];
}

-- the four tests of `certificateFindings` that follow one another, each with the findings it adds
validity_findings : Clock → Certificate → Validation → List Finding
validity_findings clock cert validation =
    if validation.expired
    then add (codes "cert-expired") high (codes "Certificate is expired")
        (clock.format_rfc3339 cert.not_after)
        (codes "Replace the certificate and deploy the complete chain.")
      ∷ []
    else if validation.not_yet_valid
    then add (codes "cert-not-yet-valid") high (codes "Certificate is not yet valid")
        (clock.format_rfc3339 cert.not_before)
        (codes "Deploy a certificate whose validity period includes the current time.")
      ∷ []
    else if ltb_ℤ cert.days_remaining (pos 7)
    then add (codes "cert-expiry-critical") high (codes "Certificate expires within 7 days")
        (show_int cert.days_remaining ++ codes " days remaining")
        (codes "Renew and deploy the certificate immediately.")
      ∷ []
    else if ltb_ℤ cert.days_remaining (pos 30)
    then add (codes "cert-expiry-soon") medium (codes "Certificate expires within 30 days")
        (show_int cert.days_remaining ++ codes " days remaining")
        (codes "Schedule certificate renewal.")
      ∷ []
    else []

hostname_findings : Validation → List Finding
hostname_findings validation =
    if not validation.hostname_match
    then add (codes "cert-hostname-mismatch") high
        (codes "Certificate does not match the requested identity") validation.hostname_error
        (codes "Deploy a certificate containing the requested DNS name or IP SAN.")
      ∷ []
    else []

trust_findings : Certificate → Validation → List Finding
trust_findings cert validation =
    if validation.self_signed
    then add (codes "cert-self-signed") medium (codes "Certificate is self-signed")
        cert.subject.string
        (codes
          "Use a certificate issued by an appropriate trusted CA where public trust is required.")
      ∷ []
    else if not validation.trusted
    then add (codes "cert-untrusted") medium (codes "Certificate chain is not trusted")
        validation.trust_error
        (codes "Deploy a complete chain anchored in an appropriate trust store.")
      ∷ []
    else []

key_findings : Certificate → List Finding
key_findings cert =
    if cert.public_key_algorithm == codes "RSA"
      && ltb 0 cert.public_key_bits
      && ltb cert.public_key_bits 2048
    then add (codes "cert-weak-rsa-key") high (codes "Certificate uses a weak RSA key")
        (decimal cert.public_key_bits ++ codes " bits")
        (codes
          "Replace it with at least a 2048-bit RSA key or a suitable modern elliptic-curve key.")
      ∷ []
    else []

signature_findings : Certificate → List Finding
signature_findings cert =
    let signature = to_upper cert.signature_algorithm in
    if has_text signature (codes "MD5") || has_text signature (codes "SHA1")
    then add (codes "cert-weak-signature") high
        (codes "Certificate uses a deprecated signature algorithm") cert.signature_algorithm
        (codes "Reissue the certificate using SHA-256 or stronger.")
      ∷ []
    else []

unfoldable pub certificate_findings : Clock → Option Certificate → Option Validation → List Finding
unfolding validity_findings hostname_findings trust_findings key_findings signature_findings add
    show_int to_upper has_text
certificate_findings clock (some cert) (some validation) =
    validity_findings clock cert validation
    ++ (hostname_findings validation
        ++ (trust_findings cert validation ++ (key_findings cert ++ signature_findings cert)))
certificate_findings clock (some cert) none = []
certificate_findings clock none validation = []

-- ===== src/Tests/ScannerTests.antt =====
-- The theorems on pkg/ctscan at concrete inputs.
use ctscan.Base.{
  ℕ, zero, suc, ◌≡◌, ◌<◌, ◌↔◌, refl, ◌&&◌, ◌||◌, List, [], ◌∷◌, none, some, ok, err, if◌then◌else◌,
  ◌==◌, Option, text_eq, nat_eq, Bytes, codes,
}
use ctscan.Base.Int.{pos}
use ctscan.Base.Text.{to_lower, trim_space, has_prefix}
use ctscan.Scanner.Errors.{classify_error, IsKind, may_pass, classify_error_lem}
use ctscan.Scanner.Findings.{
  compliance_for, audit_findings, certificate_findings, Clock, pass, warn, fail, critical, low,
}
use ctscan.Scanner.Findings.Audit.{
  some_deprecated, some_broken, some_tls12, some_legacy, compliance_for-audit_findings,
}
use ctscan.Scanner.Findings.Certificates.{
  is_urgent, is_doubtful, compliance_for-certificate_findings,
}
use ctscan.Scanner.Retry.{Attempt, elapsed, attempts, scan}
use ctscan.Scanner.Retry.Bounds.{IsBounded, attempts-IsBounded}
use ctscan.Scanner.Retry.Endings.{Ends, scan-Ends}
use ctscan.Scanner.Retry.Laws.{Succeeds, attempts_iff}
use ctscan.Scanner.StartTls.{Answer, received, Talk, negotiate}
use ctscan.Scanner.StartTls.Turns.{turns_of, IsNegotiated}
use ctscan.Scanner.StartTls.Turns.Laws.{negotiate-Obeys}
use ctscan.Tests.Samples.{certificate_for, good_validation, target_for, good_result, reset_error}
use ctscan.Types.{Finding, AuditResult}

abbrev finding_of : Bytes → Finding
finding_of severity = record {
  id = codes "x";
  severity = severity;
  title = [];
  evidence = [];
  remediation = [];
  references = [];
}

abbrev two_findings : List Finding
two_findings = finding_of low ∷ finding_of critical ∷ []

abbrev old_service : AuditResult
old_service = record {
  profile = codes "intermediate";
  compliance = [];
  supported_versions = codes "TLS1.0" ∷ codes "TLS1.2" ∷ [];
  supported_ciphers = codes "TLS_RSA_WITH_RC4_128_SHA" ∷ [];
}

compliance_for-audit_findings_example :
    compliance_for (audit_findings old_service (codes "modern")) ≡ (
      if some_deprecated old_service.supported_versions || some_broken old_service.supported_ciphers
      then fail
      else if (codes "modern" == codes "modern" && some_tls12 old_service.supported_versions)
          || some_legacy old_service.supported_ciphers
      then warn
      else pass)
compliance_for-audit_findings_example = compliance_for-audit_findings old_service (codes "modern")

abbrev test_clock : Clock
test_clock = record { format_rfc3339 = λ t. codes "2026" }

compliance_for-certificate_findings_example :
    compliance_for
      (certificate_findings test_clock (some (certificate_for [] [])) (some good_validation))
    ≡ (if is_urgent (certificate_for [] []) good_validation
        then fail
        else if is_doubtful (certificate_for [] []) good_validation
        then warn
        else pass)
compliance_for-certificate_findings_example =
    compliance_for-certificate_findings test_clock (certificate_for [] []) good_validation

classify_error_lem_example :
    IsKind reset_error (classify_error (some reset_error)).kind
    × ((classify_error (some reset_error)).message ≡ reset_error.text)
    × ((classify_error (some reset_error)).retryable ≡ may_pass reset_error)
classify_error_lem_example = classify_error_lem reset_error

-- One attempt meets a reset, the next one succeeds.
abbrev test_script : ℕ → Attempt
test_script zero = record { rate = none; wait = elapsed; outcome = err reset_error }
test_script (suc n) = record {
  rate = none;
  wait = elapsed;
  outcome = ok (good_result (codes "example.com") []);
}

attempts_iff_example :
    ((attempts test_script 2 0 none [] 0).outcome ≡ ok (good_result (codes "example.com") []))
    ↔ ((k : ℕ) × (k < 2) × Succeeds test_script k 0 (good_result (codes "example.com") []))
attempts_iff_example = attempts_iff test_script 2 (good_result (codes "example.com") [])

attempts-IsBounded_example : IsBounded 2 (attempts test_script 2 0 none [] 0)
attempts-IsBounded_example = attempts-IsBounded test_script 2

scan-Ends_example :
    Ends 1 test_script
      (pos 0)
      (pos 12)
      (target_for (codes "example.com"))
      (scan (pos 1) test_script (pos 0) (pos 12) (target_for (codes "example.com")))
unfolding text_eq
scan-Ends_example = scan-Ends 1 test_script (pos 0) (pos 12) (target_for (codes "example.com")) refl

abbrev mail_answers : List Answer
mail_answers =
    received (codes "220 mx.example.com\r\n")
    ∷ received (codes "250-mx.example.com\r\n")
    ∷ received (codes "250 STARTTLS\r\n")
    ∷ received (codes "220 go ahead\r\n")
    ∷ []

abbrev mail_talk : Talk
mail_talk = record { answers = mail_answers; sent = [] }

abbrev accepts_all : List Bytes → Bytes → Option Bytes
accepts_all sent message = none

negotiate_test : negotiate accepts_all (codes "SMTP") mail_talk ≡ (
  record { answers = []; sent = codes "EHLO ctscan\r\n" ∷ codes "STARTTLS\r\n" ∷ [] },
  ok (codes "220 go ahead"),
)
unfolding negotiate text_eq nat_eq to_lower trim_space has_prefix
negotiate_test = refl

negotiate-Obeys_example :
    IsNegotiated accepts_all
      (turns_of (to_lower (codes "SMTP")))
      (codes "SMTP")
      mail_talk
      (negotiate accepts_all (codes "SMTP") mail_talk)
negotiate-Obeys_example = negotiate-Obeys accepts_all (codes "SMTP") mail_talk

abbrev ldap_answer : Bytes
ldap_answer = 48 ∷ 12 ∷ 10 ∷ 1 ∷ 0 ∷ 4 ∷ []

abbrev success_mark : Bytes
success_mark = 10 ∷ 1 ∷ 0 ∷ []

-- ===== src/Scanner/Audit/Probing/Laws.antt =====
-- What an audit lists when its pool of probes ends without a cancellation.
use ctscan.Base.{
  ℕ, zero, suc, ◌<◌, false, ◌||◌, List, ◌++◌, some, Outcome, ◌≡◌, ap, ◌∙◌, arith, if◌then◌else◌,
  text_eq, Bytes, codes, contains,
}
use ctscan.Base.Int.{ℤ, pos, negsuc, ltb_ℤ}
use ctscan.Scanner.Audit.{
  Suite, CipherProbe, audit_versions, with_audit_defaults, VersionAnswer, scan_audit,
}
use ctscan.Scanner.Audit.Laws.{any_version, any_cipher, scan_audit-IsAudit}
use ctscan.Scanner.Audit.Probing.{Probing, workers_of, ProbeReach, HasProbed}
use ctscan.Scanner.Audit.Probing.Conserved.{some_suite, arrived-some_suite}
use ctscan.Scanner.Errors.{Error}
use ctscan.Scanner.Findings.{audit_findings, compliance_for}
use ctscan.Types.{Result, AuditConfig, AuditResult}

-- The number of workers of an audit.
abbrev pub audit_workers : AuditConfig → ℕ
audit_workers cfg = workers_of (with_audit_defaults cfg).cipher_concurrency

audit_workers-positive : (cfg : AuditConfig) → 0 < audit_workers cfg
unfolding with_audit_defaults
audit_workers-positive cfg = by_number cfg.cipher_concurrency
  where
    by_number : (n : ℤ) → 0 < workers_of (if ltb_ℤ n (pos 1) then pos 10 else n)
    by_number (pos zero) = grind arith
    by_number (pos (suc n)) = grind arith
    by_number (negsuc n) = grind arith

module _ (name_of : CipherProbe → Bytes) (outcomes : CipherProbe → Outcome Error Result) where
  -- The versions that an audit lists are those to which the server agrees when it is asked for them
  -- alone, before the rate limiter ends the probes; the ciphers are those negotiated then, and those
  -- to which it agrees when it is asked for one alone, of some suite at a version up to TLS 1.2.
  abbrev pub IsFullAudit : AuditConfig → List Suite → Result → (ℕ → VersionAnswer) → Result → Type 0
  IsFullAudit cfg suites scanned answers r =
      (a : AuditResult) × (r.audit ≡ some a)
      × ((name : Bytes)
          → contains a.supported_versions name ≡ any_version answers audit_versions name)
      × ((cipher : Bytes)
          → contains a.supported_ciphers cipher ≡ (
              any_cipher answers audit_versions cipher
              || some_suite name_of outcomes suites cipher))
      × (r.findings ≡ scanned.findings ++ audit_findings a (with_audit_defaults cfg).audit_profile)
      × (a.compliance ≡ compliance_for r.findings)

  -- An audit of a target that was scanned with success, whose pool of cipher probes has ended with no
  -- cancellation, lists exactly the versions to which the server agreed, and exactly the ciphers that
  -- it negotiated with them or agreed to in a probe of a suite at a version up to TLS 1.2; it adds its
  -- findings to those of the scan, and grades all of them together.
  pub scan_audit-IsFullAudit :
      (cfg : AuditConfig) (suites : List Suite) (scanned : Result) (answers : ℕ → VersionAnswer)
      (s : Probing)
      → scanned.status ≡ codes "success"
      → ProbeReach (audit_workers cfg) name_of outcomes suites s
      → HasProbed (audit_workers cfg) name_of outcomes s
      → s.canceled ≡ false
      → IsFullAudit cfg suites scanned answers (scan_audit cfg scanned answers s.arrived)
  scan_audit-IsFullAudit cfg suites scanned answers s success h ended live =
      let (a, listed, versions, ciphers, added, graded_all) =
        scan_audit-IsAudit cfg scanned answers s.arrived success in
      (
        a,
        listed,
        versions,
        λ c.
            ciphers c
            ∙ ap (λ b. any_cipher answers audit_versions c || b)
                (arrived-some_suite name_of outcomes (audit_workers-positive cfg) h ended live c),
        added,
        graded_all,
      )

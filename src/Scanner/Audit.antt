-- ===== src/Scanner/Audit.antt =====
-- `ScanAudit` of pkg/ctscan/audit.go. The result of `Scan`, the answers to the probes of versions and
-- the accepted ciphers, in the order in which they arrive, are arguments; these ciphers are what the
-- pool of Probing has taken when it ends.
pub mod Laws
pub mod Probing
use ctscan.Base.{
  ℕ, suc, ◌+◌, Bool, true, false, ◌&&◌, ◌||◌, not, List, [], ◌∷◌, ◌++◌, Option, none, some, Outcome,
  ok, err, if◌then◌else◌, ◌==◌, nat_eq, text_eq, leb, Bytes, codes, push_new,
}
use ctscan.Base.Int.{ℤ, pos, ltb_ℤ}
use ctscan.Base.TextOrder.{sort_texts}
use ctscan.Scanner.Errors.{Error}
use ctscan.Scanner.Findings.{audit_findings, compliance_for}
use ctscan.Types.{Result, TlsInfo, AuditConfig, AuditResult}

-- A version of TLS that is probed, and a cipher at a version.
pub record Candidate : Type 0 where
  pub id : ℕ
  pub name : Bytes

pub record Suite : Type 0 where
  pub id : ℕ
  pub supported_versions : List ℕ

pub record CipherProbe : Type 0 where
  pub id : ℕ
  pub version : ℕ

abbrev pub audit_versions : List Candidate
audit_versions =
    record { id = 0x0301; name = codes "TLS1.0" }
    ∷ record { id = 0x0302; name = codes "TLS1.1" }
    ∷ record { id = 0x0303; name = codes "TLS1.2" }
    ∷ record { id = 0x0304; name = codes "TLS1.3" }
    ∷ []

-- The defaults for an empty profile and for no positive number of workers.
unfoldable pub with_audit_defaults : AuditConfig → AuditConfig
with_audit_defaults cfg = record {
  audit_profile = if cfg.audit_profile == [] then codes "intermediate" else cfg.audit_profile;
  cipher_concurrency =
      if ltb_ℤ cfg.cipher_concurrency (pos 1) then pos 10 else cfg.cipher_concurrency;
}

-- What the probes have found: the names of versions, and the ciphers negotiated, which is a map used
-- as a set.
pub record Found : Type 0 where
  pub versions : List Bytes
  pub negotiated : List Bytes

unfoldable pub negotiated_by : Option TlsInfo → List Bytes
negotiated_by none = []
negotiated_by (some tls) = if tls.cipher == [] then [] else tls.cipher ∷ []

-- `negotiated[cipher] = struct{}{}`, for each
unfoldable pub push_all : List Bytes → List Bytes → List Bytes
unfolding push_new
push_all set [] = set
push_all set (cipher ∷ ciphers) = push_all (push_new set cipher) ciphers

abbrev succeeds : Result → Bool
succeeds result = result.status == codes "success"

unfoldable pub note_version : Bytes → Outcome Error Result → Found → Found
unfolding push_all negotiated_by
note_version name (err e) found = found
note_version name (ok probe) found =
    if succeeds probe
    then record {
      versions = found.versions ++ name ∷ [];
      negotiated = push_all found.negotiated (negotiated_by probe.tls);
    }
    else found

-- The answers to the probe of a version: of `waitRate`, and of `scanOnceWithTLS` at that version.
pub record VersionAnswer : Type 0 where
  pub rate : Option Error
  pub outcome : Outcome Error Result

rated : Option Error → Found → Found → Found
rated (some e) found later = found
rated none found later = later

unfoldable pub probe_versions : (ℕ → VersionAnswer) → List Candidate → Found → Found
unfolding rated note_version
probe_versions answers [] found = found
probe_versions answers (candidate ∷ candidates) found =
    let answer = answers candidate.id in
    let later =
      probe_versions answers candidates (note_version candidate.name answer.outcome found) in
    rated answer.rate found later

-- `version <= tls.VersionTLS12`
probes_at : ℕ → List ℕ → List CipherProbe
probes_at id [] = []
probes_at id (version ∷ versions) =
    let rest = probes_at id versions in
    if leb version 0x0303 then record { id = id; version = version } ∷ rest else rest

unfoldable pub cipher_probes : List Suite → List CipherProbe
unfolding probes_at
cipher_probes [] = []
cipher_probes (suite ∷ suites) = probes_at suite.id suite.supported_versions ++ cipher_probes suites

cipher_if : Bytes → Bool → Option TlsInfo → List Bytes
cipher_if wanted success none = []
cipher_if wanted success (some tls) =
    if success && tls.cipher == wanted then tls.cipher ∷ [] else []

-- The cipher that a worker sends for a probe, if any; `wanted` is `tls.CipherSuiteName(probe.id)`.
unfoldable pub accepted : Bytes → Outcome Error Result → List Bytes
unfolding cipher_if
accepted wanted (err e) = []
accepted wanted (ok attempt) = cipher_if wanted (succeeds attempt) attempt.tls

-- The end of `ScanAudit`, on what the probes of versions found and the ciphers that arrived.
unfoldable pub conclude_audit : Result → Bytes → Found → List Bytes → Result
unfolding push_all sort_texts audit_findings compliance_for
conclude_audit result profile found arrivals =
    let probed : AuditResult = record {
      profile = profile;
      compliance = codes "pass";
      supported_versions = sort_texts found.versions;
      supported_ciphers = sort_texts (push_all found.negotiated arrivals);
    } in
    let findings = result.findings ++ audit_findings probed profile in
    record result {
      audit = some (record probed { compliance = compliance_for findings });
      findings = findings;
    }

abbrev pub nothing_found : Found
nothing_found = record { versions = []; negotiated = [] }

unfoldable pub scan_audit : AuditConfig → Result → (ℕ → VersionAnswer) → List Bytes → Result
unfolding with_audit_defaults probe_versions conclude_audit
scan_audit cfg scanned answers arrivals =
    if succeeds scanned
    then conclude_audit scanned (with_audit_defaults cfg).audit_profile
        (probe_versions answers audit_versions nothing_found) arrivals
    else scanned

-- ===== src/Scanner/Audit/Laws.antt =====
-- What an audit lists, that no order of the answers matters, and what its passing grade means.
use ctscan.Base.{
  ℕ, Bool, true, false, ◌&&◌, ◌||◌, List, [], ◌∷◌, ◌++◌, Option, none, some, Outcome, ok, err, ◌==◌,
  text_eq, Bytes, codes, ◌≡◌, refl, sym, ap, ◌∙◌, arith, contains, Distinct, contains-append,
  contains-push_new, push_new-Distinct, push_new, Bool-cases, Option-cases, ==_iff, inl, inr,
}
use ctscan.Base.TextOrder.{sort_texts, sort_texts-perm, contains-sort_texts}
use ctscan.Base.Weights.{Distinct-Perm}
use ctscan.Scanner.Audit.{
  Candidate, audit_versions, with_audit_defaults, Found, negotiated_by, push_all, succeeds,
  note_version, VersionAnswer, rated, probe_versions, conclude_audit, nothing_found, scan_audit,
}
use ctscan.Scanner.Errors.{Error}
use ctscan.Scanner.Findings.{audit_findings, compliance_for, pass}
use ctscan.Scanner.Findings.Audit.{
  some_deprecated, some_broken, some_tls12, some_legacy, compliance_for-audit_findings,
}
use ctscan.Scanner.Findings.Compliance.{graded, compliance-append-pass}
use ctscan.Types.{Result, AuditConfig, AuditResult}

push_all-Distinct : (set cs : List Bytes) → Distinct set → Distinct (push_all set cs)
unfolding push_all
push_all-Distinct set [] d = d
push_all-Distinct set (c ∷ cs) d = push_all-Distinct (push_new set c) cs (push_new-Distinct set c d)

contains-push_all :
    (set cs : List Bytes) (a : Bytes)
    → contains (push_all set cs) a ≡ (contains set a || contains cs a)
unfolding push_all
contains-push_all set [] a = ground arith
contains-push_all set (c ∷ cs) a =
    contains-push_all (push_new set c) cs a ∙ rw (contains-push_new set c a) (ground arith)

-- The answers to the probes of versions up to the first that the rate limiter ends, by what they
-- offer: a name of a version, or a cipher.
offers_name : Bytes → Bytes → Outcome Error Result → Bool
offers_name wanted name (err e) = false
offers_name wanted name (ok probe) = succeeds probe && wanted == name

offers_cipher : Bytes → Outcome Error Result → Bool
offers_cipher wanted (err e) = false
offers_cipher wanted (ok probe) = succeeds probe && contains (negotiated_by probe.tls) wanted

is_live : Option Error → Bool
is_live none = true
is_live (some e) = false

-- Some probe that was made offers the version of that name.
pub any_version : (ℕ → VersionAnswer) → List Candidate → Bytes → Bool
unfolding offers_name is_live
any_version answers [] name = false
any_version answers (c ∷ cs) name =
    is_live (answers c.id).rate
    && (offers_name name c.name (answers c.id).outcome || any_version answers cs name)

-- Some probe that was made negotiates the cipher.
pub any_cipher : (ℕ → VersionAnswer) → List Candidate → Bytes → Bool
unfolding offers_cipher is_live
any_cipher answers [] cipher = false
any_cipher answers (c ∷ cs) cipher =
    is_live (answers c.id).rate
    && (offers_cipher cipher (answers c.id).outcome || any_cipher answers cs cipher)

contains-note_version :
    (name : Bytes) (o : Outcome Error Result) (found : Found) (a : Bytes)
    → (contains (note_version name o found).versions a
        ≡ (contains found.versions a || offers_name a name o))
      × (contains (note_version name o found).negotiated a
          ≡ (contains found.negotiated a || offers_cipher a o))
unfolding note_version offers_name offers_cipher
contains-note_version name (err e) found a = (ground arith, ground arith)
contains-note_version name (ok probe) found a = elim (Bool-cases (succeeds probe)) [
  | inl good ↦ rw good (
    contains-append found.versions (name ∷ []) a ∙ ground arith,
    contains-push_all found.negotiated (negotiated_by probe.tls) a ∙ ground arith,
  )
  | inr bad ↦ rw bad (ground arith, ground arith)
]

note_version-Distinct :
    (name : Bytes) (o : Outcome Error Result) (found : Found)
    → Distinct found.negotiated
    → Distinct (note_version name o found).negotiated
unfolding note_version
note_version-Distinct name (err e) found d = d
note_version-Distinct name (ok probe) found d = elim (Bool-cases (succeeds probe)) [
  | inl good ↦ rw good (push_all-Distinct found.negotiated (negotiated_by probe.tls) d)
  | inr bad ↦ rw bad d
]

-- What the loop over versions has found, from what was found before.
abbrev Finds : (ℕ → VersionAnswer) → List Candidate → Found → Bytes → Type 0
Finds answers cs found a =
    (contains (probe_versions answers cs found).versions a
      ≡ (contains found.versions a || any_version answers cs a))
    × (contains (probe_versions answers cs found).negotiated a
        ≡ (contains found.negotiated a || any_cipher answers cs a))

probe_versions-Finds :
    (answers : ℕ → VersionAnswer) (cs : List Candidate) (found : Found) (a : Bytes)
    → Finds answers cs found a
unfolding probe_versions any_version any_cipher
probe_versions-Finds answers [] found a = (ground arith, ground arith)
probe_versions-Finds answers (c ∷ cs) found a = elim (Option-cases (answers c.id).rate) [
  | inr (x, e) ↦ rw e (unfold rated is_live in (ground arith, ground arith))
  | inl e ↦
      let noted = note_version c.name (answers c.id).outcome found in
      let (v, n) = probe_versions-Finds answers cs noted a in
      let (v', n') = contains-note_version c.name (answers c.id).outcome found a in
      rw e (unfold rated is_live in (v ∙ rw v' (ground arith), n ∙ rw n' (ground arith)))
]

probe_versions-Distinct :
    (answers : ℕ → VersionAnswer) (cs : List Candidate) (found : Found)
    → Distinct found.negotiated
    → Distinct (probe_versions answers cs found).negotiated
unfolding probe_versions rated
probe_versions-Distinct answers [] found d = d
probe_versions-Distinct answers (c ∷ cs) found d = elim (Option-cases (answers c.id).rate) [
  | inr (x, e) ↦ rw e d
  | inl e ↦ rw e (
      probe_versions-Distinct answers cs _
        (note_version-Distinct c.name (answers c.id).outcome found d))
]

sort_texts-push_all :
    (set cs cs' : List Bytes)
    → Distinct set
    → ((a : Bytes) → contains cs a ≡ contains cs' a)
    → sort_texts (push_all set cs) ≡ sort_texts (push_all set cs')
sort_texts-push_all set cs cs' d same = sort_texts-perm (push_all set cs) (push_all set cs') (
    Distinct-Perm (push_all set cs) (push_all set cs') (push_all-Distinct set cs d)
      (push_all-Distinct set cs' d)
      (λ a.
        contains-push_all set cs a
        ∙ ap (λ b. contains set a || b) (same a)
        ∙ sym (contains-push_all set cs' a)))

-- An audit does not depend on the order in which the accepted ciphers arrive, nor on how often one
-- does.
pub scan_audit-same :
    (cfg : AuditConfig) (scanned : Result) (answers : ℕ → VersionAnswer)
    (arrivals arrivals' : List Bytes)
    → ((a : Bytes) → contains arrivals a ≡ contains arrivals' a)
    → scan_audit cfg scanned answers arrivals ≡ scan_audit cfg scanned answers arrivals'
unfolding scan_audit conclude_audit
scan_audit-same cfg scanned answers arrivals arrivals' same =
    rw
      (sort_texts-push_all (probe_versions answers audit_versions nothing_found).negotiated arrivals
        arrivals' (probe_versions-Distinct answers audit_versions nothing_found tt) same)
      refl

-- The versions that an audit lists are those that a probe was offered, and the ciphers those that a
-- probe of a version negotiated or that arrived; it grades the findings of the scan with its own.
abbrev pub IsAudit : AuditConfig → Result → (ℕ → VersionAnswer) → List Bytes → Result → Type 0
IsAudit cfg scanned answers arrivals r =
    (a : AuditResult) × (r.audit ≡ some a)
    × ((name : Bytes)
        → contains a.supported_versions name ≡ any_version answers audit_versions name)
    × ((cipher : Bytes)
        → contains a.supported_ciphers cipher
          ≡ (any_cipher answers audit_versions cipher || contains arrivals cipher))
    × (r.findings ≡ scanned.findings ++ audit_findings a (with_audit_defaults cfg).audit_profile)
    × (a.compliance ≡ compliance_for r.findings)

conclude_audit-IsAudit :
    (cfg : AuditConfig) (scanned : Result) (answers : ℕ → VersionAnswer) (arrivals : List Bytes)
    → IsAudit cfg scanned answers arrivals (
        conclude_audit scanned
          (with_audit_defaults cfg).audit_profile
          (probe_versions answers audit_versions nothing_found)
          arrivals)
unfolding conclude_audit audit_findings
conclude_audit-IsAudit cfg scanned answers arrivals =
    let found = probe_versions answers audit_versions nothing_found in
    (
      _,
      refl,
      λ name.
          contains-sort_texts found.versions name
          ∙ (probe_versions-Finds answers audit_versions nothing_found name).0,
      λ cipher.
          contains-sort_texts (push_all found.negotiated arrivals) cipher
          ∙ contains-push_all found.negotiated arrivals cipher
          ∙ ap (λ b. b || contains arrivals cipher)
              (probe_versions-Finds answers audit_versions nothing_found cipher).1,
      refl,
      refl,
    )

-- An audit of a target that was scanned with success lists the versions that a probe was offered and
-- the ciphers that were negotiated with them or that arrived, adds its findings to those of the scan,
-- and grades all of them together.
pub scan_audit-IsAudit :
    (cfg : AuditConfig) (scanned : Result) (answers : ℕ → VersionAnswer) (arrivals : List Bytes)
    → scanned.status ≡ codes "success"
    → IsAudit cfg scanned answers arrivals (scan_audit cfg scanned answers arrivals)
unfolding scan_audit
scan_audit-IsAudit cfg scanned answers arrivals success =
    rw ((==_iff scanned.status (codes "success")).1 success)
      (conclude_audit-IsAudit cfg scanned answers arrivals)

-- What a passing audit excludes: any finding of the scan that is not mild, a deprecated version and a
-- broken cipher.
abbrev pub IsClean : Result → AuditResult → Type 0
IsClean scanned a =
    (compliance_for scanned.findings ≡ pass)
    × (some_deprecated a.supported_versions ≡ false)
    × (some_broken a.supported_ciphers ≡ false)

IsAudit-IsClean :
    (cfg : AuditConfig) (scanned : Result) (answers : ℕ → VersionAnswer) (arrivals : List Bytes)
    (r : Result) (a : AuditResult)
    → IsAudit cfg scanned answers arrivals r
    → r.audit ≡ some a
    → a.compliance ≡ pass
    → IsClean scanned a
IsAudit-IsClean cfg scanned answers arrivals r a (b, e, versions, ciphers, found, graded_all) h
      passes =
    let same : b ≡ a = cc in
    let profile = (with_audit_defaults cfg).audit_profile in
    let all_pass : compliance_for (scanned.findings ++ audit_findings b profile) ≡ pass =
      ap compliance_for (sym found) ∙ sym graded_all ∙ ap (λ x. x.compliance) same ∙ passes in
    let (first, second) =
      compliance-append-pass scanned.findings (audit_findings b profile) all_pass in
    let (clean, rest) =
      graded (some_deprecated b.supported_versions || some_broken b.supported_ciphers)
        ((profile == codes "modern" && some_tls12 b.supported_versions)
          || some_legacy b.supported_ciphers)
        (sym (compliance_for-audit_findings b profile) ∙ second) in
    (first, rw⁻¹ same (ground (arith, clean)), rw⁻¹ same (ground (arith, clean)))

-- An audit that passes was made of a scan whose findings pass, and found neither a deprecated version
-- nor a broken cipher.
pub scan_audit-IsClean :
    (cfg : AuditConfig) (scanned : Result) (answers : ℕ → VersionAnswer) (arrivals : List Bytes)
    (a : AuditResult)
    → scanned.status ≡ codes "success"
    → (scan_audit cfg scanned answers arrivals).audit ≡ some a
    → a.compliance ≡ pass
    → IsClean scanned a
scan_audit-IsClean cfg scanned answers arrivals a success h passes =
    IsAudit-IsClean cfg scanned answers arrivals (scan_audit cfg scanned answers arrivals) a
      (scan_audit-IsAudit cfg scanned answers arrivals success) h passes

-- ===== src/Scanner/Findings/Audit.antt =====
-- When the audit's own findings fail a service, and when they warn of it.
use ctscan.Base.{
  Bool, false, not, ◌&&◌, ◌||◌, List, [], ◌∷◌, ◌++◌, ◌≡◌, refl, ◌∙◌, arith, if◌then◌else◌, ◌==◌,
  text_eq, Bytes, codes,
}
use ctscan.Base.Text.{to_upper, has_text, has_prefix}
use ctscan.Scanner.Findings.{
  pass, warn, fail, compliance_for, version_findings, cipher_grade, weak_cipher, for_versions,
  for_ciphers, audit_findings,
}
use ctscan.Scanner.Findings.Compliance.{
  has_serious, has_mild, compliance_for_lem, has_serious-append, has_mild-append,
}
use ctscan.Types.{AuditResult, Finding}

-- TLS 1.0 or TLS 1.1 is among the versions.
abbrev pub some_deprecated : List Bytes → Bool
some_deprecated [] = false
some_deprecated (v ∷ vs) = (v == codes "TLS1.0" || v == codes "TLS1.1") || some_deprecated vs

abbrev pub some_tls12 : List Bytes → Bool
some_tls12 [] = false
some_tls12 (v ∷ vs) = v == codes "TLS1.2" || some_tls12 vs

abbrev pub is_broken : Bytes → Bool
is_broken upper =
    has_text upper (codes "NULL")
    || has_text upper (codes "ANON")
    || has_text upper (codes "EXPORT")
    || has_text upper (codes "RC4")
    || has_text upper (codes "3DES")

abbrev pub is_aead : Bytes → Bool
is_aead upper =
    not (has_text upper (codes "CBC"))
    && (has_text upper (codes "GCM")
        || has_text upper (codes "CHACHA20")
        || has_prefix upper (codes "TLS_AES_"))

abbrev pub some_broken : List Bytes → Bool
some_broken [] = false
some_broken (c ∷ cs) = is_broken (to_upper c) || some_broken cs

-- Some cipher is not broken, but is no AEAD cipher either.
abbrev pub some_legacy : List Bytes → Bool
some_legacy [] = false
some_legacy (c ∷ cs) =
    (not (is_broken (to_upper c)) && not (is_aead (to_upper c))) || some_legacy cs

version_serious :
    (profile v : Bytes)
    → has_serious (version_findings profile v) ≡ (v == codes "TLS1.0" || v == codes "TLS1.1")
unfolding version_findings
version_serious profile v = ground arith

version_mild :
    (profile v : Bytes)
    → has_mild (version_findings profile v) ≡ (profile == codes "modern" && v == codes "TLS1.2")
unfolding version_findings
version_mild profile v = ground arith

cipher_serious :
    (c upper : Bytes) → has_serious (weak_cipher c (cipher_grade upper)) ≡ is_broken upper
unfolding weak_cipher cipher_grade
cipher_serious c upper = ground arith

cipher_mild :
    (c upper : Bytes)
    → has_mild (weak_cipher c (cipher_grade upper)) ≡ (not (is_broken upper) && not (is_aead upper))
unfolding weak_cipher cipher_grade
cipher_mild c upper = ground arith

regroup : (a b c : Bool) → ((a || b) || c) ≡ (a || (b || c))
regroup a b c = ground arith

audit_findings_lem :
    (audit : AuditResult) (profile : Bytes)
    → audit_findings audit profile
      ≡ for_ciphers audit.supported_ciphers (for_versions profile audit.supported_versions [])
unfolding audit_findings
audit_findings_lem audit profile = refl

module _ (profile : Bytes) where
  for_versions-serious :
      (vs : List Bytes) (fs : List Finding)
      → has_serious (for_versions profile vs fs) ≡ (has_serious fs || some_deprecated vs)
  unfolding for_versions
  for_versions-serious [] fs = ground arith
  for_versions-serious (v ∷ vs) fs = ground (
    arith,
    for_versions-serious vs (fs ++ version_findings profile v),
    has_serious-append fs (version_findings profile v),
    version_serious profile v,
  )

  for_versions-mild :
      (vs : List Bytes) (fs : List Finding)
      → has_mild (for_versions profile vs fs)
        ≡ (has_mild fs || (profile == codes "modern" && some_tls12 vs))
  unfolding for_versions
  for_versions-mild [] fs = ground arith
  for_versions-mild (v ∷ vs) fs = ground (
    arith,
    for_versions-mild vs (fs ++ version_findings profile v),
    has_mild-append fs (version_findings profile v),
    version_mild profile v,
  )

for_ciphers-serious :
    (cs : List Bytes) (fs : List Finding)
    → has_serious (for_ciphers cs fs) ≡ (has_serious fs || some_broken cs)
unfolding for_ciphers
for_ciphers-serious [] fs = ground arith
for_ciphers-serious (c ∷ cs) fs =
    let found = weak_cipher c (cipher_grade (to_upper c)) in
    for_ciphers-serious cs (fs ++ found)
    ∙ rw (has_serious-append fs found, cipher_serious c (to_upper c))
        (regroup (has_serious fs) (is_broken (to_upper c)) (some_broken cs))

for_ciphers-mild :
    (cs : List Bytes) (fs : List Finding)
    → has_mild (for_ciphers cs fs) ≡ (has_mild fs || some_legacy cs)
unfolding for_ciphers
for_ciphers-mild [] fs = ground arith
for_ciphers-mild (c ∷ cs) fs =
    let found = weak_cipher c (cipher_grade (to_upper c)) in
    for_ciphers-mild cs (fs ++ found)
    ∙ rw (has_mild-append fs found, cipher_mild c (to_upper c))
        (regroup (has_mild fs) (not (is_broken (to_upper c)) && not (is_aead (to_upper c)))
          (some_legacy cs))

-- The audit's findings fail a service that supports TLS 1.0, TLS 1.1 or a broken cipher. Else they
-- warn of one with another cipher that is no AEAD, or with TLS 1.2 under the modern profile, and
-- pass any other.
pub compliance_for-audit_findings :
    (audit : AuditResult) (profile : Bytes)
    → compliance_for (audit_findings audit profile) ≡ (
        if some_deprecated audit.supported_versions || some_broken audit.supported_ciphers
        then fail
        else if (profile == codes "modern" && some_tls12 audit.supported_versions)
            || some_legacy audit.supported_ciphers
        then warn
        else pass)
compliance_for-audit_findings audit profile =
    compliance_for_lem (audit_findings audit profile)
    ∙ rw (
      audit_findings_lem audit profile,
      for_ciphers-serious,
      for_versions-serious,
      for_ciphers-mild,
      for_versions-mild,
    )

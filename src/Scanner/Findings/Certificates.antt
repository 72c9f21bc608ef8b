-- ===== src/Scanner/Findings/Certificates.antt =====
-- When the findings on a certificate fail it, and when they warn of it.
use ctscan.Base.{
  Bool, true, false, not, ◌&&◌, ◌||◌, ◌++◌, some, ◌≡◌, refl, ◌∙◌, arith, ltb, if◌then◌else◌, ◌==◌,
  text_eq, codes,
}
use ctscan.Base.Int.{pos, ltb_ℤ}
use ctscan.Base.Text.{to_upper, has_text}
use ctscan.Scanner.Findings.{
  Clock, pass, warn, fail, compliance_for, add, validity_findings, hostname_findings,
  trust_findings, key_findings, signature_findings, certificate_findings,
}
use ctscan.Scanner.Findings.Compliance.{
  has_serious, has_mild, compliance_for_lem, has_serious-append, has_mild-append,
}
use ctscan.Types.{Certificate, Validation}

module _ (c : Certificate) (v : Validation) where
  abbrev pub is_weak_key : Bool
  is_weak_key =
      c.public_key_algorithm == codes "RSA"
      && (ltb 0 c.public_key_bits && ltb c.public_key_bits 2048)

  abbrev pub is_weak_signature : Bool
  is_weak_signature =
      has_text (to_upper c.signature_algorithm) (codes "MD5")
      || has_text (to_upper c.signature_algorithm) (codes "SHA1")

  -- Outside its validity period, about to leave it, for another name, or with a weak key or signature.
  abbrev pub is_urgent : Bool
  is_urgent =
      (v.expired || (v.not_yet_valid || ltb_ℤ c.days_remaining (pos 7)))
      || (not v.hostname_match || (is_weak_key || is_weak_signature))

  -- About to expire, self-signed or not trusted.
  abbrev pub is_doubtful : Bool
  is_doubtful = ltb_ℤ c.days_remaining (pos 30) || (v.self_signed || not v.trusted)

-- With the same first disjunct, the tests of the two `else` branches agree.
agree :
    (s m m' r t : Bool)
    → (s || m) ≡ (s || m')
    → (if s || r then fail else if m || t then warn else pass)
      ≡ (if s || r then fail else if m' || t then warn else pass)
agree true m m' r t e = refl
agree false m m' r t e = ground arith

module _ (clock : Clock) (c : Certificate) (v : Validation) where
  validity_serious :
      has_serious (validity_findings clock c v)
      ≡ (v.expired || (v.not_yet_valid || ltb_ℤ c.days_remaining (pos 7)))
  unfolding validity_findings add
  validity_serious = ground arith

  hostname_serious : has_serious (hostname_findings v) ≡ not v.hostname_match
  unfolding hostname_findings add
  hostname_serious = ground arith

  trust_serious : has_serious (trust_findings c v) ≡ false
  unfolding trust_findings add
  trust_serious = ground arith

  key_serious : has_serious (key_findings c) ≡ is_weak_key c v
  unfolding key_findings add
  key_serious = ground arith

  signature_serious : has_serious (signature_findings c) ≡ is_weak_signature c v
  unfolding signature_findings add
  signature_serious = ground arith

  validity_mild :
      (has_serious (validity_findings clock c v) || has_mild (validity_findings clock c v))
      ≡ (has_serious (validity_findings clock c v) || ltb_ℤ c.days_remaining (pos 30))
  unfolding validity_findings add
  validity_mild = ground arith

  hostname_mild : has_mild (hostname_findings v) ≡ false
  unfolding hostname_findings add
  hostname_mild = ground arith

  trust_mild : has_mild (trust_findings c v) ≡ (v.self_signed || not v.trusted)
  unfolding trust_findings add
  trust_mild = ground arith

  key_mild : has_mild (key_findings c) ≡ false
  unfolding key_findings add
  key_mild = ground arith

  signature_mild : has_mild (signature_findings c) ≡ false
  unfolding signature_findings add
  signature_mild = ground arith

  certificate_findings_lem :
      certificate_findings clock (some c) (some v)
      ≡ validity_findings clock c v
        ++ (hostname_findings v ++ (trust_findings c v ++ (key_findings c ++ signature_findings c)))
  unfolding certificate_findings
  certificate_findings_lem = refl

  serious_parts : has_serious (certificate_findings clock (some c) (some v)) ≡ is_urgent c v
  serious_parts = rw (
    certificate_findings_lem,
    has_serious-append (validity_findings clock c v),
    has_serious-append (hostname_findings v),
    has_serious-append (trust_findings c v),
    has_serious-append (key_findings c),
    validity_serious,
    hostname_serious,
    trust_serious,
    key_serious,
    signature_serious,
  )

  mild_parts :
      has_mild (certificate_findings clock (some c) (some v))
      ≡ (has_mild (validity_findings clock c v) || (v.self_signed || not v.trusted))
  mild_parts =
      rw
        (
          certificate_findings_lem,
          has_mild-append (validity_findings clock c v),
          has_mild-append (hostname_findings v),
          has_mild-append (trust_findings c v),
          has_mild-append (key_findings c),
          hostname_mild,
          trust_mild,
          key_mild,
          signature_mild,
        )
        (ground arith)

  -- The findings on a certificate fail it when it is urgent, else warn of it when it is doubtful, and
  -- pass any other.
  pub compliance_for-certificate_findings :
      compliance_for (certificate_findings clock (some c) (some v))
      ≡ (if is_urgent c v then fail else if is_doubtful c v then warn else pass)
  compliance_for-certificate_findings =
      compliance_for_lem (certificate_findings clock (some c) (some v))
      ∙ rw (serious_parts, mild_parts)
          (agree _ (has_mild (validity_findings clock c v)) (ltb_ℤ c.days_remaining (pos 30)) _ _
            (rw validity_serious at validity_mild))

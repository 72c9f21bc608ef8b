-- ===== src/Scanner/Certificates.antt =====
-- `certificateInfo`, `distinguishedName`, `cloneStrings`, `sha256Hex` and `validateCertificate` of
-- pkg/ctscan/scanner.go. A parsed certificate is what the source reads of it.
use ctscan.Base.{
  ℕ, ◌*◌, Bool, false, ◌&&◌, not, List, [], ◌∷◌, Option, none, some, if◌then◌else◌, ◌==◌, nat_eq,
  text_eq, Bytes, is_some, contains,
}
use ctscan.Base.Decimal.{hex}
use ctscan.Base.Int.{ℤ, ltb_ℤ, sub_saturated}
use ctscan.Base.Text.{to_upper}
use ctscan.Types.{Time, Pool, Certificate, DistinguishedName, Validation}

pub record X509Name : Type 0 where
  pub text : Bytes
  pub common_name : Bytes
  pub organization : List Bytes
  pub organizational_unit : List Bytes
  pub country : List Bytes
  pub province : List Bytes
  pub locality : List Bytes

-- A public key by its kind, with the bits of the modulus or of the curve, or the bytes of the key.
pub data PublicKey : Type 0 where
  rsa ecdsa ed25519 : ℕ → PublicKey
  other_key : PublicKey

-- Times, numbers and algorithms are given by the texts or values that the source asks for.
pub record X509 : Type 0 where
  pub raw : Bytes
  pub subject : X509Name
  pub issuer : X509Name
  pub raw_subject : Option Bytes
  pub raw_issuer : Bytes
  pub dns_names : List Bytes
  pub email_addresses : List Bytes
  pub ip_addresses : List Bytes
  pub uris : List Bytes
  pub serial_text : Bytes
  pub not_before : Time
  pub not_after : Time
  pub public_key_algorithm : Bytes
  pub signature_algorithm : Bytes
  pub is_ca : Bool
  pub extensions : List (List ℕ)
  pub public_key : PublicKey

-- The calls of crypto/x509 and crypto/sha256, with the texts of their errors, and `int(d.Hours() / 24)`,
-- which is computed with floating point.
pub record Crypto : Type 0 where
  pub sha256 : Bytes → Bytes
  pub days : ℤ → ℤ
  pub signs_itself : X509 → Bool
  pub verify_hostname : X509 → Bytes → Option Bytes
  pub verify : X509 → Bytes → Option Pool → List X509 → Time → Option Bytes

abbrev pub sct_oid : List ℕ
sct_oid = 1 ∷ 3 ∷ 6 ∷ 1 ∷ 4 ∷ 1 ∷ 11129 ∷ 2 ∷ 4 ∷ 2 ∷ []

unfoldable pub clone_strings : List Bytes → List Bytes
clone_strings [] = []
clone_strings (value ∷ values) = value ∷ values

distinguished_name : X509Name → DistinguishedName
unfolding clone_strings
distinguished_name name = record {
  common_name = name.common_name;
  organization = clone_strings name.organization;
  organizational_unit = clone_strings name.organizational_unit;
  country = clone_strings name.country;
  province = clone_strings name.province;
  locality = clone_strings name.locality;
  string = name.text;
}

key_bits : PublicKey → ℕ
key_bits (rsa bits) = bits
key_bits (ecdsa bits) = bits
key_bits (ed25519 bytes) = bytes * 8
key_bits other_key = 0

module _ (crypto : Crypto) where
  sha256_hex : Bytes → Bytes
  unfolding hex
  sha256_hex raw = hex (crypto.sha256 raw)

  unfoldable pub certificate_info : X509 → Time → Certificate
  unfolding distinguished_name clone_strings key_bits sha256_hex sub_saturated to_upper
  certificate_info cert now = record {
    subject = distinguished_name cert.subject;
    issuer = distinguished_name cert.issuer;
    dns_names = clone_strings cert.dns_names;
    ip_addresses = cert.ip_addresses;
    email_addresses = clone_strings cert.email_addresses;
    uris = cert.uris;
    serial_number = to_upper cert.serial_text;
    not_before = cert.not_before;
    not_after = cert.not_after;
    days_remaining = crypto.days (sub_saturated cert.not_after now);
    fingerprint_sha256 = sha256_hex cert.raw;
    public_key_algorithm = cert.public_key_algorithm;
    public_key_bits = key_bits cert.public_key;
    signature_algorithm = cert.signature_algorithm;
    is_ca = cert.is_ca;
    has_sct = contains cert.extensions sct_oid;
  }

  unfoldable pub is_self_signed : X509 → Option Bytes → Bool
  is_self_signed leaf none = false
  is_self_signed leaf (some raw_subject) =
      crypto.signs_itself leaf && raw_subject == leaf.raw_issuer

  error_text : Option Bytes → Bytes
  error_text none = []
  error_text (some e) = e

  unfoldable pub hostname_error_of : X509 → Bytes → Option Bytes
  hostname_error_of leaf expected_name =
      if expected_name == [] then none else crypto.verify_hostname leaf expected_name

  -- `chain` is the leaf and the certificates after it.
  unfoldable pub validate_certificate : X509 → List X509 → Bytes → Option Pool → Time → Validation
  unfolding is_self_signed error_text hostname_error_of
  validate_certificate leaf intermediates expected_name roots now =
      let hostname_error = hostname_error_of leaf expected_name in
      let trust_error = crypto.verify leaf expected_name roots intermediates now in
      record {
        trusted = not (is_some trust_error);
        hostname_match = not (expected_name == []) && not (is_some hostname_error);
        expired = ltb_ℤ leaf.not_after now;
        not_yet_valid = ltb_ℤ now leaf.not_before;
        self_signed = is_self_signed leaf leaf.raw_subject;
        chain_complete = not (is_some trust_error);
        trust_error = error_text trust_error;
        hostname_error = error_text hostname_error;
      }

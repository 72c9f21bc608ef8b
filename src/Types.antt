-- ===== src/Types.antt =====
-- pkg/ctscan/types.go: the configuration, targets and results of a scan. A `nil` pointer is `none`,
-- a time is its nanoseconds since the epoch, a duration its nanoseconds, and a pool of root
-- certificates the list of their encodings. The labels for JSON are left out.
use ctscan.Base.{ℕ, ◌*◌, Bool, List, [], Option, none, Bytes, codes}
use ctscan.Base.Int.{ℤ, pos}

abbrev pub Time : Type 0
Time = ℤ

abbrev pub Pool : Type 0
Pool = List Bytes

abbrev pub schema_version : Bytes
schema_version = codes "1.0"

-- `time.Second` and its parts, in nanoseconds
abbrev pub microsecond : ℕ
microsecond = 1_000

abbrev pub millisecond : ℕ
millisecond = 1_000_000

abbrev pub second : ℕ
second = 1_000_000_000

pub record Config : Type 0 where
  pub concurrency : ℤ
  pub timeout : ℤ
  pub retries : ℤ
  pub rate_limit : ℤ
  pub proxy_url : Bytes
  pub min_version : ℕ
  pub max_version : ℕ
  pub root_cas : Option Pool

abbrev pub default_config : Config
default_config = record {
  concurrency = pos 300;
  timeout = pos (5 * second);
  retries = pos 1;
  rate_limit = pos 0;
  proxy_url = [];
  min_version = 0;
  max_version = 0;
  root_cas = none;
}

pub record Target : Type 0 where
  pub input : Bytes
  pub host : Bytes
  pub address : Bytes
  pub port : ℕ
  pub server_name : Bytes
  pub start_tls : Bytes

pub record TlsInfo : Type 0 where
  pub version : Bytes
  pub cipher : Bytes
  pub key_exchange : Bytes
  pub alpn : Bytes
  pub did_resume : Bool
  pub handshake_complete : Bool
  pub ocsp_stapled : Bool
  pub client_cert_required : Bool

pub record DistinguishedName : Type 0 where
  pub common_name : Bytes
  pub organization : List Bytes
  pub organizational_unit : List Bytes
  pub country : List Bytes
  pub province : List Bytes
  pub locality : List Bytes
  pub string : Bytes

pub record Certificate : Type 0 where
  pub subject : DistinguishedName
  pub issuer : DistinguishedName
  pub dns_names : List Bytes
  pub ip_addresses : List Bytes
  pub email_addresses : List Bytes
  pub uris : List Bytes
  pub serial_number : Bytes
  pub not_before : Time
  pub not_after : Time
  pub days_remaining : ℤ
  pub fingerprint_sha256 : Bytes
  pub public_key_algorithm : Bytes
  pub public_key_bits : ℕ
  pub signature_algorithm : Bytes
  pub is_ca : Bool
  pub has_sct : Bool

pub record Validation : Type 0 where
  pub trusted : Bool
  pub hostname_match : Bool
  pub expired : Bool
  pub not_yet_valid : Bool
  pub self_signed : Bool
  pub chain_complete : Bool
  pub trust_error : Bytes
  pub hostname_error : Bytes

pub record Finding : Type 0 where
  pub id : Bytes
  pub severity : Bytes
  pub title : Bytes
  pub evidence : Bytes
  pub remediation : Bytes
  pub references : List Bytes

pub record AuditResult : Type 0 where
  pub profile : Bytes
  pub compliance : Bytes
  pub supported_versions : List Bytes
  pub supported_ciphers : List Bytes

pub record ScanError : Type 0 where
  pub kind : Bytes
  pub message : Bytes
  pub retryable : Bool

-- `metadata` is a map, which no code of the program fills.
pub record Result : Type 0 where
  pub schema : Bytes
  pub timestamp : Time
  pub input : Bytes
  pub host : Bytes
  pub ip : Bytes
  pub port : ℕ
  pub sni : Bytes
  pub start_tls : Bytes
  pub status : Bytes
  pub duration_ms : ℤ
  pub tls : Option TlsInfo
  pub certificate : Option Certificate
  pub chain : List Certificate
  pub validation : Option Validation
  pub audit : Option AuditResult
  pub findings : List Finding
  pub error : Option ScanError
  pub metadata : List (Bytes × Bytes)

pub record AuditConfig : Type 0 where
  pub audit_profile : Bytes
  pub cipher_concurrency : ℤ

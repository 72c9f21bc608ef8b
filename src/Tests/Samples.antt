-- ===== src/Tests/Samples.antt =====
-- Certificates, results and targets for the tests.
use ctscan.Base.{false, true, List, [], none, some, Bytes, codes}
use ctscan.Base.Int.{pos}
use ctscan.Scanner.Errors.{Error}
use ctscan.Scanner.Retry.{base_result}
use ctscan.Types.{Target, Result, Certificate, Validation, DistinguishedName}

abbrev pub plain_name : Bytes → DistinguishedName
plain_name common_name = record {
  common_name = common_name;
  organization = [];
  organizational_unit = [];
  country = [];
  province = [];
  locality = [];
  string = common_name;
}

abbrev pub certificate_for : Bytes → List Bytes → Certificate
certificate_for fingerprint dns_names = record {
  subject = plain_name (codes "example.com");
  issuer = plain_name (codes "ca");
  dns_names = dns_names;
  ip_addresses = [];
  email_addresses = [];
  uris = [];
  serial_number = codes "01";
  not_before = pos 0;
  not_after = pos 1000;
  days_remaining = pos 20;
  fingerprint_sha256 = fingerprint;
  public_key_algorithm = codes "RSA";
  public_key_bits = 2048;
  signature_algorithm = codes "SHA256-RSA";
  is_ca = false;
  has_sct = true;
}

abbrev pub good_validation : Validation
good_validation = record {
  trusted = true;
  hostname_match = true;
  expired = false;
  not_yet_valid = false;
  self_signed = false;
  chain_complete = true;
  trust_error = [];
  hostname_error = [];
}

abbrev pub target_for : Bytes → Target
target_for host = record {
  input = host;
  host = host;
  address = codes "192.0.2.1";
  port = 443;
  server_name = host;
  start_tls = [];
}

abbrev pub failed_result : Bytes → Result
failed_result host = record (base_result (target_for host) (pos 0)) { findings = [] }

abbrev pub good_result : Bytes → List Bytes → Result
good_result host names = record (failed_result host) {
  status = codes "success";
  certificate = some (certificate_for (codes "aa") names);
}

abbrev pub reset_error : Error
reset_error = record {
  is_canceled = false;
  is_deadline_exceeded = false;
  is_no_certificate = false;
  net_timeout = none;
  op_timeout = none;
  is_dns = false;
  text = codes "read: connection reset by peer";
}

abbrev pub cancel_error : Error
cancel_error = record reset_error { is_canceled = true; text = codes "context canceled" }

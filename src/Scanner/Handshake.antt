-- ===== src/Scanner/Handshake.antt =====
-- `scanOnce`, `scanOnceWithTLS` and `tlsVersionName` of pkg/ctscan/scanner.go. What the network, TLS
-- and the clock do is an answer to what is asked of them.
pub mod Laws
use ctscan.Base.{
  ℕ, suc, ◌+◌, ◌/◌, Bool, true, false, ◌&&◌, not, List, [], ◌∷◌, ◌++◌, Option, none, some, Outcome,
  ok, err, if◌then◌else◌, ◌==◌, nat_eq, text_eq, ltb, Bytes, codes, length, is_some,
}
use ctscan.Base.Decimal.{decimal, hex_digit, hex}
use ctscan.Base.Int.{ℤ}
use ctscan.Scanner.Certificates.{X509, Crypto, certificate_info, validate_certificate}
use ctscan.Scanner.Errors.{Error}
use ctscan.Scanner.Findings.{Clock, certificate_findings}
use ctscan.Scanner.Retry.{base_result}
use ctscan.Types.{Target, Result, Config, Certificate, Validation, TlsInfo, Time, Pool}

-- `tls.ConnectionState`, and whether a client's certificate was asked for; the curve, if there is
-- one, and the cipher are given by their names.
pub record TlsState : Type 0 where
  pub peer_certificates : List X509
  pub version : ℕ
  pub curve : Option Bytes
  pub cipher : Bytes
  pub negotiated_protocol : Bytes
  pub did_resume : Bool
  pub handshake_complete : Bool
  pub ocsp_response : Bytes
  pub client_cert_requested : Bool

-- What one attempt asks of the network.
pub record Hello : Type 0 where
  pub connect_host : Bytes
  pub port : ℕ
  pub start_tls : Bytes
  pub server_name : Bytes
  pub min_version : ℕ
  pub max_version : ℕ
  pub cipher_suites : List ℕ

-- Its answers: the address that was dialed, if it is one of TCP, the error of `negotiateStartTLS`, the
-- state after the handshake, and the times at which the result, the certificates and the validation
-- are made.
pub record Answers : Type 0 where
  pub dialed : Outcome Error (Option Bytes)
  pub negotiated : Option Error
  pub handshake : Outcome Error TlsState
  pub started : Time
  pub leaf_time : Time
  pub chain_time : ℕ → Time
  pub validation_time : Time

pub record World : Type 0 where
  pub crypto : Crypto
  pub clock : Clock
  pub is_ip : Bytes → Bool
  pub no_certificate : Error

-- `fmt.Errorf("…: %w", err)`
wrap : Bytes → Error → Error
wrap before e = record e { text = before ++ e.text }

-- `%04x`, for a number of 16 bits
hex_version : ℕ → Bytes
unfolding hex
hex_version version = hex (version / 256 ∷ version ∷ [])

unfoldable pub tls_version_name : ℕ → Bytes
unfolding hex_version
tls_version_name version =
    if version == 0x0301
    then codes "TLS1.0"
    else if version == 0x0302
    then codes "TLS1.1"
    else if version == 0x0303
    then codes "TLS1.2"
    else if version == 0x0304
    then codes "TLS1.3"
    else codes "0x" ++ hex_version version

unfoldable pub text_or : Option Bytes → Bytes → Bytes
text_or none default = default
text_or (some text) default = text

or_host : Bytes → Bytes → Bytes
or_host text host = if text == [] then host else text

module _ (world : World) where
  unfoldable pub server_name_of : Target → Bytes
  server_name_of target =
      if target.server_name == [] && not (world.is_ip target.host)
      then target.host
      else target.server_name

  unfoldable pub hello_of : Target → ℕ → ℕ → List ℕ → Hello
  unfolding or_host server_name_of
  hello_of target min_version max_version cipher_suites = record {
    connect_host = or_host target.address target.host;
    port = target.port;
    start_tls = target.start_tls;
    server_name = server_name_of target;
    min_version = min_version;
    max_version = max_version;
    cipher_suites = cipher_suites;
  }

  tls_info : TlsState → TlsInfo
  unfolding tls_version_name text_or
  tls_info state = record {
    version = tls_version_name state.version;
    cipher = state.cipher;
    key_exchange = text_or state.curve [];
    alpn = state.negotiated_protocol;
    did_resume = state.did_resume;
    handshake_complete = state.handshake_complete;
    ocsp_stapled = not (state.ocsp_response == []);
    client_cert_required = state.client_cert_requested;
  }

  chain_of : List X509 → (ℕ → Time) → ℕ → List Certificate
  unfolding certificate_info
  chain_of [] time i = []
  chain_of (cert ∷ certs) time i =
      certificate_info world.crypto cert (time i) ∷ chain_of certs time (suc i)

  unfoldable pub expected_name_of : Target → Bytes
  unfolding or_host server_name_of
  expected_name_of target = or_host (server_name_of target) target.host

  unfoldable pub report :
      Option Pool → Target → Answers → Bytes → TlsState → X509 → List X509 → Result
  unfolding tls_info chain_of expected_name_of
  report roots target answers ip state leaf intermediates =
      let certificate = certificate_info world.crypto leaf answers.leaf_time in
      let validation =
        validate_certificate world.crypto leaf intermediates (expected_name_of target) roots
          answers.validation_time in
      record (base_result target answers.started) {
        ip = ip;
        sni = server_name_of target;
        status = codes "success";
        tls = some (tls_info state);
        certificate = some certificate;
        chain = chain_of (leaf ∷ intermediates) answers.chain_time 0;
        validation = some validation;
        findings = certificate_findings world.clock (some certificate) (some validation);
      }

  reported : Option Pool → Target → Answers → Bytes → TlsState → List X509 → Outcome Error Result
  unfolding report
  reported roots target answers ip state [] = err world.no_certificate
  reported roots target answers ip state (leaf ∷ intermediates) =
      ok (report roots target answers ip state leaf intermediates)

  shaken : Option Pool → Target → Answers → Bytes → Outcome Error TlsState → Outcome Error Result
  unfolding reported wrap
  shaken roots target answers ip (err e) = err (wrap (codes "TLS handshake: ") e)
  shaken roots target answers ip (ok state) =
      reported roots target answers ip state state.peer_certificates

  negotiated_then : Option Pool → Target → Answers → Bytes → Option Error → Outcome Error Result
  unfolding shaken wrap
  negotiated_then roots target answers ip (some e) =
      err (wrap (codes "starttls " ++ (target.start_tls ++ codes ": ")) e)
  negotiated_then roots target answers ip none = shaken roots target answers ip answers.handshake

  -- `target.StartTLS != ""`
  secured :
      Option Pool → Target → Answers → Bytes → Outcome Error (Option Bytes) → Outcome Error Result
  unfolding negotiated_then wrap text_or
  secured roots target answers address (err e) =
      err (wrap (codes "dial " ++ (address ++ codes ": ")) e)
  secured roots target answers address (ok ip) =
      negotiated_then roots target answers (text_or ip [])
        (if target.start_tls == [] then none else answers.negotiated)

  -- `join_host_port` is `net.JoinHostPort` of the host and the port's decimal.
  unfoldable pub scan_once_with_tls :
      (Hello → Answers)
      → (Bytes → Bytes → Bytes)
      → Option Pool
      → Target
      → ℕ
      → ℕ
      → List ℕ
      → Outcome Error Result
  unfolding secured hello_of decimal
  scan_once_with_tls network join_host_port roots target min_version max_version cipher_suites =
      let hello = hello_of target min_version max_version cipher_suites in
      let answers = network hello in
      secured roots target answers (join_host_port hello.connect_host (decimal target.port))
        answers.dialed

  unfoldable pub scan_once :
      (Hello → Answers) → (Bytes → Bytes → Bytes) → Config → Target → Outcome Error Result
  unfolding scan_once_with_tls
  scan_once network join_host_port config target =
      scan_once_with_tls network join_host_port config.root_cas target config.min_version
        config.max_version []

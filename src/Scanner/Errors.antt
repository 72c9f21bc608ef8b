-- ===== src/Scanner/Errors.antt =====
-- `classifyError` and `isRetryable` of pkg/ctscan/scanner.go.
use ctscan.Base.{
  Bool, true, false, ◌||◌, Option, none, some, ◌≡◌, refl, arith, if◌then◌else◌, text_eq, Bytes,
  codes, not, ◌&&◌, is_some, ◌↔◌,
}
use ctscan.Base.Text.{to_lower, has_text}
use ctscan.Types.{ScanError}

-- What the program asks of an error: `errors.Is` of the three sentinels, `errors.As` of `net.Error`
-- with its `Timeout()`, of `*net.OpError` with its `Timeout()` and of `*net.DNSError`, and its text.
pub record Error : Type 0 where
  pub is_canceled : Bool
  pub is_deadline_exceeded : Bool
  pub is_no_certificate : Bool
  pub net_timeout : Option Bool
  pub op_timeout : Option Bool
  pub is_dns : Bool
  pub text : Bytes

abbrev holds : Option Bool → Bool
holds none = false
holds (some b) = b

retryable_text : Bytes → Bool
retryable_text message =
    has_text message (codes "connection reset")
    || has_text message (codes "unexpected eof")
    || has_text message (codes "temporarily unavailable")

retryable_kind : Option Bool → Bytes → Bool
retryable_kind (some timeout) text = timeout
retryable_kind none text = retryable_text (to_lower text)

unfoldable pub is_retryable : Option Error → Bool
unfolding retryable_kind retryable_text
is_retryable none = false
is_retryable (some e) =
    if e.is_canceled
    then false
    else if e.is_deadline_exceeded
    then true
    else retryable_kind e.net_timeout e.text

error_kind : Error → Bytes
error_kind e =
    let text = to_lower e.text in
    if e.is_canceled
    then codes "canceled"
    else if e.is_deadline_exceeded || holds e.op_timeout
    then codes "connect_timeout"
    else if e.is_dns
    then codes "dns"
    else if e.is_no_certificate
    then codes "no_certificate"
    else if has_text text (codes "connection refused")
    then codes "connect_refused"
    else if has_text text (codes "proxy")
    then codes "proxy"
    else if has_text text (codes "starttls")
    then codes "starttls"
    else codes "tls_handshake"

unfoldable pub classify_error : Option Error → ScanError
unfolding error_kind is_retryable
classify_error none = record {
  kind = codes "internal";
  message = codes "unknown scan failure";
  retryable = false;
}
classify_error (some e) = record {
  kind = error_kind e;
  message = e.text;
  retryable = is_retryable (some e);
}

-- What is known of an error: by its type, from the context, a time-out, the resolver or the
-- handshake, or else by its text.
abbrev pub is_late : Error → Bool
is_late e = not e.is_canceled && (e.is_deadline_exceeded || holds e.op_timeout)

abbrev pub is_untyped : Error → Bool
is_untyped e =
    not e.is_canceled
    && not e.is_deadline_exceeded
    && not (holds e.op_timeout)
    && not e.is_dns
    && not e.is_no_certificate

abbrev pub mentions : Error → Bytes → Bool
mentions e words = has_text (to_lower e.text) words

-- An error whose text is not known to be of one of the first two kinds.
abbrev pub is_vague : Error → Bool
is_vague e =
    is_untyped e
    && not (mentions e (codes "connection refused"))
    && not (mentions e (codes "proxy"))

-- When a kind is that of an error.
abbrev pub IsKind : Error → Bytes → Type 0
IsKind e kind =
    ((kind ≡ codes "canceled") ↔ (e.is_canceled ≡ true))
    × ((kind ≡ codes "connect_timeout") ↔ (is_late e ≡ true))
    × ((kind ≡ codes "dns") ↔ ((not e.is_canceled && not (is_late e) && e.is_dns) ≡ true))
    × ((kind ≡ codes "no_certificate")
        ↔ ((not e.is_canceled && not (is_late e) && not e.is_dns && e.is_no_certificate) ≡ true))
    × ((kind ≡ codes "connect_refused")
        ↔ ((is_untyped e && mentions e (codes "connection refused")) ≡ true))
    × ((kind ≡ codes "proxy") ↔ (
        (is_untyped e
          && not (mentions e (codes "connection refused"))
          && mentions e (codes "proxy"))
        ≡ true))
    × ((kind ≡ codes "starttls") ↔ ((is_vague e && mentions e (codes "starttls")) ≡ true))
    × ((kind ≡ codes "tls_handshake")
        ↔ ((is_vague e && not (mentions e (codes "starttls"))) ≡ true))

-- Errors after which a further attempt may succeed: that of a deadline, of the network that timed
-- out, or one that names a passing trouble.
abbrev pub may_pass : Error → Bool
may_pass e =
    not e.is_canceled
    && (e.is_deadline_exceeded
        || holds e.net_timeout
        || (not (is_some e.net_timeout)
            && (mentions e (codes "connection reset")
                || mentions e (codes "unexpected eof")
                || mentions e (codes "temporarily unavailable"))))

error_kind-IsKind : (e : Error) → IsKind e (error_kind e)
unfolding error_kind text_eq
error_kind-IsKind e = ground arith

-- A classified error has the kind of who reports it: the context that was canceled, a time-out, the
-- resolver, a handshake without a certificate, and else the first of `connection refused`, `proxy`
-- and `starttls` that its text mentions; it keeps its text, and is retryable exactly when it is no
-- cancellation and is of a deadline, of a network that timed out, or, not being of the network,
-- mentions a passing trouble.
pub classify_error_lem :
    (e : Error)
    → IsKind e (classify_error (some e)).kind
      × ((classify_error (some e)).message ≡ e.text)
      × ((classify_error (some e)).retryable ≡ may_pass e)
unfolding classify_error is_retryable retryable_kind retryable_text
classify_error_lem e = (error_kind-IsKind e, refl, ground arith)

-- An error that reports a cancellation is of the kind `canceled`, and is never retried.
pub classify_error-canceled :
    (e : Error)
    → e.is_canceled ≡ true
    → ((classify_error (some e)).kind ≡ codes "canceled") × (is_retryable (some e) ≡ false)
unfolding classify_error
classify_error-canceled e h = (ground arith, ground arith)

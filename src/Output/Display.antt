-- ===== src/Output/Display.antt =====
-- `formatText` and `netJoinDisplay` of internal/output/output.go.
use ctscan.Base.{
  ℕ, ◌&&◌, not, List, [], ◌∷◌, ◌++◌, Option, none, some, if◌then◌else◌, ◌==◌, text_eq, nat_eq,
  Bytes, codes, length, ◌≡◌, refl,
}
use ctscan.Base.Decimal.{decimal}
use ctscan.Base.Text.{to_upper, has_text, join}
use ctscan.Types.{Result, Certificate, TlsInfo, AuditResult, Finding, ScanError}

unfoldable pub net_join_display : Bytes → ℕ → Bytes
unfolding has_text decimal
net_join_display host port =
    if has_text host (codes ":") && not (has_text host (codes ")"))
    then codes "[" ++ (host ++ (codes "]:" ++ decimal port))
    else host ++ (codes ":" ++ decimal port)

-- `endpoint` of formatText
endpoint_of : Result → Bytes
unfolding net_join_display
endpoint_of result =
    net_join_display
      (if result.ip == []
        then result.host
        else if result.ip == result.host
        then result.host
        else result.host ++ (codes "(" ++ (result.ip ++ codes ")")))
      result.port

common_name_of : Option Certificate → Bytes
common_name_of none = []
common_name_of (some certificate) = certificate.subject.common_name

dns_names_of : Option Certificate → List Bytes
dns_names_of none = []
dns_names_of (some certificate) = certificate.dns_names

version_of : Option TlsInfo → Bytes
version_of none = []
version_of (some tls) = tls.version

cipher_of : Option TlsInfo → Bytes
cipher_of none = []
cipher_of (some tls) = tls.cipher

sni_part : Result → Bytes
sni_part result =
    if result.sni == []
    then []
    else if result.sni == result.host
    then []
    else codes " | SNI: " ++ result.sni

audit_part : Option AuditResult → Bytes
audit_part none = []
audit_part (some audit) =
    codes " | Audit: " ++ (audit.compliance ++ (codes " (" ++ (audit.profile ++ codes ")")))

findings_part : List Finding → Bytes
unfolding decimal
findings_part [] = []
findings_part (finding ∷ findings) = codes " | Findings: " ++ decimal (length (finding ∷ findings))

error_line : Bytes → ScanError → Bytes
unfolding to_upper
error_line endpoint e =
    codes "["
    ++ (endpoint
        ++ (codes "] Error: " ++ (to_upper e.kind ++ (codes " (" ++ (e.message ++ codes ")")))))

success_line : Bytes → Result → Bytes
unfolding common_name_of dns_names_of version_of cipher_of join sni_part audit_part findings_part
success_line endpoint result =
    codes "["
    ++ (endpoint
        ++ (codes "] CN: "
            ++ (common_name_of result.certificate
                ++ (codes " | SANs: ["
                    ++ (join (dns_names_of result.certificate) (codes ", ")
                        ++ (codes "] | TLS: "
                            ++ (version_of result.tls
                                ++ (codes " | Cipher: "
                                    ++ (cipher_of result.tls
                                        ++ (sni_part result
                                            ++ (audit_part result.audit
                                                ++ findings_part result.findings)))))))))))

line_of : Option ScanError → Result → Bytes
unfolding endpoint_of error_line success_line
line_of (some e) result = error_line (endpoint_of result) e
line_of none result = success_line (endpoint_of result) result

unfoldable pub format_text : Result → Bytes
unfolding line_of
format_text result = line_of result.error result

net_join_display_test :
    (net_join_display (codes "2001:db8::1") 443 ≡ codes "[2001:db8::1]:443")
    × (net_join_display (codes "example.com") 8443 ≡ codes "example.com:8443")
unfolding net_join_display nat_eq text_eq
net_join_display_test = (refl, refl)

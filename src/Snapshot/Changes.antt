-- ===== src/Snapshot/Changes.antt =====
-- `Diff` of internal/snapshot/diff.go and its helpers. A map is the list of its entries, in the
-- order in which the loop over it meets them; `slices.SortFunc` is a stable sort here.
pub mod Laws
pub mod Order
use ctscan.Base.{
  ℕ, zero, suc, Bool, true, false, ◌&&◌, ◌||◌, List, [], ◌∷◌, ◌++◌, Option, none, some,
  if◌then◌else◌, ◌==◌, contains, is_some, Eq, text_eq, Bytes, codes, ltb,
}
use ctscan.Base.Maps.{lookup, collected}
use ctscan.Base.Sort.{sort}
use ctscan.Base.TextOrder.{le_text, sort_unique}
use ctscan.Types.{Result, Certificate, AuditResult, Finding}

pub record Change : Type 0 where
  pub schema : Bytes
  pub kind : Bytes
  pub severity : Bytes
  pub identity : Bytes
  pub detail : Bytes

instance unfoldable pub change_eq : Eq Change
unfolding text_eq
change_eq = record { dec = change_dec }
  where
    change_dec : Discrete Change
    change_dec a b = elim (text_eq.dec a.schema b.schema) [
      | no p ↦ no (λ e. p (cc))
      | yes h₁ ↦ elim (text_eq.dec a.kind b.kind) [
        | no p ↦ no (λ e. p (cc))
        | yes h₂ ↦ elim (text_eq.dec a.severity b.severity) [
          | no p ↦ no (λ e. p (cc))
          | yes h₃ ↦ elim (text_eq.dec a.identity b.identity) [
            | no p ↦ no (λ e. p (cc))
            | yes h₄ ↦ elim (text_eq.dec a.detail b.detail) [
              | no p ↦ no (λ e. p (cc))
              | yes h₅ ↦ yes (cc)
            ]
          ]
        ]
      ]
    ]

-- Change{"1.0", kind, severity, identity, detail}
abbrev change_of : Bytes → Bytes → Bytes → Bytes → Change
change_of kind severity identity detail = record {
  schema = codes "1.0";
  kind = kind;
  severity = severity;
  identity = identity;
  detail = detail;
}

unfoldable pub fingerprint : Result → Bytes
fingerprint result = elim result.certificate [
  | none ↦ []
  | some certificate ↦ certificate.fingerprint_sha256
]

unfoldable pub names_of : Option Certificate → List Bytes
unfolding sort_unique
names_of none = []
names_of (some certificate) = sort_unique certificate.dns_names

unfoldable pub names : Result → List Bytes
unfolding names_of
names result = names_of result.certificate

unfoldable pub difference : List Bytes → List Bytes → List Bytes
difference [] right = []
difference (item ∷ left) right =
    let rest = difference left right in if contains right item then rest else item ∷ rest

any_serious : List Finding → Bool
any_serious [] = false
any_serious (finding ∷ findings) =
    finding.severity == codes "critical" || finding.severity == codes "high" || any_serious findings

compliance_of_findings : List Finding → Bytes
compliance_of_findings [] = codes "pass"
compliance_of_findings (finding ∷ findings) =
    if any_serious (finding ∷ findings) then codes "fail" else codes "warn"

audited : Option AuditResult → Bytes
audited none = []
audited (some audit) = audit.compliance

unfoldable pub compliance : Result → Bytes
unfolding any_serious compliance_of_findings audited
compliance result =
    if audited result.audit == []
    then compliance_of_findings result.findings
    else audited result.audit

unfoldable pub compliance_rank : Bytes → ℕ
compliance_rank value = if value == codes "fail" then 2 else if value == codes "warn" then 1 else 0

-- fmt.Sprintf("%s -> %s", before, after)
abbrev arrow : Bytes → Bytes → Bytes
arrow before after = before ++ codes " -> " ++ after

abbrev pub asset_added : Bytes → Change
asset_added identity =
    change_of (codes "asset_added") (codes "info") identity
      (codes "endpoint appears in the new snapshot")

abbrev pub asset_removed : Bytes → Change
asset_removed identity =
    change_of (codes "asset_removed") (codes "info") identity
      (codes "endpoint is absent from the new snapshot")

abbrev pub certificate_changed : Bytes → Result → Result → Change
certificate_changed identity previous current =
    change_of (codes "certificate_changed") (codes "info") identity
      (arrow (fingerprint previous) (fingerprint current))

abbrev pub san_added : Bytes → Bytes → Change
san_added identity name = change_of (codes "san_added") (codes "info") identity name

abbrev pub san_removed : Bytes → Bytes → Change
san_removed identity name = change_of (codes "san_removed") (codes "info") identity name

abbrev pub security_regression : Bytes → Result → Result → Change
security_regression identity previous current =
    change_of (codes "security_regression") (codes "high") identity
      (arrow (compliance previous) (compliance current))

unfoldable pub added_names : Bytes → List Bytes → List Change
added_names identity [] = []
added_names identity (name ∷ names) = san_added identity name ∷ added_names identity names

unfoldable pub removed_names : Bytes → List Bytes → List Change
removed_names identity [] = []
removed_names identity (name ∷ names) = san_removed identity name ∷ removed_names identity names

-- One round of the loop over `after`.
unfoldable pub endpoint : Option Result → Bytes → Result → List Change
unfolding fingerprint names difference compliance compliance_rank added_names removed_names
endpoint none identity current = asset_added identity ∷ []
endpoint (some previous) identity current =
    (if fingerprint previous == fingerprint current
      then []
      else certificate_changed identity previous current ∷ [])
    ++ added_names identity (difference (names current) (names previous))
    ++ removed_names identity (difference (names previous) (names current))
    ++ (if ltb (compliance_rank (compliance previous)) (compliance_rank (compliance current))
        then security_regression identity previous current ∷ []
        else [])

-- One round of the loop over `before`.
unfoldable pub gone : Option Result → Bytes → List Change
gone none identity = asset_removed identity ∷ []
gone (some current) identity = []

abbrev pub Snapshot : Type 0
Snapshot = List (Bytes × Result)

unfoldable pub le_change : Change → Change → Bool
unfolding le_text
le_change a b =
    if a.identity == b.identity then le_text a.kind b.kind else le_text a.identity b.identity

unfoldable pub diff : Snapshot → Snapshot → List Change
unfolding endpoint gone le_change sort
diff before after = sort le_change (
    collected (λ identity current. endpoint (lookup before identity) identity current) after
    ++ collected (λ identity previous. gone (lookup after identity) identity) before)

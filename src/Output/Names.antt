-- ===== src/Output/Names.antt =====
-- `CertificateNames` of internal/output/output.go.
pub mod Laws
use ctscan.Base.{
  Bool, true, false, ◌&&◌, ◌||◌, List, [], ◌∷◌, ◌++◌, Option, none, some, if◌then◌else◌, ◌==◌,
  contains, push_new, text_eq, Bytes, codes, Outcome, ok, err,
}
use ctscan.Base.TextOrder.{sort_texts}
use ctscan.Input.Names.{Idna, NameError, normalize_dns_name}
use ctscan.Types.{Result, Certificate}

-- The values that are normalized: the DNS names, then the common name if there is one.
unfoldable pub values_of : Certificate → List Bytes
values_of certificate =
    if certificate.subject.common_name == []
    then certificate.dns_names
    else certificate.dns_names ++ certificate.subject.common_name ∷ []

module _ (idna : Idna) where
  keep_name : List Bytes → Outcome NameError Bytes → List Bytes
  unfolding push_new
  keep_name names (err e) = names
  keep_name names (ok name) = push_new names name

  -- The loop; `seen` holds what `names` lists.
  keep_names : List Bytes → List Bytes → List Bytes
  unfolding keep_name
  keep_names [] names = names
  keep_names (value ∷ values) names =
      keep_names values (keep_name names (normalize_dns_name idna value))

  names_in : Option Certificate → List Bytes
  unfolding keep_names sort_texts values_of
  names_in none = []
  names_in (some certificate) = sort_texts (keep_names (values_of certificate) [])

  unfoldable pub certificate_names : Result → List Bytes
  unfolding names_in
  certificate_names result = names_in result.certificate

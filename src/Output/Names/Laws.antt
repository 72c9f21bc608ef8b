-- ===== src/Output/Names/Laws.antt =====
-- What `CertificateNames` lists.
use ctscan.Base.{
  Bool, false, ◌||◌, List, [], ◌∷◌, Option, none, some, ◌==◌, contains, text_eq, Bytes, Outcome, ok,
  err, ◌≡◌, refl, ◌∙◌, arith, Distinct, push_new-Distinct, contains-push_new,
}
use ctscan.Base.Sort.{IsSorted}
use ctscan.Base.TextOrder.{le_text, sort_texts-IsSorted, sort_texts-Distinct, contains-sort_texts}
use ctscan.Input.Names.{Idna, NameError, normalize_dns_name}
use ctscan.Output.Names.{values_of, keep_name, keep_names, names_in, certificate_names}
use ctscan.Types.{Result, Certificate}

abbrev pub is_name : Bytes → Outcome NameError Bytes → Bool
is_name name (err e) = false
is_name name (ok n) = name == n

module _ (idna : Idna) where
  -- Some value normalizes to the name.
  abbrev pub any_normalizes : List Bytes → Bytes → Bool
  any_normalizes [] name = false
  any_normalizes (value ∷ values) name =
      is_name name (normalize_dns_name idna value) || any_normalizes values name

  -- A DNS name of the certificate, or its common name, normalizes to the name.
  abbrev pub names_it : Option Certificate → Bytes → Bool
  names_it none name = false
  names_it (some certificate) name = any_normalizes (values_of certificate) name

  keep_name-Distinct :
      (names : List Bytes) (o : Outcome NameError Bytes)
      → Distinct names
      → Distinct (keep_name idna names o)
  unfolding keep_name
  keep_name-Distinct names (err e) d = d
  keep_name-Distinct names (ok name) d = push_new-Distinct names name d

  keep_names-Distinct :
      (values names : List Bytes) → Distinct names → Distinct (keep_names idna values names)
  unfolding keep_names
  keep_names-Distinct [] names d = d
  keep_names-Distinct (value ∷ values) names d =
      let kept = keep_name idna names (normalize_dns_name idna value) in
      keep_names-Distinct values kept (keep_name-Distinct names (normalize_dns_name idna value) d)

  contains-keep_name :
      (names : List Bytes) (o : Outcome NameError Bytes) (name : Bytes)
      → contains (keep_name idna names o) name ≡ (contains names name || is_name name o)
  unfolding keep_name
  contains-keep_name names (err e) name = ground arith
  contains-keep_name names (ok n) name = contains-push_new names n name

  contains-keep_names :
      (values names : List Bytes) (name : Bytes)
      → contains (keep_names idna values names) name
        ≡ (contains names name || any_normalizes values name)
  unfolding keep_names
  contains-keep_names [] names name = ground arith
  contains-keep_names (value ∷ values) names name =
      contains-keep_names values (keep_name idna names (normalize_dns_name idna value)) name
      ∙ rw (contains-keep_name names (normalize_dns_name idna value) name) (ground arith)

  names_in_lem :
      (o : Option Certificate)
      → Distinct (names_in idna o)
        × IsSorted le_text (names_in idna o)
        × ((name : Bytes) → contains (names_in idna o) name ≡ names_it o name)
  unfolding names_in
  names_in_lem none = (tt, tt, λ name. refl)
  names_in_lem (some certificate) =
      let kept = keep_names idna (values_of certificate) [] in
      (
        sort_texts-Distinct kept (keep_names-Distinct (values_of certificate) [] tt),
        sort_texts-IsSorted kept,
        λ name. contains-sort_texts kept name ∙ contains-keep_names (values_of certificate) [] name,
      )

  -- The names of a certificate are those that its DNS names and its common name normalize to, each
  -- once and in order.
  pub certificate_names_lem :
      (result : Result)
      → Distinct (certificate_names idna result)
        × IsSorted le_text (certificate_names idna result)
        × ((name : Bytes)
            → contains (certificate_names idna result) name ≡ names_it result.certificate name)
  unfolding certificate_names
  certificate_names_lem result = names_in_lem result.certificate

-- ===== src/Transparency/Names.antt =====
-- `normalizedNames` of internal/transparency/transparency.go: the names of a certificate that a
-- search keeps.
use ctscan.Base.{
  ◌&&◌, ◌||◌, List, [], ◌∷◌, ◌≡◌, inl, inr, Outcome, ok, err, if◌then◌else◌, nat_eq, text_eq,
  texts_eq, Bytes, arith, Bool-cases, contains, Distinct, push_new, contains-push_new,
  push_new-Distinct, ==_iff, ◌==◌, ◌∙◌,
}
use ctscan.Input.Names.{Idna, NameError, normalize_dns_name, in_scope}
use ctscan.Output.Names.Laws.{any_normalizes, is_name}

module _ (idna : Idna) where
  -- one round of the loop, on the name that the value normalizes to
  meet : Bytes → List Bytes → Outcome NameError Bytes → List Bytes
  meet domain names (err e) = names
  meet domain names (ok name) =
      if in_scope idna name (domain ∷ []) then push_new names name else names

  collect : Bytes → List Bytes → List Bytes → List Bytes
  collect domain names [] = names
  collect domain names (value ∷ values) =
      collect domain (meet domain names (normalize_dns_name idna value)) values

  unfoldable pub normalized_names : List Bytes → Bytes → List Bytes
  unfolding collect meet normalize_dns_name in_scope push_new
  normalized_names values domain = collect domain [] values

  meet-Distinct :
      (domain : Bytes) (names : List Bytes) (r : Outcome NameError Bytes)
      → Distinct names
      → Distinct (meet domain names r)
  unfolding meet
  meet-Distinct domain names (err e) d = d
  meet-Distinct domain names (ok name) d = elim (Bool-cases (in_scope idna name (domain ∷ []))) [
    | inl inside ↦ rw inside (push_new-Distinct names name d)
    | inr outside ↦ rw outside d
  ]

  collect-Distinct :
      (domain : Bytes) (names values : List Bytes)
      → Distinct names
      → Distinct (collect domain names values)
  unfolding collect
  collect-Distinct domain names [] d = d
  collect-Distinct domain names (value ∷ values) d =
      collect-Distinct domain (meet domain names (normalize_dns_name idna value)) values
        (meet-Distinct domain names (normalize_dns_name idna value) d)

  contains-meet :
      (domain : Bytes) (names : List Bytes) (r : Outcome NameError Bytes) (name : Bytes)
      → contains (meet domain names r) name
        ≡ (contains names name || is_name name r && in_scope idna name (domain ∷ []))
  unfolding meet
  contains-meet domain names (err e) name = ground arith
  contains-meet domain names (ok n) name = elim (Bool-cases (name == n)) [
    | inl same ↦
        let e : name ≡ n = (==_iff name n).0 same in
        rw⁻¹ e (ground (arith, contains-push_new names name name))
    | inr other ↦ ground (arith, contains-push_new names n name)
  ]

  contains-collect :
      (domain : Bytes) (names values : List Bytes) (name : Bytes)
      → contains (collect domain names values) name ≡ (
          contains names name
          || any_normalizes idna values name && in_scope idna name (domain ∷ []))
  unfolding collect
  contains-collect domain names [] name = ground arith
  contains-collect domain names (value ∷ values) name =
      contains-collect domain (meet domain names (normalize_dns_name idna value)) values name
      ∙ rw (contains-meet domain names (normalize_dns_name idna value) name) (ground arith)

  -- The names kept are those that some value normalizes to and that lie in the scope of the domain,
  -- each once.
  pub normalized_names_lem :
      (values : List Bytes) (domain : Bytes)
      → Distinct (normalized_names values domain)
        × ((name : Bytes)
            → contains (normalized_names values domain) name
              ≡ (any_normalizes idna values name && in_scope idna name (domain ∷ [])))
  unfolding normalized_names
  normalized_names_lem values domain =
      (collect-Distinct domain [] values tt, λ name. contains-collect domain [] values name)

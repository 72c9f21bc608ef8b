-- ===== src/Cli/Ct/Laws.antt =====
-- The names that `runCT` prints.
use ctscan.Base.{
  Option, none, some, Bool, true, ◌&&◌, List, [], ◌∷◌, ◌++◌, Outcome, ok, err, ◌>>=◌, ◌==◌, text_eq,
  texts_eq, ==_refl, Bytes, codes, contains, Distinct, Distinct-concat, All, All-append, ◌≡◌, ◌⊎◌,
  inl, inr, refl, arith, Bool-cases, ap, ◌∙◌,
}
use ctscan.Cli.Ct.{
  CtState, CtFlow, CtCalls, ct_start, write_name, write_names, print_record, take_record,
  take_records, found_records, take_domain, take_values, flushed, run_created, run_ct, record_key,
}
use ctscan.Input.Names.{Idna, NameError, normalize_dns_name, in_scope}
use ctscan.Transparency.{Record, Failure}
use ctscan.Transparency.Search.Kept.{IsKept}

abbrev pub dns : Bytes
dns = codes "dns"

-- The lines are the names that were seen; each is printed once, and meets `P`.
abbrev IsPrinted : (Bytes → Type 0) → CtState → Type 0
IsPrinted P st = (st.lines ≡ st.seen_names) × Distinct st.lines × All P st.lines

abbrev Ends : (CtState → Type 0) → CtFlow → Type 0
Ends Q (ok st) = Q st
Ends Q (err e) = Q e.1

Ends-bind :
    (Q : CtState → Type 0) (m : CtFlow) (f : CtState → CtFlow)
    → Ends Q m
    → ((st : CtState) → Q st → Ends Q (f st))
    → Ends Q (m >>= f)
Ends-bind Q (ok st) f h next = next st h
Ends-bind Q (err e) f h next = h

write_name-IsPrinted :
    (P : Bytes → Type 0) (st : CtState) (name : Bytes)
    → P name
    → IsPrinted P st
    → IsPrinted P (write_name st name)
unfolding write_name
write_name-IsPrinted P st name p (same, d, each) = elim (Bool-cases (contains st.seen_names name)) [
  | inl seen ↦ rw seen (same, d, each)
  | inr new ↦ rw new (
    ap (λ ls. ls ++ name ∷ []) same,
    Distinct-concat st.lines name d (ap (λ ls. contains ls name) same ∙ new),
    All-append P st.lines (name ∷ []) each (p, tt),
  )
]

write_names-IsPrinted :
    (P : Bytes → Type 0) (st : CtState) (names : List Bytes)
    → ((name : Bytes) → contains names name ≡ true → P name)
    → IsPrinted P st
    → IsPrinted P (write_names st names)
unfolding write_names
write_names-IsPrinted P st [] allowed h = h
write_names-IsPrinted P st (name ∷ names) allowed h =
    write_names-IsPrinted P (write_name st name) names (λ n m. allowed n (ground (arith, m)))
      (write_name-IsPrinted P st name (allowed name (ground (arith, ==_refl name))) h)

-- What a provider promises: the records that it finds are of the domain and in its scope.
abbrev pub FindsKept : CtCalls → Type 0
FindsKept calls =
    (domain : Bytes) (records : List Record)
    → calls.search_log domain ≡ ok records
    → All (IsKept calls.idna domain) records

module _ (calls : CtCalls) (P : Bytes → Type 0) where
  print_record-dns :
      (st : CtState) (r : Record) → print_record calls dns st r ≡ ok (write_names st r.dns_names)
  unfolding print_record text_eq
  print_record-dns st r = refl

  -- What is in the scope of the domain meets `P`.
  abbrev Allows : Bytes → Type 0
  Allows domain = (name : Bytes) → in_scope calls.idna name (domain ∷ []) ≡ true → P name

  take_record-Ends :
      (domain : Bytes) (st : CtState) (r : Record)
      → Allows domain
      → IsKept calls.idna domain r
      → IsPrinted P st
      → Ends (IsPrinted P) (take_record calls dns st r)
  unfolding take_record
  take_record-Ends domain st r allowed (d, some_name, distinct, inside) h =
      elim (Bool-cases (contains st.seen_records (record_key r))) [
        | inl seen ↦ rw seen h
        | inr new ↦
            let st' : CtState = record st { seen_records = st.seen_records ++ record_key r ∷ [] } in
            rw (new, print_record-dns st' r)
              (write_names-IsPrinted P st' r.dns_names (λ name m. allowed name (inside name m)) h)
      ]

  take_records-Ends :
      (domain : Bytes) (st : CtState) (rs : List Record)
      → Allows domain
      → All (IsKept calls.idna domain) rs
      → IsPrinted P st
      → Ends (IsPrinted P) (take_records calls dns st rs)
  unfolding take_records
  take_records-Ends domain st [] allowed kept h = h
  take_records-Ends domain st (r ∷ rs) allowed (k, kept) h =
      Ends-bind (IsPrinted P) (take_record calls dns st r) (λ st'. take_records calls dns st' rs)
        (take_record-Ends domain st r allowed k h)
        (λ st' h'. take_records-Ends domain st' rs allowed kept h')

  found_records-Ends :
      (domain : Bytes) (st : CtState) (found : Outcome Failure (List Record))
      → FindsKept calls
      → Allows domain
      → calls.search_log domain ≡ found
      → IsPrinted P st
      → Ends (IsPrinted P) (found_records calls dns st found)
  unfolding found_records
  found_records-Ends domain st (err e) promise allowed s h = h
  found_records-Ends domain st (ok rs) promise allowed s h =
      take_records-Ends domain st rs allowed (promise domain rs s) h

  take_domain-Ends :
      (st : CtState) (r : Outcome NameError Bytes)
      → FindsKept calls
      → ((domain : Bytes) → r ≡ ok domain → Allows domain)
      → IsPrinted P st
      → Ends (IsPrinted P) (take_domain calls dns st r)
  unfolding take_domain
  take_domain-Ends st (err e) promise allowed h = h
  take_domain-Ends st (ok domain) promise allowed h =
      elim (Bool-cases
        ((calls.public_suffix domain).1 && (calls.public_suffix domain).0 == domain)) [
          | inl public ↦ rw public h
          | inr fine ↦ rw fine (
              found_records-Ends domain st (calls.search_log domain) promise (allowed domain refl)
                refl h)
        ]

  take_values-Ends :
      (st : CtState) (values : List Bytes)
      → FindsKept calls
      → All
          (λ value.
            (domain : Bytes) → normalize_dns_name calls.idna value ≡ ok domain → Allows domain)
          values
      → IsPrinted P st
      → Ends (IsPrinted P) (take_values calls dns st values)
  unfolding take_values
  take_values-Ends st [] promise allowed h = h
  take_values-Ends st (value ∷ values) promise (a, allowed) h =
      Ends-bind (IsPrinted P) (take_domain calls dns st (normalize_dns_name calls.idna value))
        (λ st'. take_values calls dns st' values)
        (take_domain-Ends st (normalize_dns_name calls.idna value) promise a h)
        (λ st' h'. take_values-Ends st' values promise allowed h')

  flushed-Ends :
      (refused : Bool) (m : CtFlow) → Ends (IsPrinted P) m → IsPrinted P (flushed calls refused m).1
  unfolding flushed
  flushed-Ends refused (ok st) h = h
  flushed-Ends refused (err e) h = h

-- The name lies in the scope of a domain that some value of the list normalizes to.
abbrev pub IsAsked : Idna → List Bytes → Bytes → Type 0
IsAsked idna [] name = ⊥
IsAsked idna (value ∷ values) name =
    ((domain : Bytes) × (normalize_dns_name idna value ≡ ok domain)
      × (in_scope idna name (domain ∷ []) ≡ true))
    ⊎ IsAsked idna values name

allowed-All :
    (idna : Idna) (P : Bytes → Type 0) (values : List Bytes)
    → ((name : Bytes) → IsAsked idna values name → P name)
    → All
        (λ value.
          (domain : Bytes)
          → normalize_dns_name idna value ≡ ok domain
          → (name : Bytes) → in_scope idna name (domain ∷ []) ≡ true
          → P name)
        values
allowed-All idna P [] h = tt
allowed-All idna P (value ∷ values) h = (
  λ domain e name inside. h name (inl (domain, e, inside)),
  allowed-All idna P values (λ name asked. h name (inr asked)),
)

run_created-IsPrinted :
    (calls : CtCalls) (created : Option Failure) (refused : Bool) (values : List Bytes)
    → FindsKept calls
    → IsPrinted (IsAsked calls.idna values) (run_created calls refused dns values created).1
unfolding run_created
run_created-IsPrinted calls (some e) refused values promise = (refl, tt, tt)
run_created-IsPrinted calls none refused values promise =
    flushed-Ends calls (IsAsked calls.idna values) refused (take_values calls dns ct_start values) (
      take_values-Ends calls (IsAsked calls.idna values) ct_start values promise
        (allowed-All calls.idna (IsAsked calls.idna values) values (λ name a. a)) (refl, tt, tt))

-- With the format `dns`, whatever the exit code, each name is printed once, and lies in the scope of
-- a domain that was asked for, if the records of the provider lie in the scope of their domain.
pub run_ct-IsPrinted :
    (calls : CtCalls) (created : Option Failure) (refused : Bool) (values : List Bytes)
    → FindsKept calls
    → Distinct (run_ct calls created refused dns values).1.lines
      × All (IsAsked calls.idna values) (run_ct calls created refused dns values).1.lines
unfolding run_ct
run_ct-IsPrinted calls created refused values promise = elim (Bool-cases (values == [])) [
  | inl empty ↦ rw empty (tt, tt)
  | inr some_value ↦
      let (same, distinct, asked) = run_created-IsPrinted calls created refused values promise in
      rw some_value (distinct, asked)
]

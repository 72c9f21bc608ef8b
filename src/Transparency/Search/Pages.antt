-- ===== src/Transparency/Search/Pages.antt =====
-- The loop over pages of Cert Spotter's `Search`, in internal/transparency/transparency.go, and
-- `Search` of either provider.
use ctscan.Base.{
  ℕ, zero, suc, ◌≤◌, Bool, false, List, [], ◌∷◌, ◌++◌, Option, none, some, Outcome, ok, err,
  if◌then◌else◌, ◌==◌, text_eq, Bytes, ◌≡◌, ◌≢◌, ◌↔◌, refl, sym, ap, ◌∙◌, arith, append-nil,
  append_assoc, length, All, All-append, Bool-cases, Outcome-cases, ==_iff, inl, inr,
}
use ctscan.Transparency.{Record, ClientConfig, Provider, crt_sh, cert_spotter, Failure}
use ctscan.Transparency.Requests.{Round}
use ctscan.Transparency.Search.{Request, Web, spot_endpoint, turn, crt_search}

-- How the page at a place is read: its records and the endpoint of the next one.
abbrev pub Turns : Type 0
Turns = ℕ → Bytes → Outcome Failure (List Record × Bytes)

-- The end of a round: `again` makes the rounds after it.
turned :
    Outcome Failure (List Record × Bytes)
    → List Record
    → (List Record → Bytes → Option (Outcome Failure (List Record)))
    → Option (Outcome Failure (List Record))
turned (err e) records again = some (err e)
turned (ok (page, next)) records again = again (records ++ page) next

-- `for endpoint != ""`, with fuel, which is used up at `none`.
unfoldable pub pages_from :
    Turns → ℕ → ℕ → Bytes → List Record → Option (Outcome Failure (List Record))
unfolding turned
pages_from turns zero k endpoint records = if endpoint == [] then some (ok records) else none
pages_from turns (suc fuel) k endpoint records =
    if endpoint == []
    then some (ok records)
    else turned (turns k endpoint) records
        (λ records' next. pages_from turns fuel (suc k) next records')

module _ {Url : Type 0} (web : Web Url) where
  -- `answers` are those to the attempts of the request for each page.
  unfoldable pub spot_search :
      ℕ
      → ClientConfig
      → (ℕ → Request → ℕ → Round)
      → Bytes
      → Bool
      → Option (Outcome Failure (List Record))
  unfolding pages_from spot_endpoint turn
  spot_search fuel cfg answers domain include_subdomains =
      pages_from (λ k endpoint. turn web cfg (answers k) domain endpoint) fuel 0
        (spot_endpoint web cfg domain include_subdomains) []

  unfoldable pub search :
      ℕ
      → Provider
      → (ℕ → Request → ℕ → Round)
      → Bytes
      → Bool
      → Option (Outcome Failure (List Record))
  unfolding spot_search crt_search
  search fuel (crt_sh cfg) answers domain include_subdomains =
      some (crt_search web cfg (answers 0) domain include_subdomains)
  search fuel (cert_spotter cfg) answers domain include_subdomains =
      spot_search fuel cfg answers domain include_subdomains

abbrev pub concat : List (List Record) → List Record
concat [] = []
concat (page ∷ pages) = page ++ concat pages

-- From place `k` and its endpoint on, the pages are read in a chain, each naming the endpoint of
-- the next one, until one names none or one fails.
abbrev pub Visits : Turns → ℕ → Bytes → List (List Record) → Option Failure → Type 0
Visits turns k endpoint [] none = endpoint ≡ []
Visits turns k endpoint [] (some e) = (endpoint ≢ []) × (turns k endpoint ≡ err e)
Visits turns k endpoint (page ∷ pages) last =
    (endpoint ≢ [])
    × ((next : Bytes) × (turns k endpoint ≡ ok (page, next)) × Visits turns (suc k) next pages last)

abbrev pub rounds_of : List (List Record) → Option Failure → ℕ
rounds_of pages none = length pages
rounds_of pages (some e) = suc (length pages)

abbrev pub result_of : List Record → Option Failure → Outcome Failure (List Record)
result_of records none = ok records
result_of records (some e) = err e

-- What a chain of at most `fuel` pages gives.
abbrev pub Gives : Turns → ℕ → ℕ → Bytes → List Record → Outcome Failure (List Record) → Type 0
Gives turns fuel k endpoint records result =
    (pages : List (List Record)) × (last : Option Failure) × (rounds_of pages last ≤ fuel)
    × Visits turns k endpoint pages last
    × (result ≡ result_of (records ++ concat pages) last)

Gives-end :
    (turns : Turns) (fuel k : ℕ) (endpoint : Bytes) (records : List Record)
    (result : Outcome Failure (List Record))
    → endpoint ≡ []
    → result ≡ ok records
    → Gives turns fuel k endpoint records result
Gives-end turns fuel k endpoint records result e h =
    ([], none, omega arith, e, h ∙ ap ok (sym (append-nil records)))

longer :
    (turns : Turns) (fuel k : ℕ) (endpoint next : Bytes) (records page : List Record)
    (result : Outcome Failure (List Record))
    → endpoint ≢ []
    → turns k endpoint ≡ ok (page, next)
    → Gives turns fuel (suc k) next (records ++ page) result
    → Gives turns (suc fuel) k endpoint records result
longer turns fuel k endpoint next records page result more e (pages, none, few, chain, h) = (
  page ∷ pages,
  none,
  omega arith,
  (more, (next, e, chain)),
  h ∙ ap ok (append_assoc records page (concat pages)),
)
longer turns fuel k endpoint next records page result more e (pages, some x, few, chain, h) =
    (page ∷ pages, some x, omega arith, (more, (next, e, chain)), h)

not_end : (endpoint : Bytes) → (endpoint == []) ≡ false → endpoint ≢ []
not_end endpoint h e = ground arith

is_end : (endpoint : Bytes) → endpoint ≢ [] → (endpoint == []) ≡ false
is_end endpoint h = ground arith

fewer :
    (page : List Record) (pages : List (List Record)) (last : Option Failure) (fuel : ℕ)
    → rounds_of (page ∷ pages) last ≤ suc fuel
    → rounds_of pages last ≤ fuel
fewer page pages none fuel h = omega arith
fewer page pages (some x) fuel h = omega arith

pages_from_sound :
    (turns : Turns) (fuel k : ℕ) (endpoint : Bytes) (records : List Record)
    (result : Outcome Failure (List Record))
    → pages_from turns fuel k endpoint records ≡ some result
    → Gives turns fuel k endpoint records result
unfolding pages_from
pages_from_sound turns zero k endpoint records result h = elim (Bool-cases (endpoint == [])) [
  | inl end ↦
      Gives-end turns zero k endpoint records result ((==_iff endpoint []).0 end) (cc (rw end at h))
  | inr more ↦ cc (rw more at h)
]
pages_from_sound turns (suc fuel) k endpoint records result h = elim (Bool-cases (endpoint == [])) [
  | inl end ↦
      Gives-end turns (suc fuel) k endpoint records result ((==_iff endpoint []).0 end)
        (cc (rw end at h))
  | inr more ↦ elim (Outcome-cases (turns k endpoint)) [
    | inl ((page, next), e) ↦
        longer turns fuel k endpoint next records page result (not_end endpoint more) e
          (pages_from_sound turns fuel (suc k) next (records ++ page) result (rw (more, e) at h))
    | inr (x, e) ↦ ([], some x, omega arith, (not_end endpoint more, e), cc (rw (more, e) at h))
  ]
]

pages_from-end :
    (turns : Turns) (fuel k : ℕ) (records : List Record)
    → pages_from turns fuel k [] records ≡ some (ok records)
unfolding pages_from text_eq
pages_from-end turns zero k records = refl
pages_from-end turns (suc fuel) k records = refl

pages_from_complete :
    (turns : Turns) (fuel k : ℕ) (endpoint : Bytes) (records : List Record)
    (pages : List (List Record)) (last : Option Failure)
    → rounds_of pages last ≤ fuel
    → Visits turns k endpoint pages last
    → pages_from turns fuel k endpoint records ≡ some (result_of (records ++ concat pages) last)
unfolding pages_from
pages_from_complete turns fuel k endpoint records [] none few end =
    rw end
      (pages_from-end turns fuel k records ∙ ap (λ rs. some (ok rs)) (sym (append-nil records)))
pages_from_complete turns zero k endpoint records [] (some x) few chain = absurd (omega arith)
pages_from_complete turns (suc fuel) k endpoint records [] (some x) few (more, e) =
    rw (is_end endpoint more, e) refl
pages_from_complete turns zero k endpoint records (page ∷ pages) none few chain =
    absurd (omega arith)
pages_from_complete turns zero k endpoint records (page ∷ pages) (some x) few chain =
    absurd (omega arith)
pages_from_complete turns (suc fuel) k endpoint records (page ∷ pages) last few
      (more, (next, e, chain)) =
    rw (is_end endpoint more, e)
      (pages_from_complete turns fuel (suc k) next (records ++ page) pages last
          (fewer page pages last fuel few) chain
        ∙ ap (λ rs. some (result_of rs last)) (append_assoc records page (concat pages)))

-- The loop ends within its fuel exactly when a chain of that many pages at most ends, and it gives
-- the records of all pages in their order, or the error of the last one.
pub pages_from_iff :
    (turns : Turns) (fuel k : ℕ) (endpoint : Bytes) (records : List Record)
    (result : Outcome Failure (List Record))
    → (pages_from turns fuel k endpoint records ≡ some result)
      ↔ Gives turns fuel k endpoint records result
pages_from_iff turns fuel k endpoint records result = (
  pages_from_sound turns fuel k endpoint records result,
  λ (pages, last, few, chain, h).
      pages_from_complete turns fuel k endpoint records pages last few chain ∙ ap some (sym h),
)

-- What every page of a chain holds, all its records hold.
pub Visits-All {ℓ} :
    (P : Record → Type ℓ) (turns : Turns) (k : ℕ) (endpoint : Bytes) (pages : List (List Record))
    (last : Option Failure)
    → ((k' : ℕ) (e next : Bytes) (page : List Record) → turns k' e ≡ ok (page, next) → All P page)
    → Visits turns k endpoint pages last
    → All P (concat pages)
Visits-All P turns k endpoint [] last each chain = tt
Visits-All P turns k endpoint (page ∷ pages) last each (more, (next, e, chain)) =
    All-append P page (concat pages) (each k endpoint next page e)
      (Visits-All P turns (suc k) next pages last each chain)

-- Every endpoint of the set is read, and names one of the set as the next.
abbrev pub IsClosed {ℓ} : Turns → (Bytes → Type ℓ) → Type ℓ
IsClosed turns S =
    (k : ℕ) (endpoint : Bytes)
    → S endpoint
    → (endpoint ≢ [])
      × ((page : List Record) × (next : Bytes) × (turns k endpoint ≡ ok (page, next)) × S next)

-- A server whose pages name one another for ever keeps the loop running: no fuel is enough.
pub pages_from-IsClosed {ℓ} :
    (turns : Turns) (S : Bytes → Type ℓ)
    → IsClosed turns S
    → (fuel k : ℕ) (endpoint : Bytes) (records : List Record) → S endpoint
    → pages_from turns fuel k endpoint records ≡ none
unfolding pages_from
pages_from-IsClosed turns S more zero k endpoint records s =
    rw (is_end endpoint (more k endpoint s).0) refl
pages_from-IsClosed turns S more (suc fuel) k endpoint records s =
    let (named, (page, next, e, t)) = more k endpoint s in
    rw (is_end endpoint named, e)
      (pages_from-IsClosed turns S more fuel (suc k) next (records ++ page) t)

-- ===== src/Transparency/Search/Kept.antt =====
-- What the records that a search returns hold, and that either provider names a page of them.
use ctscan.Base.{
  ℕ, Bool, true, List, [], ◌∷◌, Option, none, some, Outcome, ok, err, ◌==◌, text_eq, texts_eq,
  Bytes, ◌≡◌, ◌≢◌, refl, arith, All, All-append, contains, Distinct, Bool-cases, ◌>>=◌, ◌*◌, ◌^◌,
  take, codes, inl, inr,
}
use ctscan.Base.Text.{fields}
use ctscan.Input.Names.{in_scope, Idna}
use ctscan.Transparency.{Record, ClientConfig, Provider, crt_sh, cert_spotter, Failure}
use ctscan.Transparency.Links.{parse_next_link}
use ctscan.Transparency.Names.{normalized_names, normalized_names_lem}
use ctscan.Transparency.Requests.{Round}
use ctscan.Transparency.Search.{
  CrtItem, SpotItem, Request, Web, kept, crt_record, crt_records, spot_record, spot_records,
  crt_search, turn, spot_endpoint, json_decoded, next_endpoint,
}
use ctscan.Transparency.Search.Pages.{
  Turns, pages_from_iff, Visits-All, concat, result_of, spot_search, search,
}

-- The record is of the domain and has some name; its names are distinct and in the domain's scope.
abbrev pub IsKept : Idna → Bytes → Record → Type 0
IsKept idna domain r =
    (r.domain ≡ domain)
    × (r.dns_names ≢ [])
    × Distinct r.dns_names
    × ((name : Bytes) → contains r.dns_names name ≡ true → in_scope idna name (domain ∷ []) ≡ true)

kept-All :
    (idna : Idna) (domain : Bytes) (r : Record) (values : List Bytes)
    → r.domain ≡ domain
    → r.dns_names ≡ normalized_names idna values domain
    → All (IsKept idna domain) (kept r)
unfolding kept
kept-All idna domain r values d e =
    let (distinct, exact) = normalized_names_lem idna values domain in
    elim (Bool-cases (r.dns_names == [])) [
      | inl empty ↦ rw empty tt
      | inr some_name ↦
          rw some_name
            ((d, ground arith, rw e distinct, λ name h. ground (arith, exact name, e)), tt)
    ]

crt_records-All :
    {Url : Type 0} (web : Web Url) (domain : Bytes) (items : List CrtItem)
    → All (IsKept web.idna domain) (crt_records web domain items)
unfolding crt_records crt_record
crt_records-All web domain [] = tt
crt_records-All web domain (item ∷ items) =
    All-append (IsKept web.idna domain) (kept (crt_record web domain item))
      (crt_records web domain items)
      (kept-All web.idna domain (crt_record web domain item) (fields item.name_value) refl refl)
      (crt_records-All web domain items)

spot_records-All :
    {Url : Type 0} (web : Web Url) (domain : Bytes) (items : List SpotItem)
    → All (IsKept web.idna domain) (spot_records web domain items)
unfolding spot_records spot_record
spot_records-All web domain [] = tt
spot_records-All web domain (item ∷ items) =
    All-append (IsKept web.idna domain) (kept (spot_record web domain item))
      (spot_records web domain items)
      (kept-All web.idna domain (spot_record web domain item) item.dns_names refl refl)
      (spot_records-All web domain items)

abbrev Meets {ℓ κ} : {A : Type ℓ} → (A → Type κ) → Outcome Failure A → Type (ℓ ⊔ κ)
Meets {A = A} P r = (a : A) → r ≡ ok a → P a

-- What every result of the rest of a call meets, the call meets.
bind-Meets {ℓ κ μ} :
    {A : Type ℓ} {B : Type κ} (P : B → Type μ) (m : Outcome Failure A) (f : A → Outcome Failure B)
    → ((a : A) → Meets P (f a))
    → Meets P (m >>= f)
bind-Meets P (ok a) f each = each a
bind-Meets P (err e) f each = λ b h. cc

crt_search-All :
    {Url : Type 0} (web : Web Url) (cfg : ClientConfig) (answers : Request → ℕ → Round)
    (domain : Bytes) (include_subdomains : Bool)
    → Meets (All (IsKept web.idna domain)) (crt_search web cfg answers domain include_subdomains)
unfolding crt_search
crt_search-All web cfg answers domain include_subdomains =
    bind-Meets (All (IsKept web.idna domain)) _ _ (λ response.
      bind-Meets (All (IsKept web.idna domain))
        (json_decoded web (codes "crt.sh") (web.decode_crt (take (64 * 2 ^ 20) response.body)))
        (λ items. ok (crt_records web domain items))
        (λ items records h.
          let e : crt_records web domain items ≡ records = cc in
          rw⁻¹ e (crt_records-All web domain items)))

turn-All :
    {Url : Type 0} (web : Web Url) (cfg : ClientConfig) (answers : Request → ℕ → Round)
    (domain endpoint : Bytes)
    → Meets (λ page. All (IsKept web.idna domain) page.0) (turn web cfg answers domain endpoint)
unfolding turn
turn-All web cfg answers domain endpoint =
    bind-Meets (λ page. All (IsKept web.idna domain) page.0) _ _
      (λ response.
        bind-Meets (λ page. All (IsKept web.idna domain) page.0)
          (json_decoded web (codes "certspotter")
            (web.decode_spot (take (16 * 2 ^ 20) response.body)))
          (λ items. ok (
            spot_records web domain items,
            next_endpoint web endpoint (parse_next_link response.link),
          ))
          (λ items page h.
            let e : spot_records web domain items ≡ page.0 = cc in
            rw⁻¹ e (spot_records-All web domain items)))

result-All :
    (idna : Idna) (domain : Bytes) (found records : List Record) (last : Option Failure)
    → ◌≡◌ {A = Outcome Failure (List Record)} (ok records) (result_of found last)
    → All (IsKept idna domain) found
    → All (IsKept idna domain) records
result-All idna domain found records none h each = let e : found ≡ records = cc in rw⁻¹ e each
result-All idna domain found records (some x) h each = cc

-- Every record that a search returns is of the domain that was asked for and has some name, and its
-- names are distinct and in the scope of the domain.
pub search-All :
    {Url : Type 0} (web : Web Url) (fuel : ℕ) (provider : Provider)
    (answers : ℕ → Request → ℕ → Round) (domain : Bytes) (include_subdomains : Bool)
    (records : List Record)
    → search web fuel provider answers domain include_subdomains ≡ some (ok records)
    → All (IsKept web.idna domain) records
unfolding search spot_search
search-All web fuel (crt_sh cfg) answers domain include_subdomains records h =
    crt_search-All web cfg (answers 0) domain include_subdomains records (cc)
search-All web fuel (cert_spotter cfg) answers domain include_subdomains records h =
    let turns : Turns = λ k endpoint. turn web cfg (answers k) domain endpoint in
    let start = spot_endpoint web cfg domain include_subdomains in
    let (pages, last, few, chain, e) = (pages_from_iff turns fuel 0 start [] (ok records)).0 h in
    result-All web.idna domain (concat pages) records last e (
      Visits-All (IsKept web.idna domain) turns 0 start pages last
        (λ k endpoint next page. turn-All web cfg (answers k) domain endpoint (page, next)) chain)

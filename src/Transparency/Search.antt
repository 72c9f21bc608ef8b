-- ===== src/Transparency/Search.antt =====
-- The two `Search` methods of internal/transparency/transparency.go and `parseTime`.
pub mod Pages
pub mod Kept
use ctscan.Base.{
  ℕ, zero, suc, ◌+◌, ◌-◌, ◌*◌, ◌^◌, Bool, true, false, not, List, [], ◌∷◌, ◌++◌, Option, none, some,
  Outcome, ok, err, ◌>>=◌, if◌then◌else◌, ◌==◌, nat_eq, text_eq, texts_eq, Bytes, codes, take,
}
use ctscan.Base.Decimal.{show_int}
use ctscan.Base.Int.{ℤ, negsuc}
use ctscan.Base.Text.{fields, trim_right_byte}
use ctscan.Input.Names.{Idna}
use ctscan.Transparency.{
  Record, ClientConfig, Provider, crt_sh, cert_spotter, Failure, bad_request, returned,
  bad_response,
}
use ctscan.Transparency.Links.{parse_next_link}
use ctscan.Transparency.Names.{normalized_names}
use ctscan.Transparency.Requests.{Response, Round, do_request}
use ctscan.Types.{Time, schema_version, second}

-- The entries of the two JSON answers.
pub record CrtItem : Type 0 where
  pub id : ℤ
  pub name_value : Bytes
  pub issuer_name : Bytes
  pub not_before : Bytes
  pub not_after : Bytes

pub record SpotItem : Type 0 where
  pub id : Bytes
  pub dns_names : List Bytes
  pub not_before : Bytes
  pub not_after : Bytes
  pub issuer_name : Bytes

pub record Request : Type 0 where
  pub url : Bytes
  pub authorization : Option Bytes
  pub user_agent : Bytes

-- What the package calls: the error of `http.NewRequestWithContext`, `url.QueryEscape`, `url.Parse`,
-- `IsAbs`, `ResolveReference` and `String` of net/url, `time.Parse` on a layout and a value, and the
-- decoding of JSON.
pub record Web (Url : Type 0) : Type 0 where
  pub idna : Idna
  pub request_error : Bytes → Option Bytes
  pub query_escape : Bytes → Bytes
  pub url_parse : Bytes → Option Url
  pub is_abs : Url → Bool
  pub resolve_reference : Url → Url → Bytes
  pub time_parse : Bytes → Bytes → Option Time
  pub decode_crt : Bytes → Outcome Bytes (List CrtItem)
  pub decode_spot : Bytes → Outcome Bytes (List SpotItem)

-- `time.Time{}`: the first of January of the year 1
abbrev pub zero_time : Time
zero_time = negsuc (62_135_596_800 * second - 1)

-- `time.RFC3339` and the two other layouts, in their order
abbrev pub layouts : List Bytes
layouts =
    codes "2006-01-02T15:04:05Z07:00"
    ∷ codes "2006-01-02T15:04:05"
    ∷ codes "2006-01-02 15:04:05"
    ∷ []

abbrev status_ok : ℕ
status_ok = 200

or_text : Bytes → Bytes → Bytes
or_text text default = if text == [] then default else text

show_bool : Bool → Bytes
show_bool true = codes "true"
show_bool false = codes "false"

kept : Record → List Record
kept r = if r.dns_names == [] then [] else r ∷ []

module _ {Url : Type 0} (web : Web Url) where
  or_later : Option Time → Time → Time
  or_later none later = later
  or_later (some t) later = t

  first_time : List Bytes → Bytes → Time
  unfolding or_later
  first_time [] value = zero_time
  first_time (layout ∷ more) value =
      let later = first_time more value in or_later (web.time_parse layout value) later

  unfoldable pub parse_time : Bytes → Time
  unfolding first_time
  parse_time value = first_time layouts value

  requested : Option Bytes → Request → Outcome Failure Request
  requested none request = ok request
  requested (some e) request = err (bad_request e)

  new_request : Request → Outcome Failure Request
  unfolding requested
  new_request request = requested (web.request_error request.url) request

  -- `response.StatusCode != http.StatusOK`
  status_checked : Bytes → Response → Outcome Failure Response
  status_checked provider r =
      if r.status_code == status_ok then ok r else err (returned provider r.status)

  -- The request of a page up to its status; `answers` are those to its attempts.
  unfoldable pub fetch :
      Bytes → ClientConfig → (Request → ℕ → Round) → Request → Outcome Failure Response
  unfolding new_request status_checked do_request
  fetch provider cfg answers request = do
    request' ← new_request request
    response ← (do_request cfg.retries (answers request')).outcome
    status_checked provider response

  unfoldable pub json_decoded {ℓ} : {A : Type ℓ} → Bytes → Outcome Bytes A → Outcome Failure A
  json_decoded provider (ok items) = ok items
  json_decoded provider (err e) = err (bad_response provider e)

  crt_record : Bytes → CrtItem → Record
  unfolding normalized_names fields parse_time show_int
  crt_record domain item = record {
    schema = schema_version;
    provider = codes "crtsh";
    domain = domain;
    certificate_id = show_int item.id;
    dns_names = normalized_names web.idna (fields item.name_value) domain;
    issuer = item.issuer_name;
    not_before = parse_time item.not_before;
    not_after = parse_time item.not_after;
  }

  crt_records : Bytes → List CrtItem → List Record
  unfolding kept crt_record
  crt_records domain [] = []
  crt_records domain (item ∷ items) = kept (crt_record domain item) ++ crt_records domain items

  crt_endpoint : ClientConfig → Bytes → Bool → Bytes
  unfolding or_text trim_right_byte
  crt_endpoint cfg domain include_subdomains =
      let query = if include_subdomains then codes "%." ++ domain else domain in
      trim_right_byte (or_text cfg.base_url (codes "https://crt.sh/")) b'/'
      ++ (codes "/?output=json&q=" ++ web.query_escape query)

  unfoldable pub crt_search :
      ClientConfig → (Request → ℕ → Round) → Bytes → Bool → Outcome Failure (List Record)
  unfolding crt_endpoint crt_records fetch json_decoded
  crt_search cfg answers domain include_subdomains = do
    response ← fetch (codes "crt.sh") cfg answers (record {
      url = crt_endpoint cfg domain include_subdomains;
      authorization = none;
      user_agent = cfg.user_agent;
    })
    items ← json_decoded (codes "crt.sh") (web.decode_crt (take (64 * 2 ^ 20) response.body))
    ok (crt_records domain items)

  spot_record : Bytes → SpotItem → Record
  unfolding normalized_names parse_time
  spot_record domain item = record {
    schema = schema_version;
    provider = codes "certspotter";
    domain = domain;
    certificate_id = item.id;
    dns_names = normalized_names web.idna item.dns_names domain;
    issuer = item.issuer_name;
    not_before = parse_time item.not_before;
    not_after = parse_time item.not_after;
  }

  spot_records : Bytes → List SpotItem → List Record
  unfolding kept spot_record
  spot_records domain [] = []
  spot_records domain (item ∷ items) = kept (spot_record domain item) ++ spot_records domain items

  -- `query.Encode()` writes the parameters in the order of their names.
  spot_endpoint : ClientConfig → Bytes → Bool → Bytes
  unfolding or_text show_bool
  spot_endpoint cfg domain include_subdomains =
      or_text cfg.base_url (codes "https://api.certspotter.com/v1/issuances")
      ++ (codes "?domain="
          ++ (web.query_escape domain
              ++ (codes "&expand=dns_names&expand=issuer&include_subdomains="
                  ++ show_bool include_subdomains)))

  from_base : Option Url → Url → Bytes → Bytes
  from_base none reference next = next
  from_base (some base) reference next = web.resolve_reference base reference

  resolved_link : Bytes → Option Url → Bytes → Bytes
  unfolding from_base
  resolved_link endpoint none next = next
  resolved_link endpoint (some reference) next =
      if web.is_abs reference then next else from_base (web.url_parse endpoint) reference next

  next_endpoint : Bytes → Bytes → Bytes
  unfolding resolved_link
  next_endpoint endpoint next =
      if next == [] then [] else resolved_link endpoint (web.url_parse next) next

  -- One page: its records and the endpoint of the next one.
  unfoldable pub turn :
      ClientConfig → (Request → ℕ → Round) → Bytes → Bytes → Outcome Failure (List Record × Bytes)
  unfolding spot_records fetch json_decoded next_endpoint parse_next_link
  turn cfg answers domain endpoint = do
    response ← fetch (codes "certspotter") cfg answers (record {
      url = endpoint;
      authorization = some (codes "Bearer " ++ cfg.token);
      user_agent = cfg.user_agent;
    })
    items ← json_decoded (codes "certspotter") (web.decode_spot (take (16 * 2 ^ 20) response.body))
    ok (spot_records domain items, next_endpoint endpoint (parse_next_link response.link))

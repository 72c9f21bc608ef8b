-- ===== src/Tests/TransparencyTests.antt =====
-- The theorems on internal/transparency/transparency.go at concrete inputs.
use ctscan.Base.{
  ℕ, zero, suc, ◌≤◌, true, false, [], ◌∷◌, none, some, ok, err, ◌≡◌, ◌↔◌, refl, nat_eq, text_eq,
  texts_eq, Bytes, codes, All, if◌then◌else◌, ◌==◌,
}
use ctscan.Base.Int.{pos}
use ctscan.Base.Decimal.{atoi}
use ctscan.Base.Text.{has_text}
use ctscan.Input.Names.{plain_idna, normalize_dns_name, in_scope}
use ctscan.Transparency.{Record, ClientConfig, cert_spotter, no_token, new}
use ctscan.Transparency.Links.{next_mark, next_item}
use ctscan.Transparency.Requests.{
  Response, replied, Round, asked, closed, slept, do_request, retries_of,
}
use ctscan.Transparency.Requests.Laws.{IsAnswered, do_request_iff, IsTidy, do_request-IsTidy}
use ctscan.Transparency.Search.{SpotItem, Request, Web, zero_time}
use ctscan.Transparency.Search.Kept.{IsKept, search-All}
use ctscan.Transparency.Search.Pages.{Turns, pages_from, Gives, pages_from_iff, search}

abbrev unmarked_link : Bytes
unmarked_link = codes "<a>; rel=\"first\""

first_link-unmarked : has_text unmarked_link next_mark ≡ false
unfolding has_text nat_eq
first_link-unmarked = refl

start-unmarked : has_text (b'<' ∷ codes "/?a=1") next_mark ≡ false
unfolding has_text nat_eq
start-unmarked = refl

abbrev pub answer_with : ℕ → Bytes → Bytes → Response
answer_with status_code link body = record {
  status_code = status_code;
  status = [];
  retry_after = codes "1";
  link = link;
  body = body;
}

-- The first attempt meets an error of the server, the others are answered.
abbrev pub second_answers : Response → ℕ → Round
second_answers r zero = record { reply = replied (answer_with 503 [] []); canceled = none }
second_answers r (suc n) = record { reply = replied r; canceled = none }

abbrev pub good_answer : Response
good_answer = answer_with 200 [] []

do_request_test : do_request (pos 1) (second_answers good_answer) ≡ record {
  outcome = ok good_answer;
  events =
      asked (replied (answer_with 503 [] []))
      ∷ closed (answer_with 503 [] [])
      ∷ slept (pos 1_000_000_000)
      ∷ asked (replied good_answer)
      ∷ [];
}
unfolding do_request atoi nat_eq
do_request_test = refl

do_request_iff_example :
    ((do_request (pos 1) (second_answers good_answer)).outcome ≡ ok good_answer)
    ↔ ((k : ℕ) × (k ≤ retries_of (pos 1)) × IsAnswered (second_answers good_answer) k 0 good_answer)
do_request_iff_example = do_request_iff (pos 1) (second_answers good_answer) good_answer

do_request-IsTidy_example :
    IsTidy (suc (retries_of (pos 1))) (do_request (pos 1) (second_answers good_answer))
do_request-IsTidy_example = do_request-IsTidy (pos 1) (second_answers good_answer)

abbrev pub item : SpotItem
item = record {
  id = codes "7";
  dns_names = codes "*.Example.com" ∷ codes "example.org" ∷ codes "a.example.com" ∷ [];
  not_before = codes "2024-01-01";
  not_after = [];
  issuer_name = codes "ca";
}

-- A log whose addresses are never relative, and whose pages hold one certificate.
abbrev pub test_web : Web Bytes
test_web = record {
  idna = plain_idna;
  request_error = λ url. none;
  query_escape = λ text. text;
  url_parse = λ url. some url;
  is_abs = λ url. true;
  resolve_reference = λ base reference. reference;
  time_parse = λ layout value. if value == [] then none else some (pos 5);
  decode_crt = λ body. ok [];
  decode_spot = λ body. ok (item ∷ []);
}

abbrev pub test_client : ClientConfig
test_client = record {
  token = codes "secret";
  user_agent = [];
  base_url = codes "/v1";
  retries = pos 1;
}

new_test :
    (new (codes "CertSpotter") test_client
      ≡ ok (cert_spotter (record test_client { user_agent = codes "ctscan" })))
    × (new (codes "certspotter") (record test_client { token = [] }) ≡ err no_token)
unfolding new text_eq
new_test = (refl, refl)

-- The first page names a second one.
abbrev pub two_pages : ℕ → Request → ℕ → Round
two_pages zero request = second_answers (answer_with 200 (next_item (codes "/v2")) [])
two_pages (suc k) request = second_answers good_answer

abbrev found : Record
found = record {
  schema = codes "1.0";
  provider = codes "certspotter";
  domain = codes "example.com";
  certificate_id = codes "7";
  dns_names = codes "example.com" ∷ codes "a.example.com" ∷ [];
  issuer = codes "ca";
  not_before = pos 5;
  not_after = zero_time;
}

search_test :
    search test_web 2 (cert_spotter test_client) two_pages (codes "example.com") true
    ≡ some (ok (found ∷ found ∷ []))
unfolding search do_request atoi nat_eq text_eq texts_eq normalize_dns_name in_scope
search_test = refl

search-All_example : All (IsKept plain_idna (codes "example.com")) (found ∷ found ∷ [])
search-All_example =
    search-All test_web 2 (cert_spotter test_client) two_pages (codes "example.com") true
      (found ∷ found ∷ []) search_test

abbrev turns : Turns
turns zero endpoint = ok (found ∷ [], codes "/v2")
turns (suc k) endpoint = ok (found ∷ [], [])

pages_from_iff_example :
    (pages_from turns 2 0 (codes "/v1") [] ≡ some (ok (found ∷ found ∷ [])))
    ↔ Gives turns 2 0 (codes "/v1") [] (ok (found ∷ found ∷ []))
pages_from_iff_example = pages_from_iff turns 2 0 (codes "/v1") [] (ok (found ∷ found ∷ []))

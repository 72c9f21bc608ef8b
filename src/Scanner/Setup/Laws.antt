-- ===== src/Scanner/Setup/Laws.antt =====
-- Which configurations make a scanner, and that a tunnel is closed when it is not returned.
use native.Mathlib.Nat.{div-lt_iff_lt-mul}
use ctscan.Base.{
  ltb, ◌*◌, ◌<◌, ℕ, zero, suc, ◌/◌, ◌≤◌, Bool, true, false, Option, none, some, Outcome, ok, err,
  ◌==◌, nat_eq, text_eq, Bytes, ◌≡◌, ◌≢◌, ◌↔◌, ◌⊎◌, inl, inr, refl, arith, Bool-cases, bind-eq-ok,
  ap, ◌∙◌,
}
use ctscan.Base.Int.{ℤ, pos, negsuc, ◌≤ℤ◌}
use ctscan.Scanner.Setup.{
  max_retries, max_concurrency, Proxy, Dialer, Scanner, with_defaults, crossed, check, tick,
  period_of, make_dialer, new_scanner, Tunnel, never_opened, left_open, closed, ProxyAnswers,
  responded, requested, secured, connected, dial_http_proxy, ProxyUrl, proxy_address,
  proxy_authorization,
}
use ctscan.Types.{Config, millisecond, microsecond, second}

-- What README.md and the errors say of a configuration.
abbrev pub IsConfig : Config → Type 0
IsConfig cfg =
    (pos 1 ≤ℤ cfg.concurrency)
    × (cfg.concurrency ≤ℤ pos max_concurrency)
    × (pos millisecond ≤ℤ cfg.timeout)
    × (pos 0 ≤ℤ cfg.retries)
    × (cfg.retries ≤ℤ pos max_retries)
    × (pos 0 ≤ℤ cfg.rate_limit)
    × (cfg.min_version ≢ 0 → cfg.max_version ≢ 0 → cfg.min_version ≤ cfg.max_version)

check_sound : (cfg cfg' : Config) → check cfg ≡ ok cfg' → (cfg ≡ cfg') × IsConfig cfg
unfolding check crossed
check_sound cfg cfg' h = ground arith

check_complete : (cfg : Config) → IsConfig cfg → check cfg ≡ ok cfg
unfolding check crossed
check_complete cfg h = ground arith

-- The time between two ticks: a second over the rate for a rate of at most a million, and a
-- microsecond for a higher one.
abbrev pub IsPeriod : ℤ → Option ℕ → Type 0
IsPeriod (pos (suc n)) (some period) =
    ((suc n ≤ 1_000_000) × (period ≡ second / suc n))
    ⊎ ((1_000_000 < suc n) × (period ≡ microsecond))
IsPeriod (pos (suc n)) none = ⊥
IsPeriod (pos zero) period = period ≡ none
IsPeriod (negsuc n) period = period ≡ none

-- A second over a rate is less than a microsecond exactly for rates above a million.
short_period : (n : ℕ) → (second / suc n < microsecond) ↔ (second < microsecond * suc n)
short_period n = div-lt_iff_lt-mul (omega arith)

period_of_lem : (rate : ℤ) → IsPeriod rate (period_of rate)
unfolding period_of tick
period_of_lem (pos zero) = refl
period_of_lem (pos (suc n)) = elim (Bool-cases (ltb (second / suc n) microsecond)) [
  | inl short ↦ rw short (inr (omega (arith, (short_period n).0 (ground (arith, short))), refl))
  | inr long ↦ rw long (inl (ground (arith, long, (short_period n).1), refl))
]
period_of_lem (negsuc n) = refl

module _ {Url : Type 0} (proxy : Proxy Url) where
  -- The scanner that is made of a configuration, if one is.
  abbrev pub IsMade : Config → Scanner Url → Type 0
  IsMade cfg s =
      (new_scanner proxy cfg ≡ ok s)
      × (s.config ≡ with_defaults cfg)
      × IsPeriod cfg.rate_limit s.period

  new_scanner_sound :
      (cfg : Config) (s : Scanner Url)
      → new_scanner proxy cfg ≡ ok s
      → IsConfig (with_defaults cfg)
        × ((d : Dialer Url) × (make_dialer proxy (with_defaults cfg) ≡ ok d))
  unfolding new_scanner
  new_scanner_sound cfg s h =
      let (checked, c, more) = bind-eq-ok (check (with_defaults cfg)) _ h in
      let (e, good) = check_sound (with_defaults cfg) checked c in
      let (d, made, last) = bind-eq-ok (make_dialer proxy checked) _ more in
      (good, (d, ap (make_dialer proxy) e ∙ made))

  new_scanner_complete :
      (cfg : Config) (d : Dialer Url)
      → IsConfig (with_defaults cfg)
      → make_dialer proxy (with_defaults cfg) ≡ ok d
      → new_scanner proxy cfg
        ≡ ok (record {
          config = with_defaults cfg;
          dial = d;
          period = period_of (with_defaults cfg).rate_limit;
        })
  unfolding new_scanner
  new_scanner_complete cfg d good made = rw (check_complete (with_defaults cfg) good, made) refl

  -- A scanner is made exactly of a configuration whose numbers, after the defaults, lie in their
  -- bounds and whose proxy is understood. It keeps the configuration with the defaults, and its rate
  -- limiter, if there is a rate, ticks once in a second over the rate, or in a microsecond when the rate
  -- is above a million.
  pub new_scanner_iff :
      (cfg : Config)
      → ((s : Scanner Url) × IsMade cfg s) ↔ (
          IsConfig (with_defaults cfg)
          × ((d : Dialer Url) × (make_dialer proxy (with_defaults cfg) ≡ ok d)))
  unfolding with_defaults
  new_scanner_iff cfg = (
    λ (s, (made, kept, period)). new_scanner_sound cfg s made,
    λ (good, (d, made)). (
      _,
      (new_scanner_complete cfg d good made, refl, period_of_lem (with_defaults cfg).rate_limit),
    ),
  )

-- The tunnel is open when, and only when, it is returned.
pub data IsSafe : Outcome Bytes ℕ × Tunnel → Type 0 where
  returned : {status : ℕ} → IsSafe (ok status, left_open)
  refused : {e : Bytes} → IsSafe (err e, never_opened)
  shut : {e : Bytes} → IsSafe (err e, closed)

responded-IsSafe : (r : Outcome Bytes (ℕ × Bytes)) → IsSafe (responded r)
unfolding responded
responded-IsSafe (err e) = shut
responded-IsSafe (ok (status, text)) = elim (Bool-cases (status == 200)) [
  | inl good ↦ rw good returned
  | inr bad ↦ rw bad shut
]

requested-IsSafe : (answers : ProxyAnswers) (e : Option Bytes) → IsSafe (requested answers e)
unfolding requested
requested-IsSafe answers (some e) = shut
requested-IsSafe answers none = responded-IsSafe answers.response

secured-IsSafe :
    (answers : ProxyAnswers) (is_https : Bool) (e : Option Bytes)
    → IsSafe (secured answers is_https e)
unfolding secured
secured-IsSafe answers true (some e) = shut
secured-IsSafe answers true none = requested-IsSafe answers answers.request_written
secured-IsSafe answers false (some e) = requested-IsSafe answers answers.request_written
secured-IsSafe answers false none = requested-IsSafe answers answers.request_written

connected-IsSafe :
    (answers : ProxyAnswers) (is_https : Bool) (e : Option Bytes)
    → IsSafe (connected answers is_https e)
unfolding connected
connected-IsSafe answers is_https (some e) = refused
connected-IsSafe answers is_https none = secured-IsSafe answers is_https answers.handshake

-- A tunnel through a proxy that is not returned was never opened or is closed again.
pub dial_http_proxy-IsSafe :
    (network : Bytes → Option Bytes → ProxyAnswers) (join_host_port : Bytes → Bytes → Bytes)
    (base64 : Bytes → Bytes) (url : ProxyUrl)
    → IsSafe (dial_http_proxy network join_host_port base64 url)
unfolding dial_http_proxy
dial_http_proxy-IsSafe network join_host_port base64 url =
    let answers =
      network (proxy_address join_host_port url) (proxy_authorization base64 url.user) in
    connected-IsSafe answers url.is_https answers.dialed

-- ===== src/Scanner/Setup.antt =====
-- `NewScanner`, `makeDialer` and `dialHTTPProxy` of pkg/ctscan/scanner.go. What they call of net/url,
-- of the SOCKS package and of the network is a parameter; a ticker is its period in nanoseconds.
pub mod Laws
use ctscan.Base.{
  ℕ, suc, ◌+◌, ◌*◌, ◌/◌, Bool, true, false, ◌&&◌, ◌||◌, not, List, [], ◌∷◌, ◌++◌, Option, none,
  some, Outcome, ok, err, ◌>>=◌, if◌then◌else◌, ◌==◌, nat_eq, text_eq, ltb, Bytes, codes,
}
use ctscan.Base.Int.{ℤ, pos, negsuc, ltb_ℤ}
use ctscan.Base.Text.{to_lower}
use ctscan.Types.{Config, default_config, millisecond, microsecond, second}

abbrev pub max_retries : ℕ
max_retries = 10

abbrev pub max_concurrency : ℕ
max_concurrency = 100_000

pub data SetupError : Type 0 where
  bad_concurrency bad_timeout bad_retries bad_rate bad_versions : SetupError
  proxy_parse socks_setup proxy_scheme : Bytes → SetupError

-- A proxy's URL, and what the source reads of it.
pub record Proxy (Url : Type 0) : Type 0 where
  pub url_parse : Bytes → Outcome Bytes Url
  pub scheme : Url → Bytes
  pub socks_error : Url → Option Bytes

pub data Dialer (Url : Type 0) : Type 0 where
  direct : Dialer Url
  socks http_connect : Url → Dialer Url

pub record Scanner (Url : Type 0) : Type 0 where
  pub config : Config
  pub dial : Dialer Url
  pub period : Option ℕ

-- The defaults for a concurrency and a timeout of zero.
unfoldable pub with_defaults : Config → Config
with_defaults cfg = record cfg {
  concurrency = elim cfg.concurrency [
    | pos n ↦ if n == 0 then default_config.concurrency else pos n
    | negsuc n ↦ negsuc n
  ];
  timeout = elim cfg.timeout [
    | pos n ↦ if n == 0 then default_config.timeout else pos n
    | negsuc n ↦ negsuc n
  ];
}

-- `min != 0 && max != 0 && min > max`
crossed : ℕ → ℕ → Bool
crossed low high = not (low == 0) && not (high == 0) && ltb high low

check : Config → Outcome SetupError Config
unfolding crossed
check cfg =
    if ltb_ℤ cfg.concurrency (pos 1) || ltb_ℤ (pos max_concurrency) cfg.concurrency
    then err bad_concurrency
    else if ltb_ℤ cfg.timeout (pos millisecond)
    then err bad_timeout
    else if ltb_ℤ cfg.retries (pos 0) || ltb_ℤ (pos max_retries) cfg.retries
    then err bad_retries
    else if ltb_ℤ cfg.rate_limit (pos 0)
    then err bad_rate
    else if crossed cfg.min_version cfg.max_version
    then err bad_versions
    else ok cfg

-- `time.Second / time.Duration(cfg.RateLimit)`, and at least a microsecond
tick : ℕ → ℕ
tick rate = let period = second / rate in if ltb period microsecond then microsecond else period

-- `if cfg.RateLimit > 0`
unfoldable pub period_of : ℤ → Option ℕ
unfolding tick
period_of (pos (suc n)) = some (tick (suc n))
period_of _ = none

module _ {Url : Type 0} (proxy : Proxy Url) where
  socks_dialer : Url → Option Bytes → Outcome SetupError (Dialer Url)
  socks_dialer url none = ok (socks url)
  socks_dialer url (some e) = err (socks_setup e)

  by_scheme : Url → Bytes → Outcome SetupError (Dialer Url)
  unfolding socks_dialer
  by_scheme url lowered =
      if lowered == codes "socks5" || lowered == codes "socks5h"
      then socks_dialer url (proxy.socks_error url)
      else if lowered == codes "http" || lowered == codes "https"
      then ok (http_connect url)
      else err (proxy_scheme (proxy.scheme url))

  dialer_for : Outcome Bytes Url → Outcome SetupError (Dialer Url)
  unfolding by_scheme to_lower
  dialer_for (err e) = err (proxy_parse e)
  dialer_for (ok url) = by_scheme url (to_lower (proxy.scheme url))

  unfoldable pub make_dialer : Config → Outcome SetupError (Dialer Url)
  unfolding dialer_for
  make_dialer cfg =
      if cfg.proxy_url == [] then ok direct else dialer_for (proxy.url_parse cfg.proxy_url)

  unfoldable pub new_scanner : Config → Outcome SetupError (Scanner Url)
  unfolding with_defaults check make_dialer period_of
  new_scanner given = do
    cfg ← check (with_defaults given)
    dial ← make_dialer cfg
    ok (record { config = cfg; dial = dial; period = period_of cfg.rate_limit })

-- How the connection of `dialHTTPProxy` stands when it returns.
pub data Tunnel : Type 0 where
  never_opened left_open closed : Tunnel

-- The answers of the network to one `dialHTTPProxy`: the errors of dialing, of the handshake with
-- the proxy and of writing the request, and the response, by its status code and its status, or an error.
pub record ProxyAnswers : Type 0 where
  pub dialed : Option Bytes
  pub handshake : Option Bytes
  pub request_written : Option Bytes
  pub response : Outcome Bytes (ℕ × Bytes)

responded : Outcome Bytes (ℕ × Bytes) → Outcome Bytes ℕ × Tunnel
responded (err e) = (err e, closed)
responded (ok (status, text)) =
    if status == 200
    then (ok status, left_open)
    else (err (codes "proxy CONNECT returned " ++ text), closed)

requested : ProxyAnswers → Option Bytes → Outcome Bytes ℕ × Tunnel
unfolding responded
requested answers (some e) = (err e, closed)
requested answers none = responded answers.response

secured : ProxyAnswers → Bool → Option Bytes → Outcome Bytes ℕ × Tunnel
unfolding requested
secured answers true (some e) = (err (codes "TLS handshake with proxy: " ++ e), closed)
secured answers _ _ = requested answers answers.request_written

connected : ProxyAnswers → Bool → Option Bytes → Outcome Bytes ℕ × Tunnel
unfolding secured
connected answers is_https (some e) = (err e, never_opened)
connected answers is_https none = secured answers is_https answers.handshake

-- The proxy's URL, as `dialHTTPProxy` reads it: whether its scheme is https, its host, whether that
-- has a port, and the user's name and password.
pub record ProxyUrl : Type 0 where
  pub is_https : Bool
  pub host : Bytes
  pub has_port : Bool
  pub user : Option (Bytes × Bytes)

-- `join_host_port` is that of net.
unfoldable pub proxy_address : (Bytes → Bytes → Bytes) → ProxyUrl → Bytes
proxy_address join_host_port url =
    if url.has_port
    then url.host
    else join_host_port url.host (if url.is_https then codes "443" else codes "80")

-- The header `Proxy-Authorization`; `base64` is the standard encoding.
unfoldable pub proxy_authorization : (Bytes → Bytes) → Option (Bytes × Bytes) → Option Bytes
proxy_authorization base64 none = none
proxy_authorization base64 (some (name, password)) =
    some (codes "Basic " ++ base64 (name ++ b':' ∷ password))

-- `network` answers to the address of the proxy and to the header that it is sent.
unfoldable pub dial_http_proxy :
    (Bytes → Option Bytes → ProxyAnswers)
    → (Bytes → Bytes → Bytes)
    → (Bytes → Bytes)
    → ProxyUrl
    → Outcome Bytes ℕ × Tunnel
unfolding connected proxy_address proxy_authorization
dial_http_proxy network join_host_port base64 url =
    let answers =
      network (proxy_address join_host_port url) (proxy_authorization base64 url.user) in
    connected answers url.is_https answers.dialed

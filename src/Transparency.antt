-- ===== src/Transparency.antt =====
-- internal/transparency/transparency.go: what the clients of certificate logs share, and `New`. An
-- HTTP client and its default timeout are parameters.
pub mod Names
pub mod Links
pub mod Requests
pub mod Search
use ctscan.Base.{
  ℕ, ◌||◌, List, Option, Outcome, ok, err, if◌then◌else◌, ◌==◌, text_eq, Bytes, codes, [],
}
use ctscan.Base.Int.{ℤ}
use ctscan.Base.Text.{to_lower}
use ctscan.Types.{Time}

pub record Record : Type 0 where
  pub schema : Bytes
  pub provider : Bytes
  pub domain : Bytes
  pub certificate_id : Bytes
  pub dns_names : List Bytes
  pub issuer : Bytes
  pub not_before : Time
  pub not_after : Time

pub record ClientConfig : Type 0 where
  pub token : Bytes
  pub user_agent : Bytes
  pub base_url : Bytes
  pub retries : ℤ

pub data Provider : Type 0 where
  crt_sh cert_spotter : ClientConfig → Provider

-- The errors of the package. The client's errors and those of the context hold their text.
pub data Failure : Type 0 where
  no_token : Failure
  unsupported_provider bad_request client_error provider_returned context_done : Bytes → Failure
  returned : Bytes → Bytes → Failure
  bad_response : Bytes → Bytes → Failure

with_agent : ClientConfig → ClientConfig
with_agent cfg = if cfg.user_agent == [] then record cfg { user_agent = codes "ctscan" } else cfg

choose : Bytes → Bytes → ClientConfig → Outcome Failure Provider
choose name lowered cfg =
    if lowered == [] || lowered == codes "crtsh"
    then ok (crt_sh cfg)
    else if lowered == codes "certspotter"
    then (if cfg.token == [] then err no_token else ok (cert_spotter cfg))
    else err (unsupported_provider name)

unfoldable pub new : Bytes → ClientConfig → Outcome Failure Provider
unfolding with_agent choose to_lower
new name cfg = choose name (to_lower name) (with_agent cfg)

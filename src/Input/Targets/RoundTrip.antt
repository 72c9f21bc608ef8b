-- ===== src/Input/Targets/RoundTrip.antt =====
-- That a host and a port that are written with a colon between them are split again.
use ctscan.Base.{ℕ, false, none, some, ok, ◌≡◌, arith, Bytes, codes}
use ctscan.Base.Decimal.{decimal, atoi-decimal}
use ctscan.Base.Int.{pos}
use ctscan.Base.Text.{has_text}
use ctscan.Input.Ranges.Endpoints.{IsPort}
use ctscan.Input.Targets.{Net, checked_port, port_or, from_pair, split_target, trim_brackets}

pub checked_port-IsPort : (port : ℕ) → IsPort port → checked_port (some (pos port)) ≡ some port
unfolding checked_port
checked_port-IsPort port h = ground arith

-- A text that is no URL and no address, and that `SplitHostPort` splits into a host and the decimal
-- of a port, is split into that host and that port.
pub split_target-decimal :
    (net : Net) (raw host : Bytes) (port : ℕ)
    → has_text raw (codes "://") ≡ false
    → net.parse_ip (trim_brackets raw) ≡ none
    → net.split_host_port raw ≡ some (host, decimal port)
    → IsPort port
    → split_target net raw ≡ ok (host, port)
unfolding split_target from_pair port_or
split_target-decimal net raw host port no_url no_ip split h =
    rw (no_url, no_ip, split, atoi-decimal port (omega arith), checked_port-IsPort port h)

-- ===== src/Input/Targets.antt =====
-- `ParseTarget`, `splitTarget`, `normalizeHost` and `Resolve` of internal/input/input.go.
pub mod Laws
pub mod RoundTrip
use ctscan.Base.{
  ℕ, zero, suc, ◌+◌, Bool, true, false, not, ◌&&◌, ◌||◌, List, [], ◌∷◌, ◌++◌, Option, none, some,
  Outcome, ok, err, ◌>>=◌, leb, if◌then◌else◌, ◌==◌, nat_eq, text_eq, Bytes, codes, is_some, take,
}
use ctscan.Base.Decimal.{atoi}
use ctscan.Base.Int.{ℤ, pos, negsuc, pos_part, ltb_ℤ}
use ctscan.Base.Text.{trim_space, has_prefix, has_text, cut, trim_suffix, contains_any}
use ctscan.Input.Names.{Idna, NameError, normalize_dns_name}
use ctscan.Input.Ranges.{Options, Network, RangeError, expand_cidr}
use ctscan.Types.{Target}

-- What the source calls of the packages net and net/url: `ParseIP` with the text of the address,
-- `ParseCIDR`, `SplitHostPort`, and `url.Parse` with the host name and the port of the URL.
pub record Net : Type 0 where
  pub parse_ip : Bytes → Option Bytes
  pub parse_cidr : Bytes → Option Network
  pub split_host_port : Bytes → Option (Bytes × Bytes)
  pub parse_url : Bytes → Option (Bytes × Bytes)

pub data TargetError : Type 0 where
  invalid_url invalid_url_port bad_host : TargetError
  invalid_port cidr_with_port : Bytes → TargetError
  bad_name bad_server_name : NameError → TargetError
  bad_range : RangeError → TargetError

is_bracket : ℕ → Bool
is_bracket c = c == b'[' || c == b']'

left_brackets : Bytes → Bytes
left_brackets [] = []
left_brackets (c ∷ s) = let rest = left_brackets s in if is_bracket c then rest else c ∷ s

right_brackets : Bytes → Bytes
right_brackets [] = []
right_brackets (c ∷ s) =
    let rest = right_brackets s in if is_bracket c && rest == [] then [] else c ∷ rest

-- strings.Trim(s, "[]")
unfoldable pub trim_brackets : Bytes → Bytes
unfolding left_brackets right_brackets is_bracket
trim_brackets s = right_brackets (left_brackets s)

-- strings.Count(s, ":")
colons : Bytes → ℕ
colons [] = 0
colons (c ∷ s) = let rest = colons s in if c == b':' then suc rest else rest

-- A number that is a port; the one of `Atoi`, if there is one.
unfoldable pub checked_port : Option ℤ → Option ℕ
checked_port none = none
checked_port (some n) = if ltb_ℤ n (pos 1) || ltb_ℤ (pos 65535) n then none else some (pos_part n)

port_or : {A : Type 0} → TargetError → A → Option ℕ → Outcome TargetError (A × ℕ)
port_or e a none = err e
port_or e a (some port) = ok (a, port)

module _ (net : Net) where
  from_url : Option (Bytes × Bytes) → Outcome TargetError (Bytes × ℕ)
  unfolding checked_port port_or
  from_url none = err invalid_url
  from_url (some (host, port)) =
      if host == []
      then err invalid_url
      else if port == []
      then ok (host, 0)
      else port_or invalid_url_port host (checked_port (atoi port))

  -- The two texts around the only colon; the whole, if the second is no number.
  from_cut : Bytes → Option (Bytes × Bytes) → Outcome TargetError (Bytes × ℕ)
  unfolding checked_port port_or
  from_cut raw none = ok (raw, 0)
  from_cut raw (some (host, port)) =
      if is_some (atoi port)
      then port_or (invalid_port port) host (checked_port (atoi port))
      else ok (raw, 0)

  from_pair : Bytes → Option (Bytes × Bytes) → Outcome TargetError (Bytes × ℕ)
  unfolding checked_port port_or from_cut colons
  from_pair raw (some (host, port)) = port_or (invalid_port port) host (checked_port (atoi port))
  from_pair raw none = if colons raw == 1 then from_cut raw (cut raw (codes ":")) else ok (raw, 0)

  -- The host and the port, 0 if there is none.
  unfoldable pub split_target : Bytes → Outcome TargetError (Bytes × ℕ)
  unfolding from_url from_pair trim_brackets
  split_target raw =
      if has_text raw (codes "://")
      then from_url (net.parse_url raw)
      else if is_some (net.parse_ip (trim_brackets raw))
      then ok (trim_brackets raw, 0)
      else from_pair raw (net.split_host_port raw)

  module _ (idna : Idna) where
    named : Outcome NameError Bytes → Outcome TargetError Bytes
    named (ok name) = ok name
    named (err e) = err (bad_name e)

    address_or : Option Bytes → Outcome NameError Bytes → Outcome TargetError Bytes
    unfolding named
    address_or (some ip) name = ok ip
    address_or none name = named name

    unfoldable pub normalize_host : Bytes → Outcome TargetError Bytes
    unfolding address_or trim_brackets
    normalize_host host =
        let h = trim_space (trim_suffix host (codes ".")) in
        if h == [] || contains_any h (codes " \t\r\n/\\")
        then err bad_host
        else address_or (net.parse_ip (trim_brackets h)) (normalize_dns_name idna h)

    server_named : Outcome NameError Bytes → Outcome TargetError Bytes
    server_named (ok name) = ok name
    server_named (err e) = err (bad_server_name e)

    -- `normalizedSNI`
    server_of : Bytes → Outcome TargetError Bytes
    unfolding server_named
    server_of name = if name == [] then ok [] else server_named (normalize_dns_name idna name)

    target_on : Bytes → Bytes → Bytes → ℕ → Bytes → Target
    target_on raw start_tls host port server_name = record {
      input = raw;
      host = host;
      address = [];
      port = port;
      server_name = server_name;
      start_tls = start_tls;
    }

    module _ (raw start_tls host : Bytes) where
      each_name : ℕ → List Bytes → List Target → Outcome TargetError (List Target)
      unfolding server_of target_on
      each_name port [] targets = ok targets
      each_name port (name ∷ names) targets = do
        server_name ← server_of name
        each_name port names (targets ++ target_on raw start_tls host port server_name ∷ [])

      each_port : List ℕ → List Bytes → List Target → Outcome TargetError (List Target)
      unfolding each_name
      each_port [] names targets = ok targets
      each_port (port ∷ ports) names targets = do
        targets' ← each_name port names targets
        each_port ports names targets'

    -- The server names of a host: those given, or the host if it is no address.
    names_for : Bytes → List Bytes → List Bytes
    names_for host [] = if is_some (net.parse_ip host) then [] ∷ [] else host ∷ []
    names_for host (name ∷ names) = name ∷ names

    ports_for : List ℕ → List ℕ
    ports_for [] = 443 ∷ []
    ports_for (port ∷ ports) = port ∷ ports

    chosen_ports : ℕ → List ℕ → List ℕ
    chosen_ports zero ports = ports
    chosen_ports (suc n) ports = suc n ∷ []

    ranged : Outcome RangeError (List Target) → Outcome TargetError (List Target)
    ranged (ok targets) = ok targets
    ranged (err e) = err (bad_range e)

    with_range :
        Option (Outcome RangeError (List Target)) → Option (Outcome TargetError (List Target))
    unfolding ranged
    with_range none = none
    with_range (some r) = some (ranged r)

    expand_host : Bytes → Bytes → Options → Bytes → ℕ → Outcome TargetError (List Target)
    unfolding normalize_host each_port names_for chosen_ports
    expand_host raw original opts host explicit_port = do
      normalized ← normalize_host host
      each_port raw opts.start_tls normalized (chosen_ports explicit_port opts.ports)
          (names_for normalized opts.server_names) []

    -- The branches behind splitTarget; fuel for the loop over a range.
    expand_split :
        ℕ
        → Bytes
        → Bytes
        → Options
        → Bytes
        → ℕ
        → Option Network
        → Option (Outcome TargetError (List Target))
    unfolding with_range expand_host
    expand_split fuel raw original opts host explicit_port (some network) =
        if explicit_port == 0
        then with_range (expand_cidr idna original opts fuel network)
        else some (err (cidr_with_port original))
    expand_split fuel raw original opts host explicit_port none =
        some (expand_host raw original opts host explicit_port)

    from_split :
        ℕ
        → Bytes
        → Bytes
        → Options
        → Outcome TargetError (Bytes × ℕ)
        → Option (Outcome TargetError (List Target))
    unfolding expand_split
    from_split fuel raw original opts (err e) = some (err e)
    from_split fuel raw original opts (ok (host, port)) =
        expand_split fuel raw original opts host port (net.parse_cidr host)

    -- The text in front of a comment.
    uncommented : Bytes → Option (Bytes × Bytes) → Bytes
    uncommented original none = original
    uncommented original (some (before, rest)) = trim_space before

    unfoldable pub parse_target : ℕ → Bytes → Options → Option (Outcome TargetError (List Target))
    unfolding from_split split_target uncommented ports_for
    parse_target fuel raw opts =
        let trimmed = trim_space raw in
        let original = uncommented trimmed (cut trimmed (codes " #")) in
        if trimmed == [] || has_prefix trimmed (codes "#") || original == []
        then some (ok [])
        else from_split fuel raw original (record opts { ports = ports_for opts.ports })
            (split_target original)

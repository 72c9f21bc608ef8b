-- ===== src/Input/Targets/Laws.antt =====
-- What the targets of a raw text are.
use ctscan.Base.{
  ℕ, zero, suc, ◌≤◌, ◌||◌, List, [], ◌∷◌, ◌++◌, Option, none, some, Outcome, ok, err, ◌≡◌, refl,
  All, All-append, bind-eq-ok, ◌==◌, nat_eq, text_eq, Bytes, codes, arith, Bool-cases, inl, inr,
  is_some,
}
use ctscan.Base.Decimal.{atoi}
use ctscan.Base.Int.{ℤ}
use ctscan.Base.Text.{trim_space, has_prefix, has_text, cut}
use ctscan.Input.Names.{Idna}
use ctscan.Input.Ranges.{Options, Network, RangeError, expand_cidr}
use ctscan.Input.Ranges.Endpoints.{IsPort, IsEndpoint, same-ok, same-some, expand_cidr-Good}
use ctscan.Input.Targets.{
  Net, TargetError, colons, trim_brackets, checked_port, port_or, from_url, from_cut, from_pair,
  split_target, normalize_host, server_of, target_on, each_name, each_port, names_for, ports_for,
  chosen_ports, ranged, with_range, expand_host, expand_split, from_split, uncommented,
  parse_target,
}
use ctscan.Types.{Target}

module _ (net : Net) (idna : Idna) (raw start_tls host : Bytes) where
  each_name-Good :
      (port : ℕ) (names : List Bytes) (ts : List Target) {us : List Target}
      → IsPort port
      → All (IsEndpoint start_tls) ts
      → each_name net idna raw start_tls host port names ts ≡ ok us
      → All (IsEndpoint start_tls) us
  unfolding each_name target_on
  each_name-Good port [] ts p g h = rw⁻¹ (same-ok h) g
  each_name-Good port (name ∷ names) ts p g h =
      let (sni, first, rest) =
        bind-eq-ok (server_of net idna name)
          (λ sni.
            each_name net idna raw start_tls host port names
              (ts ++ target_on net idna raw start_tls host port sni ∷ []))
          h in
      each_name-Good port names (ts ++ target_on net idna raw start_tls host port sni ∷ []) p
        (All-append (IsEndpoint start_tls) ts (target_on net idna raw start_tls host port sni ∷ [])
          g ((p, refl), tt))
        rest

  each_port-Good :
      (ports : List ℕ) (names : List Bytes) (ts : List Target) {us : List Target}
      → All IsPort ports
      → All (IsEndpoint start_tls) ts
      → each_port net idna raw start_tls host ports names ts ≡ ok us
      → All (IsEndpoint start_tls) us
  unfolding each_port
  each_port-Good [] names ts p g h = rw⁻¹ (same-ok h) g
  each_port-Good (port ∷ ports) names ts (p, ps) g h =
      let (ts', first, rest) =
        bind-eq-ok (each_name net idna raw start_tls host port names ts)
          (each_port net idna raw start_tls host ports names) h in
      each_port-Good ports names ts' ps (each_name-Good port names ts p g first) rest

-- No port, or one.
abbrev IsExplicit : ℕ → Type 0
IsExplicit port = port ≤ 65535

port_or-IsExplicit :
    (e : TargetError) (a : Bytes) (o : Option ℤ) {host : Bytes} {port : ℕ}
    → port_or e a (checked_port o) ≡ ok (host, port)
    → IsExplicit port
unfolding port_or checked_port
port_or-IsExplicit e a none h = cc
port_or-IsExplicit e a (some n) h = ground arith

module _ (net : Net) where
  zero-IsExplicit :
      (a : Bytes) {host : Bytes} {port : ℕ}
      → ◌≡◌ {A = Outcome TargetError (Bytes × ℕ)} (ok (a, 0)) (ok (host, port))
      → IsExplicit port
  zero-IsExplicit a h = ground arith

  from_url-IsExplicit :
      (o : Option (Bytes × Bytes)) {host : Bytes} {port : ℕ}
      → from_url net o ≡ ok (host, port)
      → IsExplicit port
  unfolding from_url
  from_url-IsExplicit none h = cc
  from_url-IsExplicit (some (a, p)) h = elim (Bool-cases (a == [])) [
    | inl e ↦ cc (rw e at h)
    | inr e ↦ elim (Bool-cases (p == [])) [
      | inl e' ↦ zero-IsExplicit a (rw (e, e') at h)
      | inr e' ↦ port_or-IsExplicit TargetError.invalid_url_port a (atoi p) (rw (e, e') at h)
    ]
  ]

  from_cut-IsExplicit :
      (raw : Bytes) (o : Option (Bytes × Bytes)) {host : Bytes} {port : ℕ}
      → from_cut net raw o ≡ ok (host, port)
      → IsExplicit port
  unfolding from_cut
  from_cut-IsExplicit raw none h = zero-IsExplicit raw h
  from_cut-IsExplicit raw (some (a, p)) h = elim (Bool-cases (is_some (atoi p))) [
    | inl e ↦ port_or-IsExplicit (TargetError.invalid_port p) a (atoi p) (rw e at h)
    | inr e ↦ zero-IsExplicit raw (rw e at h)
  ]

  from_pair-IsExplicit :
      (raw : Bytes) (o : Option (Bytes × Bytes)) {host : Bytes} {port : ℕ}
      → from_pair net raw o ≡ ok (host, port)
      → IsExplicit port
  unfolding from_pair
  from_pair-IsExplicit raw (some (a, p)) h =
      port_or-IsExplicit (TargetError.invalid_port p) a (atoi p) h
  from_pair-IsExplicit raw none h = elim (Bool-cases (colons raw == 1)) [
    | inl e ↦ from_cut-IsExplicit raw (cut raw (codes ":")) (rw e at h)
    | inr e ↦ zero-IsExplicit raw (rw e at h)
  ]

  split_target-IsExplicit :
      (raw : Bytes) {host : Bytes} {port : ℕ}
      → split_target net raw ≡ ok (host, port)
      → IsExplicit port
  unfolding split_target
  split_target-IsExplicit raw h = elim (Bool-cases (has_text raw (codes "://"))) [
    | inl e ↦ from_url-IsExplicit (net.parse_url raw) (rw e at h)
    | inr e ↦ elim (Bool-cases (is_some (net.parse_ip (trim_brackets raw)))) [
      | inl e' ↦ zero-IsExplicit (trim_brackets raw) (rw (e, e') at h)
      | inr e' ↦ from_pair-IsExplicit raw (net.split_host_port raw) (rw (e, e') at h)
    ]
  ]

module _ (net : Net) (idna : Idna) (raw original : Bytes) (opts : Options)
    (ports : All IsPort opts.ports) where
  chosen_ports-All :
      (port : ℕ) → IsExplicit port → All IsPort (chosen_ports net idna port opts.ports)
  unfolding chosen_ports
  chosen_ports-All zero h = ports
  chosen_ports-All (suc n) h = ((omega arith, h), tt)

  expand_host-Good :
      (host : Bytes) (port : ℕ) {us : List Target}
      → IsExplicit port
      → expand_host net idna raw original opts host port ≡ ok us
      → All (IsEndpoint opts.start_tls) us
  unfolding expand_host
  expand_host-Good host port p h =
      let (name, first, rest) =
        bind-eq-ok (normalize_host net idna host)
          (λ n.
            each_port net idna raw opts.start_tls n (chosen_ports net idna port opts.ports)
              (names_for net idna n opts.server_names) [])
          h in
      each_port-Good net idna raw opts.start_tls name (chosen_ports net idna port opts.ports)
        (names_for net idna name opts.server_names) [] (chosen_ports-All port p) tt rest

  with_range-Good :
      (o : Option (Outcome RangeError (List Target))) {us : List Target}
      → ((ts : List Target) → o ≡ some (ok ts) → All (IsEndpoint opts.start_tls) ts)
      → with_range net idna o ≡ some (ok us)
      → All (IsEndpoint opts.start_tls) us
  unfolding with_range ranged
  with_range-Good none good h = cc
  with_range-Good (some (err e)) good h = cc
  with_range-Good (some (ok ts)) good h = rw⁻¹ (same-ok (same-some h)) (good ts refl)

  expand_split-Good :
      (fuel : ℕ) (host : Bytes) (port : ℕ) (o : Option Network) {us : List Target}
      → IsExplicit port
      → expand_split net idna fuel raw original opts host port o ≡ some (ok us)
      → All (IsEndpoint opts.start_tls) us
  unfolding expand_split
  expand_split-Good fuel host port none p h = expand_host-Good host port p (same-some h)
  expand_split-Good fuel host port (some network) p h = elim (Bool-cases (port == 0)) [
    | inl e ↦
        with_range-Good (expand_cidr idna original opts fuel network)
          (λ ts q. expand_cidr-Good idna original opts fuel network ports q) (rw e at h)
    | inr e ↦ cc (rw e at h)
  ]

  from_split-Good :
      (fuel : ℕ) (o : Outcome TargetError (Bytes × ℕ)) {us : List Target}
      → ((host : Bytes) (port : ℕ) → o ≡ ok (host, port) → IsExplicit port)
      → from_split net idna fuel raw original opts o ≡ some (ok us)
      → All (IsEndpoint opts.start_tls) us
  unfolding from_split
  from_split-Good fuel (err e) explicit h = cc
  from_split-Good fuel (ok (host, port)) explicit h =
      expand_split-Good fuel host port (net.parse_cidr host) (explicit host port refl) h

ports_for-All :
    (net : Net) (idna : Idna) (ports : List ℕ)
    → All IsPort ports
    → All IsPort (ports_for net idna ports)
unfolding ports_for
ports_for-All net idna [] h = ((omega arith, omega arith), tt)
ports_for-All net idna (p ∷ ps) h = h

-- Every target of a raw text that is parsed has a port of 1 to 65535 and the protocol of the
-- options, if the ports of the options are such ports.
pub parse_target-AreEndpoints :
    (net : Net) (idna : Idna) (fuel : ℕ) (raw : Bytes) (opts : Options) (us : List Target)
    → All IsPort opts.ports
    → parse_target net idna fuel raw opts ≡ some (ok us)
    → All (IsEndpoint opts.start_tls) us
unfolding parse_target
parse_target-AreEndpoints net idna fuel raw opts us ports h =
    let trimmed = trim_space raw in
    let original = uncommented net idna trimmed (cut trimmed (codes " #")) in
    elim (Bool-cases (trimmed == [] || has_prefix trimmed (codes "#") || original == [])) [
      | inl e ↦ rw⁻¹ (same-ok (same-some (rw e at h))) tt
      | inr e ↦
          from_split-Good net idna raw original
            (record opts { ports = ports_for net idna opts.ports })
            (ports_for-All net idna opts.ports ports) fuel (split_target net original)
            (λ host port q. split_target-IsExplicit net original q) (rw e at h)
    ]

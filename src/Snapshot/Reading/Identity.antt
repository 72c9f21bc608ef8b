-- ===== src/Snapshot/Reading/Identity.antt =====
-- That `Identity` tells endpoints apart.
use ctscan.Base.{ℕ, ◌<◌, [], ◌∷◌, ◌++◌, Bytes, All, ◌≡◌, refl, sym, ap, ◌∙◌, arith}
use ctscan.Base.Decimal.{decimal, decimal-All, IsDigit, atoi, atoi-decimal}
use ctscan.Base.TextLemmas.{Lacks}
use ctscan.Snapshot.Reading.{identity}
use ctscan.Types.{Result}

-- Two texts that lack the separator are equal if they stand before its first place in one text.
cut_before :
    (b : ℕ) (s t u v : Bytes)
    → Lacks b s
    → Lacks b t
    → s ++ (b ∷ u) ≡ t ++ (b ∷ v)
    → (s ≡ t) × (u ≡ v)
cut_before b [] [] u v hs ht h = (refl, cc)
cut_before b [] (d ∷ t) u v hs ht h = absurd (ht.0 (cc))
cut_before b (c ∷ s) [] u v hs ht h = absurd (hs.0 (cc))
cut_before b (c ∷ s) (d ∷ t) u v hs ht h =
    let (p, q) = cut_before b s t u v hs.1 ht.1 (cc) in (cc, q)

digits-Lacks : (s : Bytes) → All IsDigit s → Lacks b'|' s
digits-Lacks [] h = tt
digits-Lacks (c ∷ s) h = (λ e. ground arith, digits-Lacks s h.1)

decimal-injective : (m n : ℕ) → m < 65536 → n < 65536 → decimal m ≡ decimal n → m ≡ n
decimal-injective m n hm hn h =
    let same = sym (atoi-decimal m (omega arith)) ∙ ap atoi h ∙ atoi-decimal n (omega arith) in cc

abbrev behind_ip : Result → Bytes
behind_ip r = decimal r.port ++ (b'|' ∷ r.sni)

abbrev behind_host : Result → Bytes
behind_host r = r.ip ++ (b'|' ∷ behind_ip r)

-- Results of the same identity are of the same host, address, port and server name, if no host and
-- no address holds a vertical bar.
pub identity-injective :
    (r s : Result)
    → Lacks b'|' r.host
    → Lacks b'|' s.host
    → Lacks b'|' r.ip
    → Lacks b'|' s.ip
    → r.port < 65536
    → s.port < 65536
    → identity r ≡ identity s
    → (r.host ≡ s.host) × (r.ip ≡ s.ip) × (r.port ≡ s.port) × (r.sni ≡ s.sni)
unfolding identity
identity-injective r s hr hs ir is pr ps h =
    let (hosts, h₁) = cut_before b'|' r.host s.host (behind_host r) (behind_host s) hr hs h in
    let (ips, h₂) = cut_before b'|' r.ip s.ip (behind_ip r) (behind_ip s) ir is h₁ in
    let (ports, snis) =
      cut_before b'|' (decimal r.port) (decimal s.port) r.sni s.sni
        (digits-Lacks (decimal r.port) (decimal-All r.port))
        (digits-Lacks (decimal s.port) (decimal-All s.port)) h₂ in
    (hosts, ips, decimal-injective r.port s.port pr ps ports, snis)

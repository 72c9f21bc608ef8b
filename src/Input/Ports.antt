-- ===== src/Input/Ports.antt =====
-- `ParsePorts` of internal/input/input.go.
pub mod Laws
pub mod RoundTrip
use ctscan.Base.{
  ℕ, zero, suc, ◌+◌, ◌-◌, ◌≡◌, refl, ◌||◌, List, [], ◌∷◌, Option, none, some, Outcome, ok, err,
  ◌>>=◌, ltb, if◌then◌else◌, ◌==◌, nat_eq, text_eq, push_new, Bytes, codes,
}
use ctscan.Base.Decimal.{atoi}
use ctscan.Base.Int.{ℤ, pos, negsuc, pos_part, neg_part, ltb_ℤ}
use ctscan.Base.Text.{trim_space, cut, split}

pub data PortError : Type 0 where
  outside : ℤ → PortError
  bad_range wide_range bad_port : Bytes → PortError
  no_ports : PortError

-- The closure `add`. The map `seen` holds the ports of the slice.
add : List ℕ → ℤ → Outcome PortError (List ℕ)
add ports n =
    if ltb_ℤ n (pos 1) || ltb_ℤ (pos 65535) n
    then err (outside n)
    else ok (push_new ports (pos_part n))

next : ℤ → ℤ
next (pos n) = pos (suc n)
next (negsuc zero) = pos 0
next (negsuc (suc n)) = negsuc n

-- `for port := start; port <= end; port++`, by the rounds left
add_range : ℕ → ℤ → List ℕ → Outcome PortError (List ℕ)
add_range zero start ports = ok ports
add_range (suc rounds) start ports = do
  ports' ← add ports start
  add_range rounds (next start) ports'

-- `end - start`, where `start` is at most `end`
span : ℤ → ℤ → ℕ
span start end = pos_part end + neg_part start - (pos_part start + neg_part end)

check_range : Bytes → Option ℤ → Option ℤ → List ℕ → Outcome PortError (List ℕ)
check_range item none end ports = err (bad_range item)
check_range item (some start) none ports = err (bad_range item)
check_range item (some start) (some end) ports =
    if ltb_ℤ end start
    then err (bad_range item)
    else if ltb 10000 (span start end)
    then err (wide_range item)
    else add_range (suc (span start end)) start ports

check_port : Bytes → Option ℤ → List ℕ → Outcome PortError (List ℕ)
check_port item none ports = err (bad_port item)
check_port item (some n) ports = add ports n

parse_trimmed : Bytes → Option (Bytes × Bytes) → List ℕ → Outcome PortError (List ℕ)
parse_trimmed item (some (before, after)) ports = check_range item (atoi before) (atoi after) ports
parse_trimmed item none ports = check_port item (atoi item) ports

-- one round of the loop over the items
parse_item : Bytes → List ℕ → Outcome PortError (List ℕ)
parse_item raw ports =
    let item = trim_space raw in
    if item == [] then ok ports else parse_trimmed item (cut item (codes "-")) ports

pub parse_items : List Bytes → List ℕ → Outcome PortError (List ℕ)
parse_items [] [] = err no_ports
parse_items [] (p ∷ ports) = ok (p ∷ ports)
parse_items (item ∷ items) ports = do ports' ← parse_item item ports; parse_items items ports'

unfoldable pub parse_ports : Bytes → Outcome PortError (List ℕ)
unfolding parse_items parse_item parse_trimmed check_range check_port add_range add next span
    push_new atoi trim_space cut split
parse_ports value =
    if trim_space value == [] then ok (443 ∷ []) else parse_items (split value b',') []

pub parse_ports_test :
    parse_ports (codes "443,8443, 9000-9002,443") ≡ ok (443 ∷ 8443 ∷ 9000 ∷ 9001 ∷ 9002 ∷ [])
unfolding parse_ports nat_eq text_eq
parse_ports_test = refl

parse_ports_errors :
    (parse_ports (codes "0") ≡ err (outside (pos 0)))
    × (parse_ports (codes "5-1") ≡ err (bad_range (codes "5-1")))
    × (parse_ports (codes "1--5") ≡ err (bad_range (codes "1--5")))
    × (parse_ports (codes "1-20000") ≡ err (wide_range (codes "1-20000")))
    × (parse_ports (codes "x") ≡ err (bad_port (codes "x")))
    × (parse_ports (codes ",,") ≡ err no_ports)
    × (parse_ports (codes " ") ≡ ok (443 ∷ []))
unfolding parse_ports nat_eq text_eq
parse_ports_errors = (refl, refl, refl, refl, refl, refl, refl)

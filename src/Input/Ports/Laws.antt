-- ===== src/Input/Ports/Laws.antt =====
-- Which ports `ParsePorts` returns.
use ctscan.Base.{
  ℕ, zero, suc, ◌+◌, ◌≤◌, ◌≡◌, ◌≢◌, refl, ◌∙◌, Bool, true, false, ◌&&◌, ◌||◌, List, [], ◌∷◌, Option,
  none, some, ok, bind-eq-ok, Bool-cases, ◌⊎◌, inl, inr, ltb, leb, not, if◌then◌else◌, ◌==◌, nat_eq,
  text_eq, contains, contains-push_new, Distinct, push_new, push_new-Distinct, Bytes, codes, arith,
  All, All-append,
}
use ctscan.Base.Decimal.{atoi}
use ctscan.Base.Int.{ℤ, pos, negsuc, pos_part, neg_part, ltb_ℤ}
use ctscan.Base.Text.{trim_space, cut, split}
use ctscan.Input.Ports.{
  add, next, add_range, span, check_range, check_port, parse_trimmed, parse_item, parse_items,
  parse_ports,
}

abbrev pub IsPort : ℕ → Type 0
IsPort p = (1 ≤ p) × (p ≤ 65535)

-- All are ports, and none is listed twice.
abbrev pub ArePorts : List ℕ → Type 0
ArePorts ports = Distinct ports × All IsPort ports

add-ArePorts :
    (ports : List ℕ) (n : ℤ) {ports' : List ℕ}
    → ArePorts ports
    → add ports n ≡ ok ports'
    → ArePorts ports'
unfolding add push_new
add-ArePorts ports n v h =
    ground (
      arith,
      push_new-Distinct ports (pos_part n) v.0,
      All-append IsPort ports (pos_part n ∷ []) v.1,
    )

add_range-ArePorts :
    (rounds : ℕ) (start : ℤ) (ports : List ℕ) {ports' : List ℕ}
    → ArePorts ports
    → add_range rounds start ports ≡ ok ports'
    → ArePorts ports'
unfolding add_range
add_range-ArePorts zero start ports v h = ground arith
add_range-ArePorts (suc rounds) start ports v h =
    let (p, added, rest) = bind-eq-ok (add ports start) (add_range rounds (next start)) h in
    add_range-ArePorts rounds (next start) p (add-ArePorts ports start v added) rest

check_range-ArePorts :
    (item : Bytes) (start end : Option ℤ) (ports : List ℕ) {ports' : List ℕ}
    → ArePorts ports
    → check_range item start end ports ≡ ok ports'
    → ArePorts ports'
unfolding check_range
check_range-ArePorts item none end ports v h = cc
check_range-ArePorts item (some start) none ports v h = cc
check_range-ArePorts item (some start) (some end) ports {ports'} v h =
    ground (arith, add_range-ArePorts (suc (span start end)) start ports {ports' = ports'} v)

check_port-ArePorts :
    (item : Bytes) (n : Option ℤ) (ports : List ℕ) {ports' : List ℕ}
    → ArePorts ports
    → check_port item n ports ≡ ok ports'
    → ArePorts ports'
unfolding check_port
check_port-ArePorts item none ports v h = cc
check_port-ArePorts item (some n) ports v h = add-ArePorts ports n v h

parse_trimmed-ArePorts :
    (item : Bytes) (parts : Option (Bytes × Bytes)) (ports : List ℕ) {ports' : List ℕ}
    → ArePorts ports
    → parse_trimmed item parts ports ≡ ok ports'
    → ArePorts ports'
unfolding parse_trimmed
parse_trimmed-ArePorts item none ports v h = check_port-ArePorts item (atoi item) ports v h
parse_trimmed-ArePorts item (some (before, after)) ports v h =
    check_range-ArePorts item (atoi before) (atoi after) ports v h

parse_item-ArePorts :
    (item : Bytes) (ports : List ℕ) {ports' : List ℕ}
    → ArePorts ports
    → parse_item item ports ≡ ok ports'
    → ArePorts ports'
unfolding parse_item
parse_item-ArePorts raw ports {ports'} v h =
    let item = trim_space raw in
    ground (arith, parse_trimmed-ArePorts item (cut item (codes "-")) ports {ports' = ports'} v)

parse_items-ArePorts :
    (items : List Bytes) (ports : List ℕ) {ports' : List ℕ}
    → ArePorts ports
    → parse_items items ports ≡ ok ports'
    → ArePorts ports' × (ports' ≢ [])
unfolding parse_items
parse_items-ArePorts [] [] v h = cc
parse_items-ArePorts [] (p ∷ ports) v h = ground arith
parse_items-ArePorts (item ∷ items) ports v h =
    let (p, parsed, rest) = bind-eq-ok (parse_item item ports) (parse_items items) h in
    parse_items-ArePorts items p (parse_item-ArePorts item ports v parsed) rest

pub parse_ports_lem :
    (value : Bytes)
    → parse_ports value
      ≡ (if trim_space value == [] then ok (443 ∷ []) else parse_items (split value b',') [])
unfolding parse_ports
parse_ports_lem value = refl

parse_ports-cases :
    (value : Bytes) {ports : List ℕ}
    → parse_ports value ≡ ok ports
    → ((trim_space value == []) ≡ true) × (ports ≡ 443 ∷ [])
      ⊎ ((trim_space value == []) ≡ false) × (parse_items (split value b',') [] ≡ ok ports)
parse_ports-cases value h = elim (Bool-cases (trim_space value == [])) [
  | inl blank ↦ inl (blank, ground (arith, rw (parse_ports_lem value, blank) at h))
  | inr filled ↦ inr (filled, rw (parse_ports_lem value, filled) at h)
]

-- A successful parse gives at least one port, each of 1 to 65535, and none twice.
pub parse_ports-ArePorts :
    (value : Bytes) {ports : List ℕ} → parse_ports value ≡ ok ports → ArePorts ports × (ports ≢ [])
parse_ports-ArePorts value {ports} h = elim (parse_ports-cases value h) [
  | inl (blank, e) ↦ rw e (ground arith)
  | inr (filled, e) ↦ parse_items-ArePorts (split value b',') [] (tt, tt) e
]

-- Whether an item names the port: as a single number, or as a range that holds it.
within : Option ℤ → Option ℤ → ℕ → Bool
within (some start) (some end) p = not (ltb_ℤ (pos p) start) && not (ltb_ℤ end (pos p))
within _ _ p = false

named_by : Option (Bytes × Bytes) → Bytes → ℕ → Bool
named_by (some (before, after)) item p = within (atoi before) (atoi after) p
named_by none item p = within (atoi item) (atoi item) p

names_port : Bytes → ℕ → Bool
names_port raw p =
    let item = trim_space raw in
    if item == [] then false else named_by (cut item (codes "-")) item p

pub some_names : List Bytes → ℕ → Bool
some_names [] p = false
some_names (item ∷ items) p = names_port item p || some_names items p

contains-add :
    (ports : List ℕ) (n : ℤ) (p : ℕ) {ports' : List ℕ}
    → add ports n ≡ ok ports'
    → contains ports' p ≡ (contains ports p || within (some n) (some n) p)
unfolding add within
contains-add ports n p h = ground (arith, contains-push_new ports (pos_part n) p)

abbrev in_rounds : ℕ → ℤ → ℕ → Bool
in_rounds rounds start p =
    leb (pos_part start) (p + neg_part start) && ltb (p + neg_part start) (pos_part start + rounds)

in_rounds-next :
    (rounds : ℕ) (start : ℤ) (p : ℕ)
    → in_rounds (suc rounds) start p
      ≡ (within (some start) (some start) p || in_rounds rounds (next start) p)
unfolding next within
in_rounds-next rounds (pos n) p = ground arith
in_rounds-next rounds (negsuc zero) p = ground arith
in_rounds-next rounds (negsuc (suc n)) p = ground arith

or_assoc : (a b c : Bool) → ((a || b) || c) ≡ (a || (b || c))
or_assoc a b c = ground arith

contains-add_range :
    (rounds : ℕ) (start : ℤ) (ports : List ℕ) (p : ℕ) {ports' : List ℕ}
    → add_range rounds start ports ≡ ok ports'
    → contains ports' p ≡ (contains ports p || in_rounds rounds start p)
unfolding add_range
contains-add_range zero start ports p h = ground arith
contains-add_range (suc rounds) start ports p h =
    let (q, added, rest) = bind-eq-ok (add ports start) (add_range rounds (next start)) h in
    contains-add_range rounds (next start) q p rest
    ∙ rw (contains-add ports start p added, in_rounds-next rounds start p, or_assoc)

contains-check_range :
    (item : Bytes) (start end : Option ℤ) (ports : List ℕ) (p : ℕ) {ports' : List ℕ}
    → check_range item start end ports ≡ ok ports'
    → contains ports' p ≡ (contains ports p || within start end p)
unfolding check_range span within
contains-check_range item none end ports p h = cc
contains-check_range item (some start) none ports p h = cc
contains-check_range item (some start) (some end) ports p {ports'} h =
    ground (arith, contains-add_range (suc (span start end)) start ports p {ports' = ports'})

contains-check_port :
    (item : Bytes) (n : Option ℤ) (ports : List ℕ) (p : ℕ) {ports' : List ℕ}
    → check_port item n ports ≡ ok ports'
    → contains ports' p ≡ (contains ports p || within n n p)
unfolding check_port within
contains-check_port item none ports p h = cc
contains-check_port item (some n) ports p h = unfold within in contains-add ports n p h

contains-parse_trimmed :
    (item : Bytes) (parts : Option (Bytes × Bytes)) (ports : List ℕ) (p : ℕ) {ports' : List ℕ}
    → parse_trimmed item parts ports ≡ ok ports'
    → contains ports' p ≡ (contains ports p || named_by parts item p)
unfolding parse_trimmed named_by
contains-parse_trimmed item (some (before, after)) ports p h =
    contains-check_range item (atoi before) (atoi after) ports p h
contains-parse_trimmed item none ports p h = contains-check_port item (atoi item) ports p h

contains-parse_item :
    (item : Bytes) (ports : List ℕ) (p : ℕ) {ports' : List ℕ}
    → parse_item item ports ≡ ok ports'
    → contains ports' p ≡ (contains ports p || names_port item p)
unfolding parse_item names_port
contains-parse_item raw ports p {ports'} h =
    let item = trim_space raw in
    ground (arith, contains-parse_trimmed item (cut item (codes "-")) ports p {ports' = ports'})

contains-parse_items :
    (items : List Bytes) (ports : List ℕ) (p : ℕ) {ports' : List ℕ}
    → parse_items items ports ≡ ok ports'
    → contains ports' p ≡ (contains ports p || some_names items p)
unfolding parse_items some_names
contains-parse_items [] [] p h = cc
contains-parse_items [] (q ∷ ports) p h = ground arith
contains-parse_items (item ∷ items) ports p h =
    let (q, parsed, rest) = bind-eq-ok (parse_item item ports) (parse_items items) h in
    contains-parse_items items q p rest ∙ rw (contains-parse_item item ports p parsed, or_assoc)

-- The ports of a successful parse are exactly those that some item of the text names, as a number
-- or by a range, or just 443 for a blank text.
pub contains-parse_ports :
    (value : Bytes) (p : ℕ) {ports : List ℕ}
    → parse_ports value ≡ ok ports
    → contains ports p
      ≡ (if trim_space value == [] then p == 443 else some_names (split value b',') p)
contains-parse_ports value p {ports} h = elim (parse_ports-cases value h) [
  | inl (blank, e) ↦ rw (blank, e) (ground arith)
  | inr (filled, e) ↦ rw filled (contains-parse_items (split value b',') [] p e)
]

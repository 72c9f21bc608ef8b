-- ===== src/Input/Ports/RoundTrip.antt =====
-- A printed list of ports is read back by `ParsePorts`.
use ctscan.Base.{
  ℕ, ◌≡◌, ◌≢◌, refl, false, List, [], ◌∷◌, ◌++◌, append_assoc, append-nil, map, ok, ◌==◌, nat_eq,
  text_eq, contains, Distinct, push_new, Bytes, codes, arith, All, Bool-cases, inl, inr, ==_iff,
}
use ctscan.Base.Decimal.{
  IsDigit, StartsWithDigit, decimal, decimal-All, decimal-StartsWithDigit, atoi-decimal,
}
use ctscan.Base.Int.{pos}
use ctscan.Base.Text.{is_space, trim_left, trim_right, trim_space, join}
use ctscan.Base.TextLemmas.{Lacks, HasNoSpace, trim_space-HasNoSpace, cut-Lacks, split-join}
use ctscan.Input.Ports.{add, parse_trimmed, check_port, parse_item, parse_items, parse_ports}
use ctscan.Input.Ports.Laws.{IsPort, parse_ports_lem}

pub print_ports : List ℕ → Bytes
print_ports ports = join (map decimal ports) (codes ",")

digits-HasNoSpace : (s : Bytes) → All IsDigit s → HasNoSpace s
unfolding is_space
digits-HasNoSpace [] d = tt
digits-HasNoSpace (c ∷ s) d = (ground arith, digits-HasNoSpace s d.1)

digits-Lacks : (s : Bytes) (b : ℕ) → ¬ IsDigit b → All IsDigit s → Lacks b s
digits-Lacks [] b h d = tt
digits-Lacks (c ∷ s) b h d = (ground arith, digits-Lacks s b h d.1)

decimals-Lacks : (ports : List ℕ) → All (Lacks b',') (map decimal ports)
decimals-Lacks [] = tt
decimals-Lacks (p ∷ ports) =
    (digits-Lacks (decimal p) b',' (λ d. omega arith) (decimal-All p), decimals-Lacks ports)

trim_space-ne-nil : (s : Bytes) → StartsWithDigit s → trim_space s ≢ []
unfolding trim_space trim_left trim_right is_space
trim_space-ne-nil [] d h = d
trim_space-ne-nil (c ∷ s) d h = ground arith

StartsWithDigit-append : (s t : Bytes) → StartsWithDigit s → StartsWithDigit (s ++ t)
StartsWithDigit-append [] t d = absurd d
StartsWithDigit-append (c ∷ s) t d = d

StartsWithDigit-ne-nil : (s : Bytes) → StartsWithDigit s → s ≢ []
StartsWithDigit-ne-nil [] d h = d
StartsWithDigit-ne-nil (c ∷ s) d h = cc

print_ports-StartsWithDigit : (p : ℕ) (ports : List ℕ) → StartsWithDigit (print_ports (p ∷ ports))
unfolding print_ports join
print_ports-StartsWithDigit p [] = decimal-StartsWithDigit p
print_ports-StartsWithDigit p (q ∷ ports) =
    StartsWithDigit-append (decimal p) _ (decimal-StartsWithDigit p)

contains_middle :
    (xs : List ℕ) (a : ℕ) (ys : List ℕ) → Distinct (xs ++ a ∷ ys) → contains xs a ≡ false
contains_middle [] a ys d = refl
contains_middle (x ∷ xs) a ys d = ground (arith, contains_middle xs a ys d.1, differ xs a ys x)
  where
    differ :
        (xs : List ℕ) (a : ℕ) (ys : List ℕ) (x : ℕ)
        → contains (xs ++ a ∷ ys) x ≡ false
        → (x == a) ≡ false
    differ [] a ys x h = ground arith
    differ (y ∷ xs) a ys x h = ground (arith, differ xs a ys x)

add-fresh :
    (ports : List ℕ) (p : ℕ)
    → IsPort p
    → contains ports p ≡ false
    → add ports (pos p) ≡ ok (ports ++ p ∷ [])
unfolding add push_new
add-fresh ports p v h = ground arith

parse_item-decimal :
    (p : ℕ) (ports : List ℕ) → IsPort p → parse_item (decimal p) ports ≡ add ports (pos p)
unfolding parse_item parse_trimmed check_port
parse_item-decimal p ports v =
    rw (trim_space-HasNoSpace (decimal p) (digits-HasNoSpace (decimal p) (decimal-All p))) (
      rw
        (cut-Lacks (decimal p) b'-'
          (digits-Lacks (decimal p) b'-' (λ d. omega arith) (decimal-All p)))
        (rw (atoi-decimal p (omega arith))
          (ground (arith, StartsWithDigit-ne-nil (decimal p) (decimal-StartsWithDigit p)))))

parse_items-decimals :
    (ports before : List ℕ)
    → before ++ ports ≢ []
    → Distinct (before ++ ports)
    → All IsPort ports
    → parse_items (map decimal ports) before ≡ ok (before ++ ports)
unfolding parse_items
parse_items-decimals [] [] n d v = absurd (n refl)
parse_items-decimals [] (q ∷ before) n d v = rw append-nil
parse_items-decimals (p ∷ ports) before n d v =
    rw (parse_item-decimal p before v.0, add-fresh before p v.0 (contains_middle before p ports d))
      (rw (← append_assoc before (p ∷ []) ports)
        (parse_items-decimals ports (before ++ p ∷ []) (rw append_assoc n) (rw append_assoc d) v.1))

-- Ports printed in decimal with commas between them are read back, in the same order.
pub parse_ports-print_ports :
    (p : ℕ) (ports : List ℕ)
    → Distinct (p ∷ ports)
    → All IsPort (p ∷ ports)
    → parse_ports (print_ports (p ∷ ports)) ≡ ok (p ∷ ports)
parse_ports-print_ports p ports d v =
    rw parse_ports_lem (elim (Bool-cases (trim_space (print_ports (p ∷ ports)) == [])) [
      | inl blank ↦ absurd (
          trim_space-ne-nil (print_ports (p ∷ ports)) (print_ports-StartsWithDigit p ports)
            ((==_iff _ _).0 blank))
      | inr filled ↦ rw filled (
          unfold print_ports in
          rw
            (split-join (decimal p) (map decimal ports) b',' (decimals-Lacks (p ∷ ports)).0
              (decimals-Lacks ports))
            (parse_items-decimals (p ∷ ports) [] (λ e. cc) d v))
    ])

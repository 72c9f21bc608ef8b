-- ===== src/Input/Resolving.antt =====
-- `ReadLines` and `Resolve` of internal/input/input.go. The lines that a file holds and the error that
-- reading ends on are arguments, and so is the resolver.
use ctscan.Base.{
  Bool, true, false, ◌||◌, not, List, [], ◌∷◌, Option, none, some, Outcome, ok, err, ◌>>=◌,
  if◌then◌else◌, ◌==◌, nat_eq, text_eq, Bytes, ◌≡◌, ◌≢◌, refl, arith, All, length, Bool-cases, inl,
  inr, bind-eq-ok,
}
use ctscan.Base.Text.{split}
use ctscan.Types.{Target}

module _ {E S : Type 0} (emit : S → Bytes → Outcome E S) where
  emit_items : S → List Bytes → Outcome E S
  emit_items st [] = ok st
  emit_items st (item ∷ items) = do st' ← emit st item; emit_items st' items

  line_read : S → Option E → Outcome E S
  line_read st none = ok st
  line_read st (some e) = err e

  -- `emit` changes the state of its closure.
  unfoldable pub read_items : List Bytes → Option E → S → Outcome E S
  unfolding emit_items line_read split
  read_items [] reading st = line_read st reading
  read_items (line ∷ lines) reading st = do
    st' ← emit_items st (split line b',')
    read_items lines reading st'

-- `net.ParseIP(host) != nil`, the addresses that a lookup gives, and the error for none.
pub record Resolver (E : Type 0) : Type 0 where
  pub is_ip : Bytes → Bool
  pub lookup_ip : Bytes → Outcome E (List Bytes)
  pub no_addresses : Bytes → E

module _ {E : Type 0} (resolver : Resolver E) where
  at_addresses : Target → List Bytes → List Target
  at_addresses target [] = []
  at_addresses target (address ∷ addresses) =
      record target { address = address } ∷ at_addresses target addresses

  found_addresses : Bool → Target → List Bytes → Outcome E (List Target)
  unfolding at_addresses
  found_addresses all target [] = err (resolver.no_addresses target.host)
  found_addresses all target (address ∷ addresses) =
      ok (at_addresses target (if all then address ∷ addresses else address ∷ []))

  unfoldable pub resolve_target : Bool → Target → Outcome E (List Target)
  unfolding found_addresses
  resolve_target all target =
      if not (target.address == []) || resolver.is_ip target.host
      then ok (
          record target { address = if target.address == [] then target.host else target.address }
          ∷ [])
      else (resolver.lookup_ip target.host >>= found_addresses all target)

  -- The target with its own address, its host as the address, or one that the lookup gives.
  abbrev pub IsResolved : Target → Target → Type 0
  IsResolved target t =
      (t ≡ record target { address = t.address })
      × (target.address ≢ [] → t.address ≡ target.address)

  at_addresses-All :
      (target : Target) (addresses : List Bytes)
      → target.address ≡ []
      → All (IsResolved target) (at_addresses target addresses)
  unfolding at_addresses
  at_addresses-All target [] none_given = tt
  at_addresses-All target (a ∷ addresses) none_given =
      ((refl, λ given. absurd (given none_given)), at_addresses-All target addresses none_given)

  found-IsResolved :
      (all : Bool) (target : Target) (addresses : List Bytes) (ts : List Target)
      → target.address ≡ []
      → found_addresses all target addresses ≡ ok ts
      → All (IsResolved target) ts × (ts ≢ []) × (all ≡ false → length ts ≡ 1)
  unfolding found_addresses
  found-IsResolved all target [] ts none_given h = cc
  found-IsResolved true target (a ∷ addresses) ts none_given h =
      let e : at_addresses target (a ∷ addresses) ≡ ts = cc in
      rw⁻¹ e (
        at_addresses-All target (a ∷ addresses) none_given,
        unfold at_addresses in (λ p. cc),
        λ p. cc,
      )
  found-IsResolved false target (a ∷ addresses) ts none_given h =
      let e : at_addresses target (a ∷ []) ≡ ts = cc in
      rw⁻¹ e (
        at_addresses-All target (a ∷ []) none_given,
        unfold at_addresses in (λ p. cc),
        unfold at_addresses in (λ p. refl),
      )

  -- Resolving gives at least one target, and one only unless all addresses are wanted. Each is the
  -- target with an address, which is its own if it has one.
  pub resolve_target-IsResolved :
      (all : Bool) (target : Target) (ts : List Target)
      → resolve_target all target ≡ ok ts
      → All (IsResolved target) ts × (ts ≢ []) × (all ≡ false → length ts ≡ 1)
  unfolding resolve_target
  resolve_target-IsResolved all target ts h =
      elim (Bool-cases (not (target.address == []) || resolver.is_ip target.host)) [
        | inl known ↦
            let one = record target {
              address = if target.address == [] then target.host else target.address;
            } in
            let e : one ∷ [] ≡ ts = cc (rw known at h) in
            rw⁻¹ e (((refl, λ given. ground (arith, given)), tt), λ p. cc, λ p. refl)
        | inr asked ↦
            let (addresses, looked, found) =
              bind-eq-ok (resolver.lookup_ip target.host) _ (rw asked at h) in
            found-IsResolved all target addresses ts (ground (arith, asked)) found
      ]

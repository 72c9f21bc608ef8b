-- ===== src/Cli/Targets/Laws.antt =====
-- That `prepareTargets` gives no endpoint twice.
use ctscan.Base.{
  Bool, true, ◌&&◌, not, List, [], ◌∷◌, ◌++◌, contains, text_eq, Bytes, Outcome, ok, err, ◌≡◌, refl,
  ap, arith, Distinct, Distinct-concat, bind-eq-ok, All, Bool-cases, inl, inr,
}
use ctscan.Cli.Targets.{
  target_key, target_keys, Prepared, Source, add_target, add_targets, resolved, prepare_one,
  prepare_each, prepare_from, prepare_targets,
}
use ctscan.Types.{Target}

pub target_keys-append :
    (ts us : List Target) → target_keys (ts ++ us) ≡ target_keys ts ++ target_keys us
target_keys-append [] us = refl
target_keys-append (t ∷ ts) us = ap (λ ks. target_key t ∷ ks) (target_keys-append ts us)

-- Each target has its key among the keys, if these hold all keys of the list.
pub target_keys-All :
    (ts : List Target) (ks : List Bytes)
    → ((k : Bytes) → contains (target_keys ts) k ≡ true → contains ks k ≡ true)
    → All (λ t. contains ks (target_key t) ≡ true) ts
target_keys-All [] ks h = tt
target_keys-All (t ∷ ts) ks h =
    (h (target_key t) (ground arith), target_keys-All ts ks (λ k m. h k (ground arith)))

abbrev IsPlain : Prepared → Type 0
IsPlain p = Distinct (target_keys p.targets)

add_target-IsPlain : (p : Prepared) (t : Target) → IsPlain p → IsPlain (add_target p t)
unfolding add_target
add_target-IsPlain p t d = elim (Bool-cases (contains (target_keys p.targets) (target_key t))) [
  | inl seen ↦ rw seen d
  | inr fresh ↦
      rw (fresh, target_keys-append p.targets (t ∷ []))
        (Distinct-concat (target_keys p.targets) (target_key t) d fresh)
]

add_targets-IsPlain : (ts : List Target) (p : Prepared) → IsPlain p → IsPlain (add_targets ts p)
unfolding add_targets
add_targets-IsPlain [] p d = d
add_targets-IsPlain (t ∷ ts) p d =
    add_targets-IsPlain ts (add_target p t) (add_target-IsPlain p t d)

module _ {E : Type 0} (source : Source E) (remote_dns : Bool) where
  resolved-IsPlain :
      (p : Prepared) (t : Target) (o : Outcome E (List Target))
      → IsPlain p
      → IsPlain (resolved source remote_dns p t o)
  unfolding resolved
  resolved-IsPlain p t (ok cs) d = add_targets-IsPlain cs p d
  resolved-IsPlain p t (err e) d = d

  prepare_one-IsPlain :
      (p : Prepared) (t : Target) → IsPlain p → IsPlain (prepare_one source remote_dns p t)
  unfolding prepare_one
  prepare_one-IsPlain p t d = elim (Bool-cases (remote_dns && not (source.is_ip t.host))) [
    | inl h ↦ rw h (add_target-IsPlain p t d)
    | inr h ↦ rw h (resolved-IsPlain p t (source.resolve t) d)
  ]

  prepare_each-IsPlain :
      (ts : List Target) (p : Prepared) → IsPlain p → IsPlain (prepare_each source remote_dns ts p)
  unfolding prepare_each
  prepare_each-IsPlain [] p d = d
  prepare_each-IsPlain (t ∷ ts) p d =
      prepare_each-IsPlain ts (prepare_one source remote_dns p t) (prepare_one-IsPlain p t d)

  prepare_from-IsPlain :
      (raw : List Bytes) (p : Prepared) {q : Prepared}
      → IsPlain p
      → prepare_from source remote_dns raw p ≡ ok q
      → IsPlain q
  unfolding prepare_from
  prepare_from-IsPlain [] p {q} d h = let e : p ≡ q = cc in rw⁻¹ e d
  prepare_from-IsPlain (value ∷ raw) p d h =
      let (parsed, first, rest) =
        bind-eq-ok (source.parse value)
          (λ ts. prepare_from source remote_dns raw (prepare_each source remote_dns ts p)) h in
      prepare_from-IsPlain raw (prepare_each source remote_dns parsed p)
        (prepare_each-IsPlain parsed p d) rest

  -- No two of the targets that are prepared have the same key.
  pub prepare_targets-Distinct :
      (raw : List Bytes) (p : Prepared)
      → prepare_targets source remote_dns raw ≡ ok p
      → Distinct (target_keys p.targets)
  unfolding prepare_targets
  prepare_targets-Distinct raw p h =
      prepare_from-IsPlain raw record { targets = []; failures = [] } tt h

-- ===== src/Cli/Targets/Good.antt =====
-- What parsing gives and resolving keeps, all targets that `prepareTargets` gives meet.
use ctscan.Base.{
  Bool, ◌&&◌, not, List, [], ◌∷◌, Outcome, ok, err, contains, text_eq, Bytes, All, All-append, ◌≡◌,
  refl, Bool-cases, inl, inr, bind-eq-ok,
}
use ctscan.Cli.Targets.{
  target_key, target_keys, Prepared, Source, add_target, add_targets, resolved, prepare_one,
  prepare_each, prepare_from, prepare_targets,
}
use ctscan.Types.{Target}

module _ {E : Type 0} (source : Source E) (remote_dns : Bool) (P : Target → Type 0) where
  abbrev pub AreGood : Prepared → Type 0
  AreGood p = All P p.targets

  add_target-AreGood : (p : Prepared) (t : Target) → P t → AreGood p → AreGood (add_target p t)
  unfolding add_target
  add_target-AreGood p t good h =
      elim (Bool-cases (contains (target_keys p.targets) (target_key t))) [
        | inl seen ↦ rw seen h
        | inr fresh ↦ rw fresh (All-append P p.targets (t ∷ []) h (good, tt))
      ]

  add_targets-AreGood :
      (ts : List Target) (p : Prepared) → All P ts → AreGood p → AreGood (add_targets ts p)
  unfolding add_targets
  add_targets-AreGood [] p good h = h
  add_targets-AreGood (t ∷ ts) p (g, good) h =
      add_targets-AreGood ts (add_target p t) good (add_target-AreGood p t g h)

  resolved-AreGood :
      (p : Prepared) (t : Target) (o : Outcome E (List Target))
      → ((ts : List Target) → o ≡ ok ts → All P ts)
      → AreGood p
      → AreGood (resolved source remote_dns p t o)
  unfolding resolved
  resolved-AreGood p t (ok ts) good h = add_targets-AreGood ts p (good ts refl) h
  resolved-AreGood p t (err e) good h = h

  -- Resolving a good target gives good ones.
  abbrev pub Keeps : Type 0
  Keeps = (t : Target) → P t → (ts : List Target) → source.resolve t ≡ ok ts → All P ts

  prepare_one-AreGood :
      (p : Prepared) (t : Target)
      → Keeps
      → P t
      → AreGood p
      → AreGood (prepare_one source remote_dns p t)
  unfolding prepare_one
  prepare_one-AreGood p t keeps good h =
      elim (Bool-cases (remote_dns && not (source.is_ip t.host))) [
        | inl remote ↦ rw remote (add_target-AreGood p t good h)
        | inr local ↦ rw local (resolved-AreGood p t (source.resolve t) (keeps t good) h)
      ]

  prepare_each-AreGood :
      (ts : List Target) (p : Prepared)
      → Keeps
      → All P ts
      → AreGood p
      → AreGood (prepare_each source remote_dns ts p)
  unfolding prepare_each
  prepare_each-AreGood [] p keeps good h = h
  prepare_each-AreGood (t ∷ ts) p keeps (g, good) h =
      prepare_each-AreGood ts (prepare_one source remote_dns p t) keeps good
        (prepare_one-AreGood p t keeps g h)

  prepare_from-AreGood :
      (raw : List Bytes) (p q : Prepared)
      → Keeps
      → ((value : Bytes) (ts : List Target) → source.parse value ≡ ok ts → All P ts)
      → AreGood p
      → prepare_from source remote_dns raw p ≡ ok q
      → AreGood q
  unfolding prepare_from
  prepare_from-AreGood [] p q keeps good h e = let same : p ≡ q = cc in rw⁻¹ same h
  prepare_from-AreGood (value ∷ raw) p q keeps good h e =
      let (parsed, first, rest) =
        bind-eq-ok (source.parse value)
          (λ ts. prepare_from source remote_dns raw (prepare_each source remote_dns ts p)) e in
      prepare_from-AreGood raw (prepare_each source remote_dns parsed p) q keeps good
        (prepare_each-AreGood parsed p keeps (good value parsed first) h) rest

  -- All targets that are prepared are good, if those that are parsed are, and resolving keeps it so.
  pub prepare_targets-AreGood :
      (raw : List Bytes) (p : Prepared)
      → Keeps
      → ((value : Bytes) (ts : List Target) → source.parse value ≡ ok ts → All P ts)
      → prepare_targets source remote_dns raw ≡ ok p
      → AreGood p
  unfolding prepare_targets
  prepare_targets-AreGood raw p keeps good h =
      prepare_from-AreGood raw (record { targets = []; failures = [] }) p keeps good tt h

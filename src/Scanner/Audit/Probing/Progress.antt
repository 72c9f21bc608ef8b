-- ===== src/Scanner/Audit/Probing/Progress.antt =====
-- The pool of cipher probes never blocks for ever, and can always run on to its end.
use ctscan.Base.{
  ℕ, zero, suc, ◌+◌, ◌*◌, ◌≤◌, ◌<◌, ◌&&◌, List, [], ◌∷◌, Option, none, some, Outcome, ok, err, ◌≡◌,
  ◌⊎◌, inl, inr, refl, ap, ◌∙◌, arith, Bytes, length, length-append, Bool-cases, List-cases,
  ℕ-cases, ◌==◌, text_eq,
}
use ctscan.Scanner.Audit.{Suite, CipherProbe, cipher_if, accepted, succeeds}
use ctscan.Scanner.Audit.Probing.{
  Probing, ProbeStep, hand_probe, probes_done, probes_stopped, rate_ended, accept, reject,
  send_cipher, abandon, leave_probing, take_cipher, ProbeReach, make_step, HasProbed,
}
use ctscan.Scanner.Audit.Probing.Conserved.{manned-Reach}
use ctscan.Scanner.Errors.{Error}
use ctscan.Types.{Result, TlsInfo}
use ctscan.Workers.Progress.{still_open}

-- A worker sends one cipher for a probe, or none.
accepted-cases :
    (name : Bytes) (o : Outcome Error Result)
    → (accepted name o ≡ []) ⊎ ((c : Bytes) × (accepted name o ≡ c ∷ []))
unfolding accepted cipher_if
accepted-cases name (err e) = inl refl
accepted-cases name (ok attempt) = by_tls attempt.tls
  where
    by_tls :
        (tls : Option TlsInfo)
        → (cipher_if name (succeeds attempt) tls ≡ [])
          ⊎ ((c : Bytes) × (cipher_if name (succeeds attempt) tls ≡ c ∷ []))
    by_tls none = inl refl
    by_tls (some tls) = elim (Bool-cases (succeeds attempt && tls.cipher == name)) [
      | inl same ↦ inr (tls.cipher, rw same refl)
      | inr other ↦ inl (rw other refl)
    ]

-- How many steps are left at most.
abbrev probe_steps : Probing → ℕ
probe_steps s =
    5 * length s.pending
    + 4 * length s.probing
    + 3 * length s.sending
    + length s.buffer
    + s.idle
    + still_open s.closed

module _ (workers : ℕ) (name_of : CipherProbe → Bytes)
    (outcomes : CipherProbe → Outcome Error Result) where
  abbrev Goes : Probing → Probing → Type 0
  Goes = ProbeStep workers name_of outcomes

  probe_steps-Step : {s t : Probing} → Goes s t → suc (probe_steps t) ≤ probe_steps s
  probe_steps-Step (hand_probe o e i) = omega (arith, ap length e, i)
  probe_steps-Step (probes_done o e) = omega (arith, ap still_open o)
  probe_steps-Step (probes_stopped o k) = omega (arith, ap still_open o)
  probe_steps-Step (rate_ended p before after e k) =
      omega (arith, ap length e, length-append before (p ∷ after), length-append before after)
  probe_steps-Step (accept p before after e a) =
      omega (arith, ap length e, length-append before (p ∷ after), length-append before after)
  probe_steps-Step (reject p before after e a) =
      omega (arith, ap length e, length-append before (p ∷ after), length-append before after)
  probe_steps-Step {s} (send_cipher c before after e room) = omega (
    arith,
    ap length e,
    length-append before (c ∷ after),
    length-append before after,
    length-append s.buffer (c ∷ []),
  )
  probe_steps-Step (abandon c before after e k) =
      omega (arith, ap length e, length-append before (c ∷ after), length-append before after)
  probe_steps-Step (leave_probing k i) = omega (arith, i)
  probe_steps-Step (take_cipher e) = omega (arith, ap length e)

  abbrev CanStep : Probing → Type 0
  CanStep s = (t : Probing) × Goes s t × (t.canceled ≡ s.canceled)

  probing-CanStep :
      (s : Probing) (p : CipherProbe) (ps : List CipherProbe) → s.probing ≡ p ∷ ps → CanStep s
  probing-CanStep s p ps e = elim (accepted-cases (name_of p) (outcomes p)) [
    | inl a ↦ (_, reject p [] ps e a, refl)
    | inr (c, a) ↦ (_, accept p [] ps e a, refl)
  ]

  idle-CanStep : (s : Probing) (n : ℕ) → s.idle ≡ suc n → CanStep s
  idle-CanStep s n i = elim (Bool-cases s.closed) [
    | inl shut ↦ (_, leave_probing shut i, refl)
    | inr unshut ↦ elim (List-cases s.pending) [
      | inl e ↦ (_, probes_done unshut e, refl)
      | inr (p, ps, e) ↦ (_, hand_probe unshut e i, refl)
    ]
  ]

  ProbeReach-CanStep :
      {suites : List Suite} {s : Probing}
      → 0 < workers
      → ProbeReach workers name_of outcomes suites s
      → HasProbed workers name_of outcomes s ⊎ CanStep s
  ProbeReach-CanStep {s = s} some_workers h = elim (List-cases s.buffer) [
    | inr (c, more, e) ↦ inr (_, take_cipher e, refl)
    | inl empty ↦ elim (List-cases s.sending) [
      | inr (c, more, e) ↦ inr (_, send_cipher c [] more e (omega (arith, ap length empty)), refl)
      | inl none_sends ↦ elim (List-cases s.probing) [
        | inr (p, more, e) ↦ inr (probing-CanStep s p more e)
        | inl none_probes ↦ elim (ℕ-cases s.idle) [
          | inr (n, i) ↦ inr (idle-CanStep s n i)
          | inl none_idle ↦ inl (
            omega (
              arith,
              manned-Reach name_of outcomes h,
              ap length none_sends,
              ap length none_probes,
            ),
            empty,
          )
        ]
      ]
    ]
  ]

  -- An end that the pool reaches, with the context as it was.
  abbrev EndsProbing : List Suite → Probing → Type 0
  EndsProbing suites s =
      (t : Probing) × ProbeReach workers name_of outcomes suites t
      × HasProbed workers name_of outcomes t
      × (t.canceled ≡ s.canceled)

  ends_within :
      (n : ℕ) {suites : List Suite} {s : Probing}
      → 0 < workers
      → ProbeReach workers name_of outcomes suites s
      → probe_steps s ≤ n
      → EndsProbing suites s
  ends_within zero {s = s} some_workers h few = elim (ProbeReach-CanStep some_workers h) [
    | inl ended ↦ (s, h, ended, refl)
    | inr (t, step, same) ↦ absurd (omega (arith, probe_steps-Step step))
  ]
  ends_within (suc n) {s = s} some_workers h few = elim (ProbeReach-CanStep some_workers h) [
    | inl ended ↦ (s, h, ended, refl)
    | inr (t, step, same) ↦
        let (u, reach, ended, as_before) =
          ends_within n some_workers (make_step h step) (omega (arith, probe_steps-Step step)) in
        (u, reach, ended, as_before ∙ same)
  ]

  -- From every state that it reaches, a pool with some worker can run on to its end, with no further
  -- cancellation.
  ProbeReach-Ends :
      {suites : List Suite} {s : Probing}
      → 0 < workers
      → ProbeReach workers name_of outcomes suites s
      → EndsProbing suites s
  ProbeReach-Ends {s = s} some_workers h = ends_within (probe_steps s) some_workers h (omega arith)

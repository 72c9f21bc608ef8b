-- ===== src/Scanner/Audit/Probing/Conserved.antt =====
-- No accepted cipher is lost in the pool of probes, if it is not canceled, and none is made up.
use ctscan.Base.{
  ℕ, ◌+◌, ◌<◌, Bool, true, false, ◌&&◌, ◌||◌, List, [], ◌∷◌, ◌++◌, Option, none, some, Outcome, ok,
  err, ◌≡◌, refl, ap, ◌∙◌, arith, ◌==◌, ==_iff, text_eq, Bytes, contains, contains-append, length,
  length-append, length-nil, leb, Bool-cases, inl, inr,
}
use ctscan.Scanner.Audit.{
  Suite, CipherProbe, cipher_probes, probes_at, cipher_if, accepted, succeeds,
}
use ctscan.Scanner.Audit.Probing.{
  Probing, ProbeStep, hand_probe, probes_done, probes_stopped, rate_ended, accept, reject,
  send_cipher, abandon, leave_probing, take_cipher, ProbeReach, set_out, make_step, call_off,
  HasProbed,
}
use ctscan.Scanner.Errors.{Error}
use ctscan.Types.{Result, TlsInfo}

is_cipher : Bytes → Option TlsInfo → Bool
is_cipher c none = false
is_cipher c (some tls) = tls.cipher == c

-- An attempt that succeeds with the cipher, which has the name that was asked for.
pub agrees : Bytes → Bytes → Outcome Error Result → Bool
unfolding is_cipher
agrees name c (err e) = false
agrees name c (ok attempt) = succeeds attempt && is_cipher c attempt.tls && c == name

contains-accepted :
    (name : Bytes) (o : Outcome Error Result) (c : Bytes)
    → contains (accepted name o) c ≡ agrees name c o
unfolding accepted agrees cipher_if is_cipher
contains-accepted name (err e) c = refl
contains-accepted name (ok attempt) c = by_tls attempt.tls
  where
    by_tls :
        (tls : Option TlsInfo)
        → contains (cipher_if name (succeeds attempt) tls) c
          ≡ (succeeds attempt && is_cipher c tls && c == name)
    by_tls none = ground arith
    by_tls (some tls) =
        ground
          (arith, ==_iff c tls.cipher, ==_iff tls.cipher c, ==_iff c name, ==_iff tls.cipher name)

module _ (name_of : CipherProbe → Bytes) (outcomes : CipherProbe → Outcome Error Result) where
  -- The server agrees to the cipher in one of the probes.
  abbrev pub some_probe : List CipherProbe → Bytes → Bool
  some_probe [] c = false
  some_probe (p ∷ ps) c = agrees (name_of p) c (outcomes p) || some_probe ps c

  some_probe-append :
      (ps qs : List CipherProbe) (c : Bytes)
      → some_probe (ps ++ qs) c ≡ (some_probe ps c || some_probe qs c)
  some_probe-append [] qs c = refl
  some_probe-append (p ∷ ps) qs c = ground (arith, some_probe-append ps qs c)

  -- The server agrees to the cipher of a suite at one of its versions up to TLS 1.2.
  abbrev pub some_version : ℕ → List ℕ → Bytes → Bool
  some_version id [] c = false
  some_version id (v ∷ vs) c =
      (leb v 0x0303
        && agrees (name_of (record { id = id; version = v })) c
            (outcomes (record { id = id; version = v })))
      || some_version id vs c

  abbrev pub some_suite : List Suite → Bytes → Bool
  some_suite [] c = false
  some_suite (suite ∷ suites) c =
      some_version suite.id suite.supported_versions c || some_suite suites c

  some_probe-probes_at :
      (id : ℕ) (vs : List ℕ) (c : Bytes) → some_probe (probes_at id vs) c ≡ some_version id vs c
  unfolding probes_at
  some_probe-probes_at id [] c = refl
  some_probe-probes_at id (v ∷ vs) c = elim (Bool-cases (leb v 0x0303)) [
    | inl old ↦ rw old (ground (arith, some_probe-probes_at id vs c))
    | inr new ↦ rw new (some_probe-probes_at id vs c)
  ]

  pub some_probe-cipher_probes :
      (suites : List Suite) (c : Bytes) → some_probe (cipher_probes suites) c ≡ some_suite suites c
  unfolding cipher_probes
  some_probe-cipher_probes [] c = refl
  some_probe-cipher_probes (suite ∷ suites) c =
      some_probe-append (probes_at suite.id suite.supported_versions) (cipher_probes suites) c
      ∙ rw
          (
            some_probe-probes_at suite.id suite.supported_versions c,
            some_probe-cipher_probes suites c,
          )
          refl

  -- The cipher has arrived or is on its way, or a probe that is not yet made will accept it.
  abbrev pub is_due : Probing → Bytes → Bool
  is_due s c =
      contains s.arrived c
      || (contains s.buffer c
          || (contains s.sending c || (some_probe s.probing c || some_probe s.pending c)))

  is_due-Step :
      {workers : ℕ} {s t : Probing}
      → ProbeStep workers name_of outcomes s t
      → s.canceled ≡ false
      → (c : Bytes) → is_due t c ≡ is_due s c
  is_due-Step {s = s} (hand_probe {p} {ps} o e i) live c = rw e (ground arith)
  is_due-Step (probes_done o e) live c = refl
  is_due-Step (probes_stopped o k) live c = refl
  is_due-Step (rate_ended p before after e k) live c = cc
  is_due-Step {s = s} (accept p before after {cipher} e a) live c = rw e (
      ground (
        arith,
        some_probe-append before (p ∷ after) c,
        some_probe-append before after c,
        ap (λ l. contains l c) a,
        contains-accepted (name_of p) (outcomes p) c,
      ))
  is_due-Step {s = s} (reject p before after e a) live c = rw e (
      ground (
        arith,
        some_probe-append before (p ∷ after) c,
        some_probe-append before after c,
        ap (λ l. contains l c) a,
        contains-accepted (name_of p) (outcomes p) c,
      ))
  is_due-Step {s = s} (send_cipher cipher before after e room) live c = rw e (
      ground (
        arith,
        contains-append before (cipher ∷ after) c,
        contains-append before after c,
        contains-append s.buffer (cipher ∷ []) c,
      ))
  is_due-Step (abandon cipher before after e k) live c = cc
  is_due-Step (leave_probing k i) live c = refl
  is_due-Step {s = s} (take_cipher {cipher} {more} e) live c =
      rw e (ground (arith, contains-append s.arrived (cipher ∷ []) c))

  canceled-ProbeStep :
      {workers : ℕ} {s t : Probing}
      → ProbeStep workers name_of outcomes s t
      → t.canceled ≡ false
      → s.canceled ≡ false
  canceled-ProbeStep (hand_probe o e i) live = live
  canceled-ProbeStep (probes_done o e) live = live
  canceled-ProbeStep (probes_stopped o k) live = live
  canceled-ProbeStep (rate_ended p before after e k) live = live
  canceled-ProbeStep (accept p before after e a) live = live
  canceled-ProbeStep (reject p before after e a) live = live
  canceled-ProbeStep (send_cipher c before after e room) live = live
  canceled-ProbeStep (abandon c before after e k) live = live
  canceled-ProbeStep (leave_probing k i) live = live
  canceled-ProbeStep (take_cipher e) live = live

  is_due-Reach :
      {workers : ℕ} {suites : List Suite} {s : Probing}
      → ProbeReach workers name_of outcomes suites s
      → s.canceled ≡ false
      → (c : Bytes) → is_due s c ≡ some_suite suites c
  is_due-Reach {suites = suites} set_out live c = some_probe-cipher_probes suites c
  is_due-Reach (make_step h step) live c =
      let before = canceled-ProbeStep step live in
      is_due-Step step before c ∙ is_due-Reach h before c
  is_due-Reach (call_off h) live c = cc

  -- The workers, wherever they are.
  abbrev pub manned : Probing → ℕ
  manned s = s.idle + length s.probing + length s.sending + s.departed

  manned-Step :
      {workers : ℕ} {s t : Probing} → ProbeStep workers name_of outcomes s t → manned t ≡ manned s
  manned-Step (hand_probe o e i) = omega (arith, i)
  manned-Step (probes_done o e) = refl
  manned-Step (probes_stopped o k) = refl
  manned-Step (rate_ended p before after e k) =
      omega (arith, ap length e, length-append before (p ∷ after), length-append before after)
  manned-Step (accept p before after e a) =
      omega (arith, ap length e, length-append before (p ∷ after), length-append before after)
  manned-Step (reject p before after e a) =
      omega (arith, ap length e, length-append before (p ∷ after), length-append before after)
  manned-Step (send_cipher c before after e room) =
      omega (arith, ap length e, length-append before (c ∷ after), length-append before after)
  manned-Step (abandon c before after e k) =
      omega (arith, ap length e, length-append before (c ∷ after), length-append before after)
  manned-Step (leave_probing k i) = omega (arith, i)
  manned-Step (take_cipher e) = refl

  pub manned-Reach :
      {workers : ℕ} {suites : List Suite} {s : Probing}
      → ProbeReach workers name_of outcomes suites s
      → manned s ≡ workers
  manned-Reach set_out = omega arith
  manned-Reach (make_step h step) = manned-Step step ∙ manned-Reach h
  manned-Reach (call_off h) = manned-Reach h

  -- Without a cancellation the feeder ends behind the last probe, and no worker leaves before.
  abbrev IsOrderly : Probing → Type 0
  IsOrderly s = (s.closed ≡ true → s.pending ≡ []) × (0 < s.departed → s.closed ≡ true)

  IsOrderly-Step :
      {workers : ℕ} {s t : Probing}
      → ProbeStep workers name_of outcomes s t
      → s.canceled ≡ false
      → IsOrderly s
      → IsOrderly t
  IsOrderly-Step (hand_probe o e i) live (f, g) = (λ k. cc, g)
  IsOrderly-Step (probes_done o e) live (f, g) = (λ k. e, λ k. refl)
  IsOrderly-Step (probes_stopped o k) live h = cc
  IsOrderly-Step (rate_ended p before after e k) live h = cc
  IsOrderly-Step (accept p before after e a) live h = h
  IsOrderly-Step (reject p before after e a) live h = h
  IsOrderly-Step (send_cipher c before after e room) live h = h
  IsOrderly-Step (abandon c before after e k) live h = cc
  IsOrderly-Step (leave_probing k i) live (f, g) = (f, λ j. k)
  IsOrderly-Step (take_cipher e) live h = h

  IsOrderly-Reach :
      {workers : ℕ} {suites : List Suite} {s : Probing}
      → ProbeReach workers name_of outcomes suites s
      → s.canceled ≡ false
      → IsOrderly s
  IsOrderly-Reach set_out live = (λ k. cc, λ k. absurd (omega (arith, k)))
  IsOrderly-Reach (make_step h step) live =
      let before = canceled-ProbeStep step live in
      IsOrderly-Step step before (IsOrderly-Reach h before)
  IsOrderly-Reach (call_off h) live = cc

  -- When the pool has ended and was not canceled, the ciphers that arrived are those to which the
  -- server agrees in some probe.
  pub arrived-some_suite :
      {workers : ℕ} {suites : List Suite} {s : Probing}
      → 0 < workers
      → ProbeReach workers name_of outcomes suites s
      → HasProbed workers name_of outcomes s
      → s.canceled ≡ false
      → (c : Bytes) → contains s.arrived c ≡ some_suite suites c
  arrived-some_suite {workers} {suites} {s} some_workers h (gone, empty) live c =
      let (drained, left) = IsOrderly-Reach h live in
      let m = manned-Reach h in
      let none_left = drained (left (omega arith)) in
      let none_probes = length-nil s.probing (omega arith) in
      let none_sends = length-nil s.sending (omega arith) in
      let due = is_due-Reach h live c in
      ground (arith, rw (none_left, none_probes, none_sends, empty) at due)

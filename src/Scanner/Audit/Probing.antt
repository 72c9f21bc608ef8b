-- ===== src/Scanner/Audit/Probing.antt =====
-- The pool of `ScanAudit` in pkg/ctscan/audit.go that probes ciphers: a feeder, the workers, the
-- channel of accepted ciphers and the loop that empties it, interleaved in any order.
pub mod Conserved
pub mod Progress
pub mod Laws
use ctscan.Base.{
  ℕ, zero, suc, ◌<◌, Bool, true, false, List, [], ◌∷◌, ◌++◌, Outcome, ◌≡◌, Bytes, length,
}
use ctscan.Base.Int.{ℤ, pos, negsuc}
use ctscan.Scanner.Audit.{Suite, CipherProbe, cipher_probes, accepted}
use ctscan.Scanner.Errors.{Error}
use ctscan.Types.{Result}

-- `cfg.CipherConcurrency`, as a number of workers
abbrev pub workers_of : ℤ → ℕ
workers_of (pos n) = n
workers_of (negsuc n) = 0

-- `pending` is left to the feeder. A worker is idle, makes a probe, holds a cipher to send, or is
-- departed. `buffer` is in the channel of the accepted ciphers, and `arrived` was taken out of it.
pub record Probing : Type 0 where
  pub pending : List CipherProbe
  pub closed : Bool
  pub idle : ℕ
  pub probing : List CipherProbe
  pub sending : List Bytes
  pub departed : ℕ
  pub buffer : List Bytes
  pub arrived : List Bytes
  pub canceled : Bool

abbrev pub no_probe_yet : ℕ → List CipherProbe → Probing
no_probe_yet workers probes = record {
  pending = probes;
  closed = false;
  idle = workers;
  probing = [];
  sending = [];
  departed = 0;
  buffer = [];
  arrived = [];
  canceled = false;
}

-- `name_of` is tls.CipherSuiteName of a probe's cipher, and `outcomes` are those of scanOnceWithTLS
-- at a probe's version and cipher; no probe is made twice.
module _ (workers : ℕ) (name_of : CipherProbe → Bytes)
    (outcomes : CipherProbe → Outcome Error Result) where
  pub data ProbeStep (s : Probing) : Probing → Type 0 where
    -- `jobs <- probe`, to a worker that waits
    hand_probe :
        {p : CipherProbe} {ps : List CipherProbe} {n : ℕ}
        → s.closed ≡ false
        → s.pending ≡ p ∷ ps
        → s.idle ≡ suc n
        → ProbeStep s (record s { pending = ps; idle = n; probing = p ∷ s.probing })
    -- `defer close(jobs)`, at the end of the probes or of the context
    probes_done : s.closed ≡ false → s.pending ≡ [] → ProbeStep s (record s { closed = true })
    probes_stopped : s.closed ≡ false → s.canceled ≡ true → ProbeStep s (record s { closed = true })
    -- `waitRate` returns an error, that of the context.
    rate_ended :
        (p : CipherProbe) (before after : List CipherProbe)
        → s.probing ≡ before ++ p ∷ after
        → s.canceled ≡ true
        → ProbeStep s (record s { probing = before ++ after; departed = suc s.departed })
    -- The probe is made, and its cipher is the one that was asked for, or it is not.
    accept :
        (p : CipherProbe) (before after : List CipherProbe) {cipher : Bytes}
        → s.probing ≡ before ++ p ∷ after
        → accepted (name_of p) (outcomes p) ≡ cipher ∷ []
        → ProbeStep s (record s { probing = before ++ after; sending = cipher ∷ s.sending })
    reject :
        (p : CipherProbe) (before after : List CipherProbe)
        → s.probing ≡ before ++ p ∷ after
        → accepted (name_of p) (outcomes p) ≡ []
        → ProbeStep s (record s { probing = before ++ after; idle = suc s.idle })
    -- `accepted <- attempt.TLS.Cipher`
    send_cipher :
        (cipher : Bytes) (before after : List Bytes)
        → s.sending ≡ before ++ cipher ∷ after
        → length s.buffer < workers
        → ProbeStep s (record s {
          sending = before ++ after;
          idle = suc s.idle;
          buffer = s.buffer ++ cipher ∷ [];
        })
    -- `<-ctx.Done()`, in place of sending
    abandon :
        (cipher : Bytes) (before after : List Bytes)
        → s.sending ≡ before ++ cipher ∷ after
        → s.canceled ≡ true
        → ProbeStep s (record s { sending = before ++ after; departed = suc s.departed })
    -- The jobs are closed.
    leave_probing :
        {n : ℕ}
        → s.closed ≡ true
        → s.idle ≡ suc n
        → ProbeStep s (record s { idle = n; departed = suc s.departed })
    -- `for cipher := range accepted`
    take_cipher :
        {cipher : Bytes} {more : List Bytes}
        → s.buffer ≡ cipher ∷ more
        → ProbeStep s (record s { buffer = more; arrived = s.arrived ++ cipher ∷ [] })

  -- What the pool may come to: the context may be canceled at any time.
  pub data ProbeReach (suites : List Suite) : Probing → Type 0 where
    set_out : ProbeReach suites (no_probe_yet workers (cipher_probes suites))
    make_step : {s t : Probing} → ProbeReach suites s → ProbeStep s t → ProbeReach suites t
    call_off :
        {s : Probing} → ProbeReach suites s → ProbeReach suites (record s { canceled = true })

  -- `workers.Wait()` returns, so the ciphers are closed, and all of them are taken.
  abbrev pub HasProbed : Probing → Type 0
  HasProbed s = (s.departed ≡ workers) × (s.buffer ≡ [])

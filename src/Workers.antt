-- ===== src/Workers.antt =====
-- The worker pools of `ScanStream` in pkg/ctscan/scanner.go and of `runWave` in internal/cli/cli.go:
-- a feeder, the workers, their two channels and the collector, interleaved in any order. A result
-- is kept with its target, which the source does not do; what a scan of a target may return is a
-- relation, a parameter. A collector whose `emit` fails stops at any time, and the rest is canceled.
pub mod Conserved
pub mod Results
pub mod Progress
pub mod Ordered
use ctscan.Base.{ℕ, suc, ◌<◌, Bool, true, false, List, [], ◌∷◌, ◌++◌, ◌≡◌, length}

-- The number of workers and the capacities of the two channels. The workers of `ScanStream` look at
-- the context when they wait for a target, those of `runWave` do not.
pub record Setup : Type 0 where
  pub workers : ℕ
  pub job_capacity : ℕ
  pub result_capacity : ℕ
  pub quits_idle : Bool

-- `runWave` without an audit: both channels hold `opts.concurrency` values, and `ScanStream` works.
abbrev pub stream_setup : ℕ → Setup
stream_setup concurrency = record {
  workers = concurrency;
  job_capacity = concurrency;
  result_capacity = concurrency;
  quits_idle = true;
}

-- `runWave` with an audit: the channel of the jobs holds none.
abbrev pub audit_setup : ℕ → Setup
audit_setup concurrency = record {
  workers = concurrency;
  job_capacity = 0;
  result_capacity = concurrency;
  quits_idle = false;
}

-- `pending` is left to the feeder and `queue` is in the channel of the jobs, which is closed or not.
-- A worker is idle, scans a target, holds a result to send_result, or is departed. `buffer` is in the channel
-- of the results, `emitted` was passed to the collector, and `lost` was given up.
pub record System (T R : Type 0) : Type 0 where
  pub pending : List T
  pub queue : List T
  pub closed : Bool
  pub idle : ℕ
  pub scanning : List T
  pub sending : List (T × R)
  pub departed : ℕ
  pub buffer : List (T × R)
  pub emitted : List (T × R)
  pub lost : List (T × R)
  pub canceled : Bool

abbrev pub init : {T R : Type 0} → Setup → List T → System T R
init setup targets = record {
  pending = targets;
  queue = [];
  closed = false;
  idle = setup.workers;
  scanning = [];
  sending = [];
  departed = 0;
  buffer = [];
  emitted = [];
  lost = [];
  canceled = false;
}

module _ {T R : Type 0} (setup : Setup) (Scans : T → R → Type 0) where
  -- One step of the feeder, of a worker or of the collector.
  pub data Step (s : System T R) : System T R → Type 0 where
    -- `channel <- target`
    feed :
        {t : T} {ts : List T}
        → s.closed ≡ false
        → s.pending ≡ t ∷ ts
        → length s.queue < setup.job_capacity
        → Step s (record s { pending = ts; queue = s.queue ++ t ∷ [] })
    -- The same, to a worker that waits.
    hand :
        {t : T} {ts : List T} {n : ℕ}
        → s.closed ≡ false
        → s.pending ≡ t ∷ ts
        → s.queue ≡ []
        → s.idle ≡ suc n
        → Step s (record s { pending = ts; idle = n; scanning = t ∷ s.scanning })
    -- `defer close(channel)`, at the end of the targets or of the context
    finish_feeding : s.closed ≡ false → s.pending ≡ [] → Step s (record s { closed = true })
    stop_feeding : s.closed ≡ false → s.canceled ≡ true → Step s (record s { closed = true })
    -- `target, ok := <-targets`
    take_job :
        {t : T} {ts : List T} {n : ℕ}
        → s.queue ≡ t ∷ ts
        → s.idle ≡ suc n
        → Step s (record s { queue = ts; idle = n; scanning = t ∷ s.scanning })
    -- `!ok`
    leave :
        {n : ℕ}
        → s.closed ≡ true
        → s.queue ≡ []
        → s.idle ≡ suc n
        → Step s (record s { idle = n; departed = suc s.departed })
    -- `<-ctx.Done()`, before a target is taken
    quit :
        {n : ℕ}
        → setup.quits_idle ≡ true
        → s.canceled ≡ true
        → s.idle ≡ suc n
        → Step s (record s { idle = n; departed = suc s.departed })
    -- `s.Scan(ctx, target)` returns.
    finish_scan :
        (t : T) (r : R) (before after : List T)
        → s.scanning ≡ before ++ t ∷ after
        → Scans t r
        → Step s (record s { scanning = before ++ after; sending = (t, r) ∷ s.sending })
    -- `results <- result`
    send_result :
        (x : T × R) (before after : List (T × R))
        → s.sending ≡ before ++ x ∷ after
        → length s.buffer < setup.result_capacity
        → Step s
            (record s { sending = before ++ after; idle = suc s.idle; buffer = s.buffer ++ x ∷ [] })
    -- `<-ctx.Done()`, in place of sending
    give_up :
        (x : T × R) (before after : List (T × R))
        → s.sending ≡ before ++ x ∷ after
        → s.canceled ≡ true
        → Step s
            (record s { sending = before ++ after; departed = suc s.departed; lost = x ∷ s.lost })
    -- `for result := range results`
    take_result :
        {x : T × R} {more : List (T × R)}
        → s.buffer ≡ x ∷ more
        → Step s (record s { buffer = more; emitted = s.emitted ++ x ∷ [] })

  -- What a wave may come to: the context may be canceled at any time.
  pub data Reach (targets : List T) : System T R → Type 0 where
    start : Reach targets (init setup targets)
    later : {s t : System T R} → Reach targets s → Step s t → Reach targets t
    cancel : {s : System T R} → Reach targets s → Reach targets (record s { canceled = true })

  -- `workers.Wait()` returns, so the results are closed, and the collector has taken all of them.
  abbrev pub IsEnded : System T R → Type 0
  IsEnded s = (s.departed ≡ setup.workers) × (s.buffer ≡ [])

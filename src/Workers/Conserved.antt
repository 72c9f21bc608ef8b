-- ===== src/Workers/Conserved.antt =====
-- No target is lost or scanned twice, whatever the order of the steps.
use ctscan.Base.{
  ℕ, ◌+◌, ◌≤◌, List, [], ◌∷◌, ◌++◌, ◌≡◌, refl, ap, ◌∙◌, arith, map, length, length-append,
}
use ctscan.Workers.{
  Setup, System, Step, feed, hand, finish_feeding, stop_feeding, take_job, leave, quit, finish_scan,
  send_result, give_up, take_result, Reach, start, later, cancel,
}
use ctscan.Base.Weights.{sum, sum-append}

module _ {T R : Type 0} where
  -- The target of a result.
  abbrev pub target_of : T × R → T
  target_of x = x.0

  -- What the targets weigh, wherever they are.
  abbrev pub weight : (T → ℕ) → System T R → ℕ
  weight f s =
      sum f s.pending
      + sum f s.queue
      + sum f s.scanning
      + sum (λ x. f x.0) s.sending
      + sum (λ x. f x.0) s.buffer
      + sum (λ x. f x.0) s.emitted
      + sum (λ x. f x.0) s.lost

  -- The targets without an emitted result.
  abbrev pub unreported : System T R → List T
  unreported s =
      s.pending
      ++ (s.queue
          ++ (s.scanning
              ++ (map target_of s.sending ++ (map target_of s.buffer ++ map target_of s.lost))))

module _ {T R : Type 0} (setup : Setup) (Scans : T → R → Type 0) where
  weight-Step : (f : T → ℕ) {s t : System T R} → Step setup Scans s t → weight f t ≡ weight f s
  weight-Step f {s} (feed {t} {ts} o p c) =
      omega (arith, ap (sum f) p, sum-append f s.queue (t ∷ []))
  weight-Step f {s} (hand o p q i) = omega (arith, ap (sum f) p)
  weight-Step f (finish_feeding o p) = refl
  weight-Step f (stop_feeding o c) = refl
  weight-Step f {s} (take_job q i) = omega (arith, ap (sum f) q)
  weight-Step f (leave c q i) = refl
  weight-Step f (quit a c i) = refl
  weight-Step f {s} (finish_scan t r before after p h) =
      omega (arith, ap (sum f) p, sum-append f before (t ∷ after), sum-append f before after)
  weight-Step f {s} (send_result x before after p c) =
      let g : T × R → ℕ = λ y. f y.0 in
      omega (
        arith,
        ap (sum g) p,
        sum-append g before (x ∷ after),
        sum-append g before after,
        sum-append g s.buffer (x ∷ []),
      )
  weight-Step f {s} (give_up x before after p c) =
      let g : T × R → ℕ = λ y. f y.0 in
      omega (arith, ap (sum g) p, sum-append g before (x ∷ after), sum-append g before after)
  weight-Step f {s} (take_result {x} p) =
      let g : T × R → ℕ = λ y. f y.0 in omega (arith, ap (sum g) p, sum-append g s.emitted (x ∷ []))

  pub weight-Reach :
      (f : T → ℕ) {targets : List T} {s : System T R}
      → Reach setup Scans targets s
      → weight f s ≡ sum f targets
  weight-Reach f start = omega arith
  weight-Reach f (later h step) = weight-Step f step ∙ weight-Reach f h
  weight-Reach f (cancel h) = weight-Reach f h

  -- The workers, wherever they are.
  abbrev manned : System T R → ℕ
  manned s = s.idle + length s.scanning + length s.sending + s.departed

  manned-Step : {s t : System T R} → Step setup Scans s t → manned t ≡ manned s
  manned-Step (feed o p c) = refl
  manned-Step (hand o p q i) = omega (arith, i)
  manned-Step (finish_feeding o p) = refl
  manned-Step (stop_feeding o c) = refl
  manned-Step (take_job q i) = omega (arith, i)
  manned-Step (leave c q i) = omega (arith, i)
  manned-Step (quit a c i) = omega (arith, i)
  manned-Step (finish_scan t r before after p h) =
      omega (arith, ap length p, length-append before (t ∷ after), length-append before after)
  manned-Step (send_result x before after p c) =
      omega (arith, ap length p, length-append before (x ∷ after), length-append before after)
  manned-Step (give_up x before after p c) =
      omega (arith, ap length p, length-append before (x ∷ after), length-append before after)
  manned-Step (take_result p) = refl

  -- The workers stay as many as they were, and the channels within their capacities.
  abbrev pub IsBounded : System T R → Type 0
  IsBounded s =
      (s.idle + length s.scanning + length s.sending + s.departed ≡ setup.workers)
      × (length s.queue ≤ setup.job_capacity)
      × (length s.buffer ≤ setup.result_capacity)

  abbrev Fits : System T R → Type 0
  Fits s = (length s.queue ≤ setup.job_capacity) × (length s.buffer ≤ setup.result_capacity)

  Fits-Step : {s t : System T R} → Step setup Scans s t → Fits s → Fits t
  Fits-Step {s} (feed {t} o p c) (q, b) = (omega (arith, length-append s.queue (t ∷ [])), b)
  Fits-Step (hand o p e i) fits = fits
  Fits-Step (finish_feeding o p) fits = fits
  Fits-Step (stop_feeding o c) fits = fits
  Fits-Step (take_job e i) (q, b) = (omega (arith, ap length e), b)
  Fits-Step (leave c e i) fits = fits
  Fits-Step (quit a c i) fits = fits
  Fits-Step (finish_scan t r before after p h) fits = fits
  Fits-Step {s} (send_result x before after p c) (q, b) =
      (q, omega (arith, length-append s.buffer (x ∷ [])))
  Fits-Step (give_up x before after p c) fits = fits
  Fits-Step (take_result p) (q, b) = (q, omega (arith, ap length p))

  -- At every time there are as many workers as at the start, and no channel holds more than it can.
  pub Reach-IsBounded :
      {targets : List T} {s : System T R} → Reach setup Scans targets s → IsBounded s
  Reach-IsBounded start = (omega arith, omega arith, omega arith)
  Reach-IsBounded (later h step) =
      let (m, q, b) = Reach-IsBounded h in
      let (q', b') = Fits-Step step (q, b) in (manned-Step step ∙ m, q', b')
  Reach-IsBounded (cancel h) = Reach-IsBounded h

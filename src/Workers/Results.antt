-- ===== src/Workers/Results.antt =====
-- What a pool emits, at its end and before, with a cancellation or not.
use mathlib.Core.List.{Perm}
use ctscan.Base.{
  ℕ, ◌<◌, true, false, List, [], ◌∷◌, ◌++◌, ◌≡◌, refl, ap, ◌∙◌, arith, Eq, map, All, All-append,
  append-nil, length-nil,
}
use ctscan.Workers.{
  Setup, System, Step, feed, hand, finish_feeding, stop_feeding, take_job, leave, quit, finish_scan,
  send_result, give_up, take_result, Reach, start, later, cancel, IsEnded,
}
use ctscan.Workers.Conserved.{target_of, weight, unreported, weight-Reach, Reach-IsBounded}
use ctscan.Base.Weights.{sum, sum-append, sum-map, weights-Perm}

module _ {T R : Type 0} (setup : Setup) (Scans : T → R → Type 0) where
  -- Every result is one that a finish_scan of its target may return.
  abbrev AreScans : List (T × R) → Type 0
  AreScans = All (λ x. Scans x.0 x.1)

  abbrev HasScans : System T R → Type 0
  HasScans s = AreScans s.sending × AreScans s.buffer × AreScans s.emitted

  All-without :
      (before after : List (T × R)) (x : T × R) (xs : List (T × R))
      → xs ≡ before ++ x ∷ after
      → AreScans xs
      → Scans x.0 x.1 × AreScans (before ++ after)
  All-without [] after x xs e h = rw e at h
  All-without (y ∷ before) after x xs e h =
      let (hy, rest) : AreScans (y ∷ (before ++ x ∷ after)) = rw e at h in
      let (hx, others) = All-without before after x (before ++ x ∷ after) refl rest in
      (hx, (hy, others))

  HasScans-Step : {s t : System T R} → Step setup Scans s t → HasScans s → HasScans t
  HasScans-Step (feed o p c) h = h
  HasScans-Step (hand o p e i) h = h
  HasScans-Step (finish_feeding o p) h = h
  HasScans-Step (stop_feeding o c) h = h
  HasScans-Step (take_job e i) h = h
  HasScans-Step (leave c e i) h = h
  HasScans-Step (quit a c i) h = h
  HasScans-Step (finish_scan t r before after p q) (hs, hb, he) = ((q, hs), hb, he)
  HasScans-Step {s} (send_result x before after p c) (hs, hb, he) =
      let (hx, rest) = All-without before after x s.sending p hs in
      (rest, All-append (λ y. Scans y.0 y.1) s.buffer (x ∷ []) hb (hx, tt), he)
  HasScans-Step {s} (give_up x before after p c) (hs, hb, he) =
      ((All-without before after x s.sending p hs).1, hb, he)
  HasScans-Step {s} (take_result {x} {more} p) (hs, hb, he) =
      let (hx, rest) = All-without [] more x s.buffer p hb in
      (hs, rest, All-append (λ y. Scans y.0 y.1) s.emitted (x ∷ []) he (hx, tt))

  HasScans-Reach : {targets : List T} {s : System T R} → Reach setup Scans targets s → HasScans s
  HasScans-Reach start = (tt, tt, tt)
  HasScans-Reach (later h step) = HasScans-Step step (HasScans-Reach h)
  HasScans-Reach (cancel h) = HasScans-Reach h

  pub sum-unreported :
      (f : T → ℕ) (s : System T R) → sum f (map target_of s.emitted ++ unreported s) ≡ weight f s
  sum-unreported f s =
      let ts = map target_of s.sending in
      let tb = map target_of s.buffer in
      let tl = map target_of s.lost in
      omega (
        arith,
        sum-append f (map target_of s.emitted) (unreported s),
        sum-append f s.pending (s.queue ++ (s.scanning ++ (ts ++ (tb ++ tl)))),
        sum-append f s.queue (s.scanning ++ (ts ++ (tb ++ tl))),
        sum-append f s.scanning (ts ++ (tb ++ tl)),
        sum-append f ts (tb ++ tl),
        sum-append f tb tl,
        sum-map f target_of s.emitted,
        sum-map f target_of s.sending,
        sum-map f target_of s.buffer,
        sum-map f target_of s.lost,
      )

  -- At every time, canceled or not, the targets of the emitted results and the targets that have
  -- none are the targets of the wave, each as often as it is listed, and every emitted result is one
  -- that a finish_scan of its target returns.
  pub Reach-Perm :
      ⦃eq : Eq T⦄
      → {targets : List T} {s : System T R} → Reach setup Scans targets s
      → Perm (map target_of s.emitted ++ unreported s) targets × All (λ x. Scans x.0 x.1) s.emitted
  Reach-Perm {targets} {s} h = (
    weights-Perm (map target_of s.emitted ++ unreported s) targets
        (λ f. sum-unreported f s ∙ weight-Reach setup Scans f h),
    (HasScans-Reach h).2,
  )

  -- Without a cancellation nothing is given up, and no worker leaves before the last target is taken.
  abbrev IsOrderly : System T R → Type 0
  IsOrderly s =
      s.canceled ≡ false
      → (s.lost ≡ [])
        × (s.closed ≡ true → s.pending ≡ [])
        × (0 < s.departed → (s.closed ≡ true) × (s.queue ≡ []))

  IsOrderly-Step : {s t : System T R} → Step setup Scans s t → IsOrderly s → IsOrderly t
  IsOrderly-Step (feed o p c) h live =
      let (l, e, g) = h live in (l, λ k. cc, λ k. let (shut, q) = g k in cc)
  IsOrderly-Step (hand o p q i) h live =
      let (l, e, g) = h live in (l, λ k. cc, λ k. let (shut, q') = g k in cc)
  IsOrderly-Step (finish_feeding o p) h live =
      let (l, e, g) = h live in (l, λ k. p, λ k. let (shut, q) = g k in cc)
  IsOrderly-Step (stop_feeding o c) h live = cc
  IsOrderly-Step (take_job e i) h live =
      let (l, k, g) = h live in (l, k, λ some_gone. let (shut, q) = g some_gone in cc)
  IsOrderly-Step (leave c q i) h live = let (l, e, g) = h live in (l, e, λ k. (c, q))
  IsOrderly-Step (quit a c i) h live = cc
  IsOrderly-Step (finish_scan t r before after p q) h live = h live
  IsOrderly-Step (send_result x before after p c) h live = h live
  IsOrderly-Step (give_up x before after p c) h live = cc
  IsOrderly-Step (take_result p) h live = h live

  IsOrderly-Reach : {targets : List T} {s : System T R} → Reach setup Scans targets s → IsOrderly s
  IsOrderly-Reach start live = (refl, λ k. cc, λ k. absurd (omega (arith, k)))
  IsOrderly-Reach (later h step) live = IsOrderly-Step step (IsOrderly-Reach h) live
  IsOrderly-Reach (cancel h) live = cc

  -- A wave of targets: each has one result, in any order, that a finish_scan of it may return.
  abbrev pub IsWave : List T → List (T × R) → Type 0
  IsWave targets results = Perm (map target_of results) targets × All (λ x. Scans x.0 x.1) results

  unreported-ended :
      {targets : List T} {s : System T R}
      → 0 < setup.workers
      → Reach setup Scans targets s
      → IsEnded setup Scans s
      → s.canceled ≡ false
      → unreported s ≡ []
  unreported-ended {targets} {s} some h (all_gone, empty) live =
      let (l, e, g) = IsOrderly-Reach h live in
      let (m, q, b) = Reach-IsBounded setup Scans h in
      let (closed, drained) = g (omega arith) in
      rw
        (
          e closed,
          drained,
          length-nil s.scanning (omega arith),
          length-nil s.sending (omega arith),
          empty,
          l,
        )
        refl

  -- A pool with some worker that ends without a cancellation has emitted one result for each target
  -- of its wave and no other, each one that a finish_scan of its target returns.
  pub Reach-IsWave :
      ⦃eq : Eq T⦄
      → {targets : List T} {s : System T R} → 0 < setup.workers
      → Reach setup Scans targets s
      → IsEnded setup Scans s
      → s.canceled ≡ false
      → IsWave targets s.emitted
  Reach-IsWave {targets} {s} some h ended live =
      let (p, each) = Reach-Perm h in
      let e : map target_of s.emitted ++ unreported s ≡ map target_of s.emitted =
        ap (λ ts. map target_of s.emitted ++ ts) (unreported-ended some h ended live)
        ∙ append-nil (map target_of s.emitted) in
      (rw⁻¹ e p, each)

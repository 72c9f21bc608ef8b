-- ===== src/Snapshot/Reading/Laws.antt =====
-- What `Read` keeps of a file, and that `Identity` tells endpoints apart.
use ctscan.Base.{
  ℕ, suc, List, [], ◌∷◌, Option, none, some, if◌then◌else◌, ◌==◌, text_eq, Bytes, Outcome, ok, err,
  ◌≡◌, ◌⊎◌, ◌↔◌, refl, ap, ◌∙◌, arith, Bool-cases, inl, inr, bind-eq-ok, Distinct, All,
}
use ctscan.Base.Maps.{put, lookup, lookup-put, put-Distinct, keys}
use ctscan.Base.Text.{trim_space}
use ctscan.Snapshot.Changes.{Snapshot}
use ctscan.Snapshot.Reading.{identity, decoded, read_line, read_lines, ended, read}
use ctscan.Types.{Result}

module _ {E : Type 0} (decode : Bytes → Outcome E Result) where
  kept : Bytes → Outcome E Result → Option Result
  kept k (err e) = none
  kept k (ok r) = if k == identity r then some r else none

  -- What a line that is not blank decodes to, if that is of this identity.
  own : Bytes → Bytes → Option Result
  unfolding kept
  own text k = if trim_space text == [] then none else kept k (decode text)

  or_else : Option Result → Option Result → Option Result
  or_else none o = o
  or_else (some r) o = some r

  -- The result of the last line that has one of this identity.
  unfoldable pub last_of : List Bytes → Bytes → Option Result
  unfolding own or_else
  last_of [] k = none
  last_of (text ∷ lines) k = or_else (last_of lines k) (own text k)

  -- The line is blank, or decodes.
  abbrev pub IsReadable : Bytes → Type 0
  IsReadable text = (trim_space text ≡ []) ⊎ ((r : Result) × (decode text ≡ ok r))

  decoded-eq-ok :
      (line : ℕ) (results : Snapshot) (o : Outcome E Result) {results' : Snapshot}
      → decoded decode line results o ≡ ok results'
      → (r : Result) × (o ≡ ok r) × (put results (identity r) r ≡ results')
  unfolding decoded
  decoded-eq-ok line results (err e) h = cc
  decoded-eq-ok line results (ok r) h = (r, refl, cc)

  -- What a round of the loop does to the results.
  abbrev After : Bytes → Snapshot → Snapshot → Type 0
  After text results results' =
      IsReadable text
      × ((k : Bytes) → lookup results' k ≡ or_else (own text k) (lookup results k))
      × (Distinct (keys results) → Distinct (keys results'))

  read_line_lem :
      (line : ℕ) (text : Bytes) (results : Snapshot) {results' : Snapshot}
      → read_line decode line text results ≡ ok results'
      → After text results results'
  unfolding read_line own or_else
  read_line_lem line text results {results'} h = elim (Bool-cases (trim_space text == [])) [
    | inl blank ↦ (inl (ground arith), λ k. ground arith, λ d. ground arith)
    | inr filled ↦
        let (r, q, p) = decoded-eq-ok line results (decode text) (rw filled at h) in
        (
          inr (r, q),
          λ k. rw⁻¹ p (rw (filled, q) (ground (arith, lookup-put results (identity r) r k))),
          λ d. rw⁻¹ p (put-Distinct results (identity r) r d),
        )
  ]

  or_else_assoc : (a b c : Option Result) → or_else a (or_else b c) ≡ or_else (or_else a b) c
  unfolding or_else
  or_else_assoc none b c = refl
  or_else_assoc (some r) b c = refl

  read_lines_lem :
      (lines : List Bytes) (line : ℕ) (results : Snapshot) {s : Snapshot}
      → read_lines decode lines line results ≡ ok s
      → All IsReadable lines
        × ((k : Bytes) → lookup s k ≡ or_else (last_of lines k) (lookup results k))
        × (Distinct (keys results) → Distinct (keys s))
  unfolding read_lines last_of or_else
  read_lines_lem [] line results h = (tt, λ k. cc, λ d. ground arith)
  read_lines_lem (text ∷ lines) line results h =
      let (results', first, rest) =
        bind-eq-ok (read_line decode (suc line) text results) (read_lines decode lines (suc line))
          h in
      let (readable, found, distinct) = read_line_lem (suc line) text results first in
      let (readable', found', distinct') = read_lines_lem lines (suc line) results' rest in
      (
        (readable, readable'),
        λ k.
            found' k
            ∙ ap (or_else (last_of lines k)) (found k)
            ∙ or_else_assoc (last_of lines k) (own text k) (lookup results k),
        λ d. distinct' (distinct d),
      )

  read_line-IsReadable :
      (line : ℕ) (text : Bytes) (results : Snapshot)
      → IsReadable text
      → (results' : Snapshot) × (read_line decode line text results ≡ ok results')
  unfolding read_line decoded
  read_line-IsReadable line text results (inl blank) = (results, ground arith)
  read_line-IsReadable line text results (inr (r, q)) = elim (Bool-cases (trim_space text == [])) [
    | inl blank ↦ (results, rw blank)
    | inr filled ↦ (put results (identity r) r, rw (filled, q))
  ]

  read_lines-IsReadable :
      (lines : List Bytes) (line : ℕ) (results : Snapshot)
      → All IsReadable lines
      → (s : Snapshot) × (read_lines decode lines line results ≡ ok s)
  unfolding read_lines
  read_lines-IsReadable [] line results h = (results, refl)
  read_lines-IsReadable (text ∷ lines) line results (h, hs) =
      let (results', first) = read_line-IsReadable (suc line) text results h in
      let (s, rest) = read_lines-IsReadable lines (suc line) results' hs in (s, rw first rest)

  -- What is read: no endpoint twice, and for each the last result recorded for it.
  abbrev pub Holds : List Bytes → Snapshot → Type 0
  Holds lines s = Distinct (keys s) × ((k : Bytes) → lookup s k ≡ last_of lines k)

  ended-eq-ok :
      (o : Option E) (results : Snapshot) {s : Snapshot}
      → ended decode o results ≡ ok s
      → (o ≡ none) × (results ≡ s)
  unfolding ended
  ended-eq-ok none results h = (refl, cc)
  ended-eq-ok (some e) results h = cc

  -- What a successful reading has done.
  abbrev Read : List Bytes → Option E → Snapshot → Type 0
  Read lines scan_err s = (scan_err ≡ none) × All IsReadable lines × Holds lines s

  or_else-none : (o : Option Result) → or_else o none ≡ o
  unfolding or_else
  or_else-none none = refl
  or_else-none (some r) = refl

  read_lem :
      (lines : List Bytes) (scan_err : Option E) (s : Snapshot)
      → read decode lines scan_err ≡ ok s
      → Read lines scan_err s
  unfolding read
  read_lem lines scan_err s h =
      let (s', lines_ok, end_ok) =
        bind-eq-ok (read_lines decode lines 0 []) (ended decode scan_err) h in
      let (no_error, same) = ended-eq-ok scan_err s' end_ok in
      let (readable, found, distinct) = read_lines_lem lines 0 [] (lines_ok ∙ ap ok same) in
      (no_error, readable, (distinct tt, λ k. found k ∙ or_else-none (last_of lines k)))

  -- Reading succeeds exactly when the reader ends without an error and each line is blank or
  -- decodes; the snapshot then lists no endpoint twice and has for each the last result recorded
  -- for it.
  pub read_iff :
      (lines : List Bytes) (scan_err : Option E)
      → (((s : Snapshot) × (read decode lines scan_err ≡ ok s))
          ↔ ((scan_err ≡ none) × All IsReadable lines))
        × ((s : Snapshot) → read decode lines scan_err ≡ ok s → Holds lines s)
  unfolding read ended
  read_iff lines scan_err = (
    (
      λ (s, h).
          let (no_error, readable, holds) = read_lem lines scan_err s h in (no_error, readable),
      λ (no_error, readable).
          let (s, h) = read_lines-IsReadable lines 0 [] readable in (s, rw (no_error, h)),
    ),
    λ s h. let (no_error, readable, holds) = read_lem lines scan_err s h in holds,
  )

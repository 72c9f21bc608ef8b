-- ===== src/Scanner/Findings/Compliance.antt =====
-- What `complianceFor` returns.
use ctscan.Base.{
  Bool, true, false, ◌||◌, List, [], ◌∷◌, ◌++◌, ◌≡◌, refl, ap, ◌∙◌, arith, if◌then◌else◌, ◌==◌,
  text_eq, Bytes, sym,
}
use ctscan.Scanner.Findings.{
  critical, high, medium, low, pass, warn, fail, compliance_loop, compliance_for,
}
use ctscan.Types.{Finding}

-- Some finding is critical or high.
abbrev pub has_serious : List Finding → Bool
has_serious [] = false
has_serious (f ∷ fs) = (f.severity == critical || f.severity == high) || has_serious fs

-- Some finding is medium or low.
abbrev pub has_mild : List Finding → Bool
has_mild [] = false
has_mild (f ∷ fs) = (f.severity == medium || f.severity == low) || has_mild fs

join :
    (s m s' m' : Bool) (c : Bytes)
    → (if s then fail else if s' then fail else if m' then warn else if m then warn else c)
      ≡ (if s || s' then fail else if m || m' then warn else c)
join true m s' m' c = refl
join false true s' m' c = ground arith
join false false s' m' c = refl

compliance_loop_lem :
    (compliance : Bytes) (fs : List Finding)
    → compliance_loop compliance fs
      ≡ (if has_serious fs then fail else if has_mild fs then warn else compliance)
unfolding compliance_loop
compliance_loop_lem compliance [] = refl
compliance_loop_lem compliance (f ∷ fs) =
    let serious = f.severity == critical || f.severity == high in
    let mild = f.severity == medium || f.severity == low in
    ap (λ rest. if serious then fail else rest)
      (compliance_loop_lem (if mild then warn else compliance) fs)
    ∙ join serious mild (has_serious fs) (has_mild fs) compliance

-- The compliance is `fail` when some finding is critical or high, else `warn` when some finding is
-- medium or low, else `pass`.
pub compliance_for_lem :
    (fs : List Finding)
    → compliance_for fs ≡ (if has_serious fs then fail else if has_mild fs then warn else pass)
unfolding compliance_for
compliance_for_lem = compliance_loop_lem pass

or_assoc : (a b c : Bool) → (a || (b || c)) ≡ ((a || b) || c)
or_assoc a b c = ground arith

pub has_serious-append :
    (fs gs : List Finding) → has_serious (fs ++ gs) ≡ (has_serious fs || has_serious gs)
has_serious-append [] gs = refl
has_serious-append (f ∷ fs) gs =
    rw (has_serious-append fs gs)
      (or_assoc (f.severity == critical || f.severity == high) (has_serious fs) (has_serious gs))

pub has_mild-append : (fs gs : List Finding) → has_mild (fs ++ gs) ≡ (has_mild fs || has_mild gs)
has_mild-append [] gs = refl
has_mild-append (f ∷ fs) gs =
    rw (has_mild-append fs gs)
      (or_assoc (f.severity == medium || f.severity == low) (has_mild fs) (has_mild gs))

not_pass : (text : Bytes) → (text == pass) ≡ false → text ≡ pass → ⊥
not_pass text differs same = ground arith

grades_test : ((fail == pass) ≡ false) × ((warn == pass) ≡ false)
unfolding text_eq
grades_test = (refl, refl)

-- The grade is `pass` only if neither test holds.
pub graded :
    (a b : Bool) → (if a then fail else if b then warn else pass) ≡ pass → (a ≡ false) × (b ≡ false)
graded true b h = absurd (not_pass fail grades_test.0 h)
graded false true h = absurd (not_pass warn grades_test.1 h)
graded false false h = (refl, refl)

-- Findings pass together only if they pass apart.
pub compliance-append-pass :
    (fs gs : List Finding)
    → compliance_for (fs ++ gs) ≡ pass
    → (compliance_for fs ≡ pass) × (compliance_for gs ≡ pass)
compliance-append-pass fs gs h =
    let (serious, mild) =
      graded (has_serious (fs ++ gs)) (has_mild (fs ++ gs))
        (sym (compliance_for_lem (fs ++ gs)) ∙ h) in
    (
      compliance_for_lem fs
          ∙ ground (arith, serious, mild, has_serious-append fs gs, has_mild-append fs gs),
      compliance_for_lem gs
          ∙ ground (arith, serious, mild, has_serious-append fs gs, has_mild-append fs gs),
    )

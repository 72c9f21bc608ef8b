-- ===== src/Tests/SnapshotTests.antt =====
-- The theorems on internal/snapshot/diff.go at concrete inputs.
use ctscan.Base.{
  ◌≡◌, ◌↔◌, refl, List, [], ◌∷◌, Option, none, some, Outcome, ok, err, arith, if◌then◌else◌, ◌==◌,
  text_eq, nat_eq, contains, Bytes, codes, All,
}
use ctscan.Snapshot.Changes.{Change, change_eq, Snapshot, diff, san_added, asset_added}
use ctscan.Snapshot.Changes.Laws.{is_due, contains-diff}
use ctscan.Snapshot.Changes.Order.{diff-same}
use ctscan.Snapshot.Reading.{read, identity}
use ctscan.Snapshot.Reading.Identity.{identity-injective}
use ctscan.Snapshot.Reading.Laws.{read_iff, IsReadable, Holds}
use ctscan.Tests.Samples.{good_result}
use ctscan.Types.{Result}

abbrev first_result : Result
first_result = good_result (codes "a") (codes "a" ∷ [])

abbrev second_result : Result
second_result = good_result (codes "a") (codes "a" ∷ codes "b" ∷ [])

abbrev yesterday : Snapshot
yesterday = (codes "one", first_result) ∷ []

abbrev today : Snapshot
today = (codes "two", first_result) ∷ (codes "one", second_result) ∷ []

abbrev expected_changes : List Change
expected_changes = san_added (codes "one") (codes "b") ∷ asset_added (codes "two") ∷ []

diff_test : diff yesterday today ≡ expected_changes
unfolding diff text_eq
diff_test = refl

contains-diff_example :
    contains (diff yesterday today) (san_added (codes "one") (codes "b"))
    ≡ is_due (some first_result) (some second_result) (san_added (codes "one") (codes "b"))
unfolding text_eq
contains-diff_example =
    contains-diff yesterday today (san_added (codes "one") (codes "b")) (refl, tt)
      (refl, (refl, tt))

diff-same_example : diff yesterday yesterday ≡ []
diff-same_example = diff-same yesterday yesterday (refl, tt) (refl, tt) (λ k. refl)

abbrev test_decode : Bytes → Outcome Bytes Result
test_decode text = if text == codes "{}" then ok first_result else err (codes "bad")

abbrev test_lines : List Bytes
test_lines = codes "{}" ∷ codes " " ∷ []

read_iff_example :
    (((s : Snapshot) × (read test_decode test_lines none ≡ ok s))
      ↔ ((◌≡◌ {A = Option Bytes} none none) × All (IsReadable test_decode) test_lines))
    × ((s : Snapshot) → read test_decode test_lines none ≡ ok s → Holds test_decode test_lines s)
read_iff_example = read_iff test_decode test_lines none

identity-injective_example :
    (first_result.host ≡ second_result.host)
    × (first_result.ip ≡ second_result.ip)
    × (first_result.port ≡ second_result.port)
    × (first_result.sni ≡ second_result.sni)
identity-injective_example =
    identity-injective first_result second_result (omega arith, tt) (omega arith, tt) tt tt
      (omega arith) (omega arith) (unfold identity in refl)

-- ===== src/Snapshot/Changes/Order.antt =====
-- The order in which `Diff` lists changes, and that equal snapshots have none.
use ctscan.Base.{
  true, false, List, [], ◌∷◌, ◌++◌, Option, none, some, contains, text_eq, Bytes, ◌≡◌, refl, ◌∙◌,
  arith, Distinct, ==_refl,
}
use ctscan.Base.Maps.{lookup, keys, collected}
use ctscan.Base.Sort.{IsSorted, sort-IsSorted}
use ctscan.Base.TextOrder.{le_text_total, le_text_trans, le_text_antisym}
use ctscan.Snapshot.Changes.{Change, change_eq, Snapshot, le_change, diff, endpoint, gone}
use ctscan.Snapshot.Changes.Laws.{is_due, contains-diff}
use ctscan.Types.{Result}

le_change_total : (a b : Change) → le_change a b ≡ false → le_change b a ≡ true
unfolding le_change
le_change_total a b h =
    ground (arith, le_text_total a.kind b.kind, le_text_total a.identity b.identity)

le_change_trans :
    (a b c : Change) → le_change a b ≡ true → le_change b c ≡ true → le_change a c ≡ true
unfolding le_change
le_change_trans a b c h k = ground (
  arith,
  le_text_trans a.kind b.kind c.kind,
  le_text_trans a.identity b.identity c.identity,
  le_text_antisym a.identity b.identity,
)

-- The changes are listed by their endpoints and, for one endpoint, by their kinds.
pub diff-IsSorted : (before after : Snapshot) → IsSorted le_change (diff before after)
unfolding diff
diff-IsSorted before after = sort-IsSorted le_change le_change_total le_change_trans (
    collected (λ identity current. endpoint (lookup before identity) identity current) after
    ++ collected (λ identity previous. gone (lookup after identity) identity) before)

is_due-same : (o : Option Result) (c : Change) → is_due o o c ≡ false
is_due-same none c = refl
is_due-same (some r) c = ground arith

nothing-contained : (cs : List Change) → ((c : Change) → contains cs c ≡ false) → cs ≡ []
nothing-contained [] h = refl
nothing-contained (c ∷ cs) h = ground (arith, h c, ==_refl c)

-- Snapshots that hold the same results have no changes, whatever the orders of their entries.
pub diff-same :
    (before after : Snapshot)
    → Distinct (keys before)
    → Distinct (keys after)
    → ((identity : Bytes) → lookup before identity ≡ lookup after identity)
    → diff before after ≡ []
diff-same before after distinct distinct' same = nothing-contained (diff before after) (λ c.
    contains-diff before after c distinct distinct'
    ∙ rw (same c.identity) (is_due-same (lookup after c.identity) c))

-- ===== src/Snapshot/Changes/Laws.antt =====
-- What `Diff` reports, described by lookups in both snapshots, and in which order.
use ctscan.Base.{
  Bool, true, false, ◌&&◌, ◌||◌, not, List, [], ◌∷◌, Option, none, some, if◌then◌else◌, ◌==◌,
  contains, text_eq, Bytes, ltb, ◌≡◌, refl, sym, ◌∙◌, arith, Distinct, contains-append,
}
use ctscan.Base.Maps.{lookup, of_entry, contains-collected, keys}
use ctscan.Base.Sort.{contains-sort}
use ctscan.Base.TextOrder.{contains-sort_unique}
use ctscan.Snapshot.Changes.{
  Change, change_eq, fingerprint, names_of, names, difference, compliance, compliance_rank,
  asset_added, asset_removed, certificate_changed, san_added, san_removed, security_regression,
  added_names, removed_names, endpoint, gone, Snapshot, diff,
}
use ctscan.Types.{Result, Certificate}

-- The certificate, if there is one, lists the name.
abbrev pub has_name : Option Certificate → Bytes → Bool
has_name none name = false
has_name (some certificate) name = contains certificate.dns_names name

-- Whether a change between two results of the endpoint `identity` is to be reported.
abbrev pub differs : Bytes → Result → Result → Change → Bool
differs identity previous current c =
    (c == certificate_changed identity previous current
      && not (fingerprint previous == fingerprint current))
    || (c == san_added identity c.detail
        && (has_name current.certificate c.detail && not (has_name previous.certificate c.detail)))
    || (c == san_removed identity c.detail
        && (has_name previous.certificate c.detail && not (has_name current.certificate c.detail)))
    || (c == security_regression identity previous current
        && ltb (compliance_rank (compliance previous)) (compliance_rank (compliance current)))

-- Whether a change is to be reported, by the results of its endpoint in both snapshots.
abbrev pub is_due : Option Result → Option Result → Change → Bool
is_due none none c = false
is_due none (some current) c = c == asset_added c.identity
is_due (some previous) none c = c == asset_removed c.identity
is_due (some previous) (some current) c = differs c.identity previous current c

contains-names_of :
    (o : Option Certificate) (name : Bytes) → contains (names_of o) name ≡ has_name o name
unfolding names_of
contains-names_of none name = refl
contains-names_of (some certificate) name = contains-sort_unique certificate.dns_names name

pub contains-difference :
    (left right : List Bytes) (a : Bytes)
    → contains (difference left right) a ≡ (contains left a && not (contains right a))
unfolding difference
contains-difference [] right a = refl
contains-difference (x ∷ left) right a = ground (arith, contains-difference left right a)

contains-added_names :
    (identity : Bytes) (ns : List Bytes) (c : Change)
    → contains (added_names identity ns) c
      ≡ (c == san_added identity c.detail && contains ns c.detail)
unfolding added_names
contains-added_names identity [] c = ground arith
contains-added_names identity (n ∷ ns) c = ground (arith, contains-added_names identity ns c)

contains-removed_names :
    (identity : Bytes) (ns : List Bytes) (c : Change)
    → contains (removed_names identity ns) c
      ≡ (c == san_removed identity c.detail && contains ns c.detail)
unfolding removed_names
contains-removed_names identity [] c = ground arith
contains-removed_names identity (n ∷ ns) c = ground (arith, contains-removed_names identity ns c)

contains-unless :
    (b : Bool) (x c : Change) → contains (if b then [] else x ∷ []) c ≡ (c == x && not b)
contains-unless b x c = ground arith

contains-when : (b : Bool) (x c : Change) → contains (if b then x ∷ [] else []) c ≡ (c == x && b)
contains-when b x c = ground arith

contains-endpoint :
    (previous : Result) (identity : Bytes) (current : Result) (c : Change)
    → contains (endpoint (some previous) identity current) c ≡ differs identity previous current c
unfolding endpoint names
contains-endpoint previous identity current c = rw (
  contains-append, contains-append, contains-append, contains-unless, contains-added_names,
  contains-removed_names, contains-when, contains-difference, contains-difference,
  contains-names_of, contains-names_of,
)

differs-keyed :
    (identity : Bytes) (previous current : Result) (c : Change)
    → differs identity previous current c ≡ true
    → c.identity ≡ identity
differs-keyed identity previous current c h = ground arith

endpoint-keyed :
    (o : Option Result) (identity : Bytes) (current : Result) (c : Change)
    → contains (endpoint o identity current) c ≡ true
    → c.identity ≡ identity
endpoint-keyed none identity current c h = unfold endpoint in ground arith
endpoint-keyed (some previous) identity current c h =
    differs-keyed identity previous current c
      (sym (contains-endpoint previous identity current c) ∙ h)

gone-keyed :
    (o : Option Result) (identity : Bytes) (c : Change)
    → contains (gone o identity) c ≡ true
    → c.identity ≡ identity
unfolding gone
gone-keyed none identity c h = ground arith
gone-keyed (some current) identity c h = cc

entries-is_due :
    (c : Change) (o o' : Option Result)
    → (contains (of_entry (λ identity current. endpoint o identity current) c.identity o') c
        || contains (of_entry (λ identity previous. gone o' identity) c.identity o) c)
      ≡ is_due o o' c
unfolding gone
entries-is_due c none none = refl
entries-is_due c none (some current) = unfold endpoint in ground arith
entries-is_due c (some previous) none = ground arith
entries-is_due c (some previous) (some current) =
    rw (contains-endpoint previous c.identity current c) (ground arith)

-- A change is reported exactly when the results of its endpoint in both snapshots make it due, if
-- no endpoint is listed twice in a snapshot.
pub contains-diff :
    (before after : Snapshot) (c : Change)
    → Distinct (keys before)
    → Distinct (keys after)
    → contains (diff before after) c ≡ is_due (lookup before c.identity) (lookup after c.identity) c
unfolding diff
contains-diff before after c distinct distinct' =
    rw (contains-sort, contains-append)
      (rw
        (
          contains-collected
              (λ identity current. endpoint (lookup before identity) identity current)
              (λ a. a.identity)
              (λ identity current a. endpoint-keyed (lookup before identity) identity current a)
              after c distinct',
          contains-collected (λ identity previous. gone (lookup after identity) identity)
              (λ a. a.identity)
              (λ identity previous a. gone-keyed (lookup after identity) identity a) before c
              distinct,
        )
        (entries-is_due c (lookup before c.identity) (lookup after c.identity)))

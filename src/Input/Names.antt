-- ===== src/Input/Names.antt =====
-- `NormalizeDNSName` and `InScope` of internal/input/input.go.
pub mod Valid
pub mod Scope
use ctscan.Base.{
  ℕ, Bool, true, false, ◌||◌, List, [], ◌∷◌, ◌≡◌, refl, Outcome, ok, err, ◌>>=◌, ltb, leb,
  if◌then◌else◌, ◌==◌, nat_eq, text_eq, Bytes, codes, length,
}
use ctscan.Base.Text.{
  to_lower, trim_suffix, trim_space, trim_prefix, contains_any, split, has_prefix, has_suffix,
}

-- `idna.Lookup.ToASCII` of golang.org/x/net: the ASCII form of a name, or the text of an error.
pub record Idna : Type 0 where
  pub to_ascii : Bytes → Outcome Bytes Bytes

pub data NameError : Type 0 where
  bad_characters too_long : NameError
  bad_label idna_error : Bytes → NameError

from_idna : Outcome Bytes Bytes → Outcome NameError Bytes
from_idna (ok ascii) = ok ascii
from_idna (err message) = err (idna_error message)

-- `label == "" || len(label) > 63 || HasPrefix(label, "-") || HasSuffix(label, "-")`
pub is_bad_label : Bytes → Bool
is_bad_label label =
    label == []
    || ltb 63 (length label)
    || has_prefix label (codes "-")
    || has_suffix label (codes "-")

check_labels : List Bytes → Bytes → Outcome NameError Bytes
check_labels [] ascii = ok ascii
check_labels (label ∷ labels) ascii =
    if is_bad_label label then err (bad_label label) else check_labels labels ascii

-- The name as it is handed to idna: lower case, with no final dot and no wildcard.
pub prepare_name : Bytes → Bytes
prepare_name name = trim_prefix (trim_space (trim_suffix (to_lower name) (codes "."))) (codes "*.")

abbrev pub bad_bytes : Bytes
bad_bytes = codes " \t\r\n/\\"

check_ascii : Bytes → Outcome NameError Bytes
check_ascii ascii =
    if ltb 253 (length ascii) then err too_long else check_labels (split ascii b'.') ascii

module _ (idna : Idna) where
  unfoldable pub normalize_dns_name : Bytes → Outcome NameError Bytes
  unfolding prepare_name to_lower trim_suffix trim_space trim_prefix contains_any from_idna
      check_ascii check_labels is_bad_label has_prefix has_suffix split
  normalize_dns_name raw =
      let name = prepare_name raw in
      if name == [] || contains_any name bad_bytes
      then err bad_characters
      else do ascii ← from_idna (idna.to_ascii name); check_ascii ascii

  -- one round of the loop over the scopes, on the normalized name
  covers : Bytes → Outcome NameError Bytes → Bool
  covers normalized (ok scope) = normalized == scope || has_suffix normalized (b'.' ∷ scope)
  covers normalized (err e) = false

  covered : Bytes → List Bytes → Bool
  covered normalized [] = false
  covered normalized (scope ∷ scopes) =
      covers normalized (normalize_dns_name scope) || covered normalized scopes

  scope_of : Outcome NameError Bytes → List Bytes → Bool
  scope_of (err e) scopes = false
  scope_of (ok normalized) scopes = covered normalized scopes

  unfoldable pub in_scope : Bytes → List Bytes → Bool
  unfolding covers covered scope_of
  in_scope name scopes = scope_of (normalize_dns_name name) scopes

-- An idna that maps nothing, for tests on ASCII names.
abbrev pub plain_idna : Idna
plain_idna = record { to_ascii = λ name. ok name }

pub normalize_test :
    normalize_dns_name plain_idna (codes "*.API.Example.COM.") ≡ ok (codes "api.example.com")
unfolding normalize_dns_name nat_eq text_eq
normalize_test = refl

in_scope_test :
    (in_scope plain_idna (codes "a.b.example.com") (codes "example.com" ∷ []) ≡ true)
    × (in_scope plain_idna (codes "notexample.com") (codes "example.com" ∷ []) ≡ false)
unfolding in_scope normalize_dns_name nat_eq text_eq
in_scope_test = (refl, refl)
